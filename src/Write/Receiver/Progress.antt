-- ===== src/Write/Receiver/Progress.antt =====
-- tests/write/write.cpp: `WriteReceiver::Free` and a sender that waits for room, on one magic ring.
use mathlib.Core.Path.{subst}
use know_your_memory.Common.{
  ℕ, ◌+◌, ◌≤◌, ◌<◌, ◌≡◌, refl, ap, some, List, [], ◌∷◌, arith, inl, inr, true,
}
use know_your_memory.Common.Words.{sub64}
use know_your_memory.Error.{Status, StatusOr, value, success, is_ok}
use know_your_memory.Ring.Types.{RemoteBuffer}
use know_your_memory.Ring.Magic
use know_your_memory.Ring.Magic.{get_write_addr}
use know_your_memory.Ring.Magic.Remote.{IsValid, get_write_addr-eq}
use know_your_memory.Write.{LocalRing, ReceiveRegion, wait_for_space}
use know_your_memory.Write.Memory.{Memory, clear}
use know_your_memory.Write.Rings.{magic}
use know_your_memory.Write.Space.{StatusOr-cases}
use know_your_memory.Write.Receiver.{Receiver, free}
use know_your_memory.Write.Receiver.Flushing.{distance, free-unacked}

-- The bytes that are freed and not told of, and the message, leave the ring a byte.
told-room :
    (r : RemoteBuffer) (len max acked : ℕ)
    → IsValid r
    → acked < r.length
    → distance r.length acked r.tail ≤ max
    → len + max < r.length
    → get_write_addr (Magic.update_head r acked) len ≡ value (r.addr + r.tail)
unfolding get_write_addr Magic.update_head
told-room r len max acked v inside near fits = ground (arith, v)

-- A sender gets its address at once, or after the head that it is told.
wait-told :
    (r : RemoteBuffer) (len acked : ℕ)
    → IsValid r
    → get_write_addr (Magic.update_head r acked) len ≡ value (r.addr + r.tail)
    → (r' : RemoteBuffer) × (rest : List (StatusOr ℕ)) × (wait_for_space magic r
          (value acked ∷ [])
          len
        ≡ some (value (r.addr + r.tail), r', rest))
unfolding wait_for_space
wait-told r len acked v room = elim (StatusOr-cases (get_write_addr r len)) [
  | inl (a, e) ↦ (
    r,
    value acked ∷ [],
    rw (e, wait_for_space)
        (ap (λ x. some (value x, r, value acked ∷ [])) (get_write_addr-eq r len a v e)),
  )
  | inr (s, e) ↦
      (Magic.update_head r acked, [], rw (e, wait_for_space) (rw (room, wait_for_space) refl))
]

-- When `Free` frees the last message that was sent over a valid magic ring, and a flush of its head
-- would succeed, it leaves an acknowledged head by which no sender has to wait any longer: one
-- with any message that is shorter than the ring by more than the receiver's limit gets the
-- address of its tail, at once or when it is told this head, even if `Free` has not flushed.
pub free-wait_for_space :
    {L : Type 0} (local : LocalRing L) (flush : ℕ → Status) (rec : Receiver L) (m : Memory)
    (reg : ReceiveRegion) (b : L) (r : RemoteBuffer) (len : ℕ)
    → IsValid r
    → rec.length ≡ r.length
    → rec.acked < rec.length
    → local.free rec.rbuf (sub64 reg.addr 8) ≡ some (r.tail, b)
    → is_ok (flush r.tail) ≡ true
    → len + rec.max_unacked < r.length
    → (acked' : ℕ) × (r' : RemoteBuffer) × (rest : List (StatusOr ℕ)) × (free local flush rec m reg
        ≡ some (
          success,
          record rec { rbuf = b; curr_offset = r.tail; acked = acked' },
          clear m (sub64 reg.addr 8) (reg.length + 8),
        ))
      × (wait_for_space magic r (value acked' ∷ []) len ≡ some (value (r.addr + r.tail), r', rest))
free-wait_for_space local flush rec m reg b r len v same inside freed fine fits =
    let (acked', did, below, near) =
      free-unacked local flush rec m reg r.tail b (omega (arith, v.small, same)) inside freed
        (omega (arith, v.tail_in, same)) fine in
    let room =
      told-room r len rec.max_unacked acked' v (omega (arith, below, same))
        (subst (λ l. distance l acked' r.tail ≤ rec.max_unacked) same near) fits in
    let (r', rest, got) = wait-told r len acked' v room in (acked', r', rest, did, got)
