-- ===== src/Write/Receiver/Flushing.antt =====
-- tests/write/write.cpp: when `WriteReceiver::Free` tells the sender of the space that is freed.
use know_your_memory.Common.{
  ℕ, ◌+◌, ◌-◌, ◌^◌, ◌≤◌, ◌<◌, ◌≡◌, ◌≢◌, ◌↔◌, refl, if◌then◌else◌, Bool, true, false, some, arith,
  inl, inr, Bool-cases, leb, dec_lt,
}
use know_your_memory.Error.{Status, value, status, success, is_ok}
use know_your_memory.Ring.Types.{RemoteBuffer}
use know_your_memory.Ring.Magic.{get_write_addr}
use know_your_memory.Ring.Magic.Remote.{IsValid}
use know_your_memory.Write.{LocalRing, ReceiveRegion}
use know_your_memory.Write.Memory.{Memory, clear}
use know_your_memory.Common.Words.{sub64}
use know_your_memory.Write.Space.{StatusOr-cases}
use know_your_memory.Write.Receiver.{Receiver, flush_due, free}

-- The bytes from one offset of a ring to another.
abbrev pub distance : ℕ → ℕ → ℕ → ℕ
distance length from to = if leb from to then to - from else length + to - from

distance_self : (length at : ℕ) → distance length at at ≡ 0
distance_self length at = ground arith

-- For offsets inside a ring of at most 2^31 bytes, `Free` flushes exactly when the bytes from the
-- acknowledged head to the new one are more than the limit.
pub flush_due_iff :
    (acked length max head : ℕ)
    → length ≤ 2 ^ 31
    → acked < length
    → head < length
    → (flush_due acked length max head ≡ true) ↔ (max < distance length acked head)
unfolding flush_due
flush_due_iff acked length max head small a h = (λ e. ground arith, λ e. ground arith)

-- When the ring frees the region, with its new head and the acknowledged one inside a ring of at
-- most 2^31 bytes, and a flush of that head succeeds, `Free` reports success, moves the ring and
-- tells the acknowledger the head, clears the message, and leaves at most the limit of bytes
-- between the acknowledged head and the new one.
pub free-unacked :
    {L : Type 0} (ring : LocalRing L) (flush : ℕ → Status) (r : Receiver L) (m : Memory)
    (reg : ReceiveRegion) (head : ℕ) (b : L)
    → r.length ≤ 2 ^ 31
    → r.acked < r.length
    → ring.free r.rbuf (sub64 reg.addr 8) ≡ some (head, b)
    → head < r.length
    → is_ok (flush head) ≡ true
    → (acked' : ℕ) × (free ring flush r m reg
        ≡ some (
          success,
          record r { rbuf = b; curr_offset = head; acked = acked' },
          clear m (sub64 reg.addr 8) (reg.length + 8),
        ))
      × (acked' < r.length)
      × (distance r.length acked' head ≤ r.max_unacked)
unfolding free
free-unacked ring flush r m reg head b small a freed h fine =
    elim (Bool-cases (flush_due r.acked r.length r.max_unacked head)) [
      | inl due ↦
          (head, rw (freed, free, due, fine) refl, h, omega (arith, distance_self r.length head))
      | inr idle ↦ (r.acked, rw (freed, free, idle) refl, a, within idle)
    ]
  where
    within :
        flush_due r.acked r.length r.max_unacked head ≡ false
        → distance r.length r.acked head ≤ r.max_unacked
    within idle =
        let due = flush_due_iff r.acked r.length r.max_unacked head small a h in
        elim (dec_lt r.max_unacked (distance r.length r.acked head)) [
          | yes lt ↦ elim (apart (due.1 lt) idle) [ ]
          | no ge ↦ omega (arith, ge)
        ]
      where
        apart : {c : Bool} → c ≡ true → c ≡ false → ⊥
        apart t f = cc

module _ (r : RemoteBuffer) (len max : ℕ) (v : IsValid r) where
  -- When the receiver has freed all it was sent, and has not told of at most `max` bytes of it and
  -- of at least one, a message that does not fit beside these bytes is refused, and no flush is
  -- due for them.
  pub unflushed_refused :
      r.head ≢ r.tail
      → distance r.length r.head r.tail ≤ max
      → r.length ≤ distance r.length r.head r.tail + len
      → (flush_due r.head r.length max r.tail ≡ false)
        × ((s : Status) × (get_write_addr r len ≡ status s))
  unfolding flush_due get_write_addr
  unflushed_refused apart told long = (
    not_due,
    elim (StatusOr-cases (get_write_addr r len)) [
      | inl (a, e) ↦ elim (fits a e) [ ]
      | inr (s, e) ↦ (s, e)
    ],
  )
    where
      not_due : flush_due r.head r.length max r.tail ≡ false
      not_due = ground arith

      fits : (a : ℕ) → get_write_addr r len ≡ value a → ⊥
      fits a e = ground arith
