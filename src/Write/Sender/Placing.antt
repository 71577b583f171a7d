-- ===== src/Write/Sender/Placing.antt =====
-- `WriteSender` on a magic ring: where the message that it posts goes.
use mathlib.Core.Path.{subst}
use know_your_memory.Common.{ℕ, ◌+◌, ◌≡◌, ◌<◌, sym, ap, ◌∙◌, some, List, [], ◌∷◌, ◌++◌, map, arith}
use know_your_memory.Common.Words.{two32}
use know_your_memory.Error.{StatusOr, value, status}
use know_your_memory.Endpoint.Requests.{SendRequest}
use know_your_memory.Ring.Types.{RemoteBuffer}
use know_your_memory.Ring.Magic
use know_your_memory.Ring.Magic.Remote.{
  IsValid, Fits, used, get_write_addr-eq, get_write_addr_iff, write_lem,
}
use know_your_memory.Write.{SendRegion}
use know_your_memory.Write.Space.{with_heads, Blocked}
use know_your_memory.Write.Memory.{Memory}
use know_your_memory.Write.Rings.{magic}
use know_your_memory.Write.Sender.{Sender, Sent, send_async}
use know_your_memory.Write.Sender.Wire.{wire_request, IsFramed, send_async-posts}

-- The heads that arrive are offsets of the ring.
abbrev pub Offsets : ℕ → List (StatusOr ℕ) → Type 0
Offsets length [] = Unit
Offsets length (value h ∷ acks) = (h < length) × Offsets length acks
Offsets length (status s ∷ acks) = Offsets length acks

update_head-IsValid :
    (r : RemoteBuffer) (h : ℕ) → IsValid r → h < r.length → IsValid (Magic.update_head r h)
unfolding Magic.update_head
update_head-IsValid r h v lt = record {
  some_room = v.some_room;
  small = v.small;
  head_in = lt;
  tail_in = v.tail_in;
  marked = λ e. cc;
  mapped = v.mapped;
}

with_heads-IsValid :
    (len : ℕ) (r : RemoteBuffer) (hs : List ℕ) (rest : List (StatusOr ℕ))
    → IsValid r
    → Offsets r.length (map value hs ++ rest)
    → IsValid (with_heads magic len r hs)
unfolding Magic.update_head
with_heads-IsValid len r [] rest v o = v
with_heads-IsValid len r (h ∷ hs) rest v (lt, o) =
    with_heads-IsValid len (Magic.update_head r h) hs rest (update_head-IsValid r h v lt) o

-- What such a call has done: the heads of the answers that it used up came to the ring in their order
-- as long as it had no room, and the message went to the tail of the ring that then had it.
abbrev pub Placed :
    Sender RemoteBuffer
    → SendRegion
    → List (StatusOr ℕ)
    → Sent RemoteBuffer
    → ℕ
    → RemoteBuffer
    → List ℕ
    → Type 0
Placed s reg acks sent id r hs =
    (acks ≡ map value hs ++ sent.acks)
    × (r ≡ with_heads magic (reg.length + 8) s.rbuf hs)
    × Blocked magic (reg.length + 8) s.rbuf hs
    × Fits r (reg.length + 8)
    × (sent.posted ≡ some (wire_request id reg (r.addr + r.tail) r.key))
    × IsValid sent.sender.rbuf
    × (used sent.sender.rbuf ≡ used r + (reg.length + 8))

-- On a valid magic ring whose acknowledgements are offsets of the ring, a call that returns an id
-- has used up the heads that arrived while the ring had no room, and no others; the message that it
-- posts, header and all, goes to the tail of the ring with these heads, which it fits. The sender
-- is left with a valid ring that has that many more bytes in use. The region lies behind a header,
-- below the end of the address space, and the checksums have 32 bits.
pub send_async-Fits :
    (crc : List ℕ → ℕ) (post : SendRequest → ℕ) (s : Sender RemoteBuffer) (m : Memory)
    (acks : List (StatusOr ℕ)) (reg : SendRegion) (sent : Sent RemoteBuffer) (id : ℕ)
    → IsValid s.rbuf
    → Offsets s.rbuf.length acks
    → ((bs : List ℕ) → crc bs < two32)
    → IsFramed reg
    → send_async magic crc post s m acks reg ≡ some sent
    → sent.result ≡ value id
    → (r : RemoteBuffer) × (hs : List ℕ) × Placed s reg acks sent id r hs
unfolding Magic.get_key
send_async-Fits crc post s m acks reg sent id v o bound f e ok =
    let n = reg.length + 8 in
    let (at, r, all) = send_async-posts magic crc post s m reg acks sent id bound f e ok in
    let (granted, next, posted, done, same_ackd, id_moved, moved, crcd) = all in
    let (hs, is, same, blocked, got) = granted in
    let valid : IsValid r =
      subst IsValid (sym same)
        (with_heads-IsValid n s.rbuf hs sent.acks v (subst (Offsets s.rbuf.length) is o)) in
    let tail = get_write_addr-eq r n at valid got in
    let fits = (get_write_addr_iff r n valid).0.0 (got ∙ ap value tail) in
    let (answer, valid', more, head, inside) = (write_lem r n valid (omega arith)).0 fits in
    (
      r,
      hs,
      (
        is,
        same,
        blocked,
        fits,
        posted ∙ ap (λ a. some (wire_request id reg a r.key)) tail,
        subst IsValid (sym moved) valid',
        ap used moved ∙ more,
      ),
    )
