-- ===== src/Write/Reverse/Roundtrip.antt =====
-- tests/write/reverse.cpp: `SendAsync` and `Receive` at the two ends of one reverse ring.
use mathlib.Core.Path.{subst}
use know_your_memory.Write.Space.{StatusOr-cases}
use know_your_memory.Common.{
  inl, inr, ℕ, ◌+◌, ◌-◌, ◌<◌, ◌≡◌, ◌≢◌, refl, sym, ap, ◌∙◌, some, List, ◌∷◌, arith,
}
use know_your_memory.Common.Words.{two64, two32, add64, to_u32, add32, sub32, sub64}
use know_your_memory.Ring.Types.{RemoteBuffer, Buffer}
use know_your_memory.Ring.Reverse.{read, get_key, get_write_addr, get_next_tail, write}
use know_your_memory.Ring.Reverse.Remote.{IsValid, down}
use know_your_memory.Error.{StatusOr, value}
use know_your_memory.Endpoint.Requests.{SendRequest, write_request, post_send_raw}
use know_your_memory.Write.{SendRegion, ReceiveRegion}
use know_your_memory.Write.Memory.{Memory, load32, bytes, bytes-Copied, Copied}
use know_your_memory.Write.Sender.{Sender, Sent}
use know_your_memory.Write.Receiver.{Receiver}
use know_your_memory.Write.Rings.{reverse, reverse_local}
use know_your_memory.Write.Reverse.{
  send_reverse, send_reverse_at, sent_reverse, addressed, reverse_request, receive_reverse,
  received_at, reverse_frame,
}
use know_your_memory.Write.Reverse.Frame.{Mirrored}
use know_your_memory.Write.Reverse.Delivery.{
  InStep, written_at, read_at, written-Copied, frame_there, received,
}

-- The receiver moves to where the sender's tail moves.
tail_at :
    (r : RemoteBuffer) (n at : ℕ)
    → IsValid r
    → get_write_addr r (n + 6) ≡ value at
    → (write r (n + 5)).1.tail ≡ down r.length r.tail (n + 5)
unfolding get_write_addr get_next_tail write
tail_at r n at v e = ground (arith, v)

-- A write leaves the place and the size of the ring.
write_keeps :
    (r : RemoteBuffer) (len : ℕ)
    → (r.addr ≡ (write r len).1.addr) × (r.length ≡ (write r len).1.length)
unfolding write
write_keeps r len = elim (StatusOr-cases (get_next_tail r len)) [
  | inl (a, e) ↦ rw (e, write) (refl, refl)
  | inr (s, e) ↦ rw (e, write) (refl, refl)
]

still_InStep :
    (r : RemoteBuffer) (rec : Receiver Buffer) (n at : ℕ)
    → IsValid r
    → InStep r rec
    → get_write_addr r (n + 6) ≡ value at
    → InStep (write r (n + 5)).1 (received_at reverse_local rec (n + 5)).1
unfolding read
still_InStep r rec n at v st room =
    let (fits, _) = written_at r rec v st n at room in
    record {
      same_addr = st.same_addr ∙ (write_keeps r (n + 5)).0;
      same_length = st.same_length ∙ (write_keeps r (n + 5)).1;
      same_place = (read_at r rec v st n fits).1 ∙ sym (tail_at r n at v room);
      whole_length = st.whole_length ∙ (write_keeps r (n + 5)).1;
    }

request_eq :
    (id lkey start len at key a l : ℕ)
    → start ≡ a
    → len ≡ l
    → write_request id lkey start len at key ≡ write_request id lkey a l at key
request_eq id lkey start len at key a l p q = rw (p, q) refl

send_reverse-at_once :
    (post : SendRequest → ℕ) (s : Sender RemoteBuffer) (m : Memory) (reg : SendRegion) (at : ℕ)
    (acks : List (StatusOr ℕ))
    → add32 reg.length 6 ≡ reg.length + 6
    → get_write_addr s.rbuf (reg.length + 6) ≡ value at
    → send_reverse reverse post s m acks reg
      ≡ some (send_reverse_at reverse post s m reg s.rbuf acks at)
unfolding send_reverse
send_reverse-at_once post s m reg at acks small e =
    ap
      (λ l.
        sent_reverse reverse post s m reg
          (addressed reverse s.rbuf acks l (get_write_addr s.rbuf l)))
      small
    ∙ ap (λ x. sent_reverse reverse post s m reg (addressed reverse s.rbuf acks (reg.length + 6) x))
        e

sent_tail :
    (post : SendRequest → ℕ) (s : Sender RemoteBuffer) (m : Memory) (reg : SendRegion) (at : ℕ)
    (acks : List (StatusOr ℕ))
    → sub32 (add32 reg.length 6) 1 ≡ reg.length + 5
    → ((q : SendRequest) → post q ≡ 0)
    → (send_reverse_at reverse post s m reg s.rbuf acks at).sender.rbuf
      ≡ (write s.rbuf (reg.length + 5)).1
unfolding post_send_raw
sent_tail post s m reg at acks small ok =
    rw (ok (reverse_request reverse post s.next_id reg at s.rbuf), small) refl

-- From a valid ring that gives an address at once, with verbs that accept, `SendAsync` writes the
-- whole frame there. If it has been written there as `GetMemoryRegion` laid it out, the receiver,
-- whose read pointer is the sender's tail, gets the payload at its first look, wherever the message
-- wraps around in the doubly mapped memory, and both ends are in step again.
pub receive_reverse-send_reverse :
    (post : SendRequest → ℕ) (s : Sender RemoteBuffer) (rec : Receiver Buffer) (m w : Memory)
    (reg : SendRegion) (at : ℕ) (acks : List (StatusOr ℕ)) (ms : List Memory)
    → IsValid s.rbuf
    → InStep s.rbuf rec
    → ((q : SendRequest) → post q ≡ 0)
    → get_write_addr s.rbuf (reg.length + 6) ≡ value at
    → 0 < reg.addr
    → reg.addr < two64
    → load32 m (reg.addr + reg.length) ≡ reg.length + 5
    → m (reg.addr + reg.length + 4) ≢ 0
    → Mirrored w s.rbuf.addr s.rbuf.length
    → Copied m (reg.addr - 1) w at (reg.length + 6)
    → (t : Sent RemoteBuffer) × (got : ReceiveRegion) × (rec' : Receiver Buffer) × (send_reverse
          reverse post s m acks reg
        ≡ some t)
      × (t.posted
          ≡ some (write_request s.next_id reg.lkey (reg.addr - 1) (reg.length + 6) at s.rbuf.key))
      × (receive_reverse reverse_local rec (w ∷ w ∷ ms) ≡ some ((got, rec'), ms))
      × (got.length ≡ reg.length)
      × (bytes w got.addr got.length ≡ bytes m reg.addr reg.length)
      × InStep t.sender.rbuf rec'
unfolding get_key
receive_reverse-send_reverse post s rec m w reg at acks ms v st ok room pos inside size marked mir
      c =
    let n = reg.length in
    let r = s.rbuf in
    let a = reg.addr - 1 in
    let back : a + 1 ≡ reg.addr = omega (arith, pos) in
    let (fits, _) = written_at r rec v st n at room in
    let there = written-Copied r rec v st n at m w a room mir c in
    let frame = frame_there r rec v st n m w a fits mir there in
    let short : sub32 (n + 5) 5 ≡ n = omega (arith, fits, v.small) in
    let low : sub64 reg.addr 1 ≡ reg.addr - 1 = omega (arith, pos, inside) in
    let len : add32 n 6 ≡ n + 6 = omega (arith, fits, v.small) in
    (
      send_reverse_at reverse post s m reg r acks at,
      (received_at reverse_local rec (n + 5)).0,
      (received_at reverse_local rec (n + 5)).1,
      send_reverse-at_once post s m reg at acks len room,
      ap some
          (request_eq s.next_id reg.lkey (sub64 reg.addr 1) (add32 n 6) at r.key a (n + 6) low len),
      received r rec v st n m w a ms fits (rw back size) (rw back marked) frame,
      short,
      ap (λ x. bytes w x (sub32 (n + 5) 5)) (read_at r rec v st n fits).0
          ∙ ap (bytes w (r.addr + down r.length r.tail (n + 5))) short
          ∙ bytes-Copied m (a + 1) w (r.addr + down r.length r.tail (n + 5)) n
              (λ i h. there i (omega (arith, h)))
          ∙ ap (λ x. bytes m x n) back,
      subst (λ x. InStep x (received_at reverse_local rec (n + 5)).1)
          (sym (sent_tail post s m reg at acks (omega (arith, len)) ok))
          (still_InStep r rec n at v st room),
    )

-- A buffer that `GetMemoryRegion` has laid out is such a frame, with a 0 in front of it, for sizes
-- that fit 32 bits.
reverse_frame-laid :
    (m : Memory) (buf : SendRegion) (size : ℕ)
    → buf.length ≡ size + 6
    → size + 6 < two32
    → buf.addr + buf.length < two64
    → let m' = reverse_frame m buf size in
      (m' buf.addr ≡ 0)
      × (load32 m' (buf.addr + 1 + size) ≡ size + 5)
      × (m' (buf.addr + 1 + size + 4) ≡ 1)
reverse_frame-laid m buf size l small inside =
    let last : sub64 (add64 buf.addr buf.length) 1 ≡ buf.addr + 1 + size + 4 = omega arith in
    let word : sub64 (buf.addr + 1 + size + 4) 4 ≡ buf.addr + 1 + size = omega arith in
    let len : to_u32 (add64 size 5) ≡ size + 5 = omega arith in rw (last, word, len) (ground arith)
