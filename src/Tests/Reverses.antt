-- ===== src/Tests/Reverses.antt =====
-- tests/write/reverse.cpp: a message that wraps around in a ring of 16 bytes.
use know_your_memory.Common.{
  ◌+◌, ◌-◌, ◌%◌, ◌<◌, ◌≡◌, refl, ap, true, false, some, [], ◌∷◌, arith, ltb, ◌≤◌, inl, inr,
  Bool-cases, if◌then◌else◌,
}
use know_your_memory.Error.{value}
use know_your_memory.Ring.Types.{RemoteBuffer, Buffer}
use know_your_memory.Ring.Reverse.{get_write_addr, get_next_tail}
use know_your_memory.Ring.Reverse.Remote.{IsValid}
use know_your_memory.Endpoint.Requests.{write_request}
use know_your_memory.Write.{SendRegion, ReceiveRegion}
use know_your_memory.Write.Memory.{Memory, store32, Copied, bytes}
use know_your_memory.Write.Sender.{Sender, Sent}
use know_your_memory.Write.Receiver.{Receiver}
use know_your_memory.Write.Rings.{reverse, reverse_local}
use know_your_memory.Write.Reverse.{
  get_reverse_region, reverse_frame, send_reverse, receive_reverse,
}
use know_your_memory.Write.Reverse.Frame.{Mirrored}
use know_your_memory.Write.Reverse.Delivery.{InStep}
use know_your_memory.Write.Reverse.Roundtrip.{receive_reverse-send_reverse}

abbrev ring : RemoteBuffer
ring = record { addr = 4096; length = 16; key = 5; head = 3; tail = 3; full = false }

abbrev receiver : Receiver Buffer
receiver = record {
  rbuf = record { addr = 4096; lkey = 9; head = 3; outstanding = []; read_ptr = 3; length = 16 };
  curr_offset = 3;
  acked = 3;
  length = 16;
  max_unacked = 8;
}

abbrev sender : Sender RemoteBuffer
sender = record { ackd_id = 0; next_id = 1; rbuf = ring }

abbrev buf : SendRegion
buf = record { context = 0; addr = 100; length = 10; lkey = 7 }

abbrev reg : SendRegion
reg = record { context = 0; addr = 101; length = 4; lkey = 7 }

region_of_buf : (get_reverse_region (λ n. value buf) (λ x. 0) 4).0 ≡ value reg
unfolding get_reverse_region
region_of_buf = refl

-- The frame of `GetMemoryRegion` and four bytes of payload.
abbrev ready : Memory
ready = store32 (reverse_frame (λ x. 0) buf 4) 101 67305985

-- The ring's memory, mapped twice, with the message from its place 9 on.
abbrev arrived : Memory
arrived x = let k = (x - 4096) % 16 in if ltb k 9 then ready (107 + k) else ready (91 + k)

ring-IsValid : IsValid ring
ring-IsValid = record {
  some_room = omega arith;
  small = omega arith;
  head_in = omega arith;
  tail_in = omega arith;
  origin = λ e. omega (arith, e);
  marked = λ e. refl;
  mapped = omega arith;
}

in_step : InStep ring receiver
in_step = record { same_addr = refl; same_length = refl; same_place = refl; whole_length = refl }

address : get_write_addr ring (4 + 6) ≡ value 4105
unfolding get_write_addr get_next_tail
address = refl

arrived-Mirrored : Mirrored arrived 4096 16
arrived-Mirrored i h =
    let e : (4096 + 16 + i - 4096) % 16 ≡ (4096 + i - 4096) % 16 = omega arith in
    ap (λ k. if ltb k 9 then ready (107 + k) else ready (91 + k)) e

arrived-Copied : Copied ready 100 arrived 4105 10
arrived-Copied i h =
    let low : i < 7 → arrived (4105 + i) ≡ ready (100 + i) = λ l.
      let k : (4105 + i - 4096) % 16 ≡ 9 + i = omega (arith, l) in
      let e : 91 + (9 + i) ≡ 100 + i = omega arith in
      let out : ltb (9 + i) 9 ≡ false = ground arith in rw (k, out, e) refl in
    let high : 7 ≤ i → arrived (4105 + i) ≡ ready (100 + i) = λ l.
      let k : (4105 + i - 4096) % 16 ≡ i - 7 = omega (arith, l, h) in
      let e : 107 + (i - 7) ≡ 100 + i = omega (arith, l) in
      let out : ltb (i - 7) 9 ≡ true = ground (arith, h) in rw (k, out, e) refl in
    elim (Bool-cases (ltb i 7)) [
      | inl t ↦ low (ground (arith, t))
      | inr f ↦ high (ground (arith, f))
    ]

receive_reverse-send_reverse_example :
    (t : Sent RemoteBuffer) × (got : ReceiveRegion) × (rec' : Receiver Buffer) × (send_reverse
        reverse
        (λ q. 0)
        sender
        ready
        []
        reg
      ≡ some t)
    × (t.posted ≡ some (write_request 1 7 100 10 4105 5))
    × (receive_reverse reverse_local receiver (arrived ∷ arrived ∷ []) ≡ some ((got, rec'), []))
    × (got.length ≡ 4)
    × (bytes arrived got.addr got.length ≡ bytes ready 101 4)
    × InStep t.sender.rbuf rec'
receive_reverse-send_reverse_example =
    receive_reverse-send_reverse (λ q. 0) sender receiver ready arrived reg 4105 [] [] ring-IsValid
      in_step (λ q. refl) address (omega arith) (omega arith) refl (λ e. omega (arith, e))
      arrived-Mirrored arrived-Copied
