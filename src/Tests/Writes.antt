-- ===== src/Tests/Writes.antt =====
-- `WriteSender` and `WriteReceiver` at concrete inputs.
use native.Mathlib.Nat.{mod-lt}
use know_your_memory.Common.{
  ℕ, ◌+◌, ◌-◌, ◌%◌, ◌≤◌, ◌<◌, ◌≡◌, ◌↔◌, refl, ap, ◌^◌, false, some, List, [], ◌∷◌, ◌++◌, arith, sum,
  map, remove, none,
}
use know_your_memory.Common.Words.{two32, add64, sub64}
use know_your_memory.Error.{
  Status, StatusOr, value, status, success, failure, internal, unknown, text,
}
use know_your_memory.Ring.Types
use know_your_memory.Ring.Types.{Buffer, RemoteBuffer}
use know_your_memory.Ring.Magic
use know_your_memory.Ring.Magic.{get_write_addr}
use know_your_memory.Ring.Magic.Remote
use know_your_memory.Endpoint.Requests
use know_your_memory.Endpoint.Requests.{SendRequest}
use know_your_memory.Endpoint.Completions.{Completion}
use know_your_memory.Write.{SendRegion, ReceiveRegion, wait_for_space, get_write_addr_or_die}
use know_your_memory.Write.Space
use know_your_memory.Write.Space.{Granted, Refuses}
use know_your_memory.Write.Memory.{Memory, store32, load32, bytes, clear, Copied}
use know_your_memory.Write.Rings.{magic, magic_local}
use know_your_memory.Write.Sender
use know_your_memory.Write.Sender.{Sent, get_memory_region, send_async, send_at, sealed, wait}
use know_your_memory.Write.Sender.Placing
use know_your_memory.Write.Sender.Wire
use know_your_memory.Write.Sender.Waiting
use know_your_memory.Write.Offset.{OffsetSender, OffsetSent, post_pair, send_offset}
use know_your_memory.Write.Offset.Tails
use know_your_memory.Write.Receiver
use know_your_memory.Write.Receiver.{Receiver, flush_due, receive, region}
use know_your_memory.Write.Receiver.Framing
use know_your_memory.Write.Receiver.Progress
use know_your_memory.Write.Receiver.Flushing
use know_your_memory.Write.Receiver.Flushing.{distance}

-- A ring of 64 bytes with 60 in use, and one whose first 40 bytes are freed.
abbrev crowded : RemoteBuffer
crowded = record { addr = 4096; length = 64; key = 7; head = 0; tail = 60; full = false }

abbrev freed : RemoteBuffer
freed = record crowded { head = 40 }

abbrev later : List (StatusOr ℕ)
later = value 50 ∷ []

crowded-Refuses : Refuses magic 16 crowded
unfolding get_write_addr
crowded-Refuses = (failure unknown (text "not enough free space for message" ∷ []), refl)

waits : wait_for_space magic crowded (value 40 ∷ later) 16 ≡ some (value 4156, freed, later)
unfolding wait_for_space get_write_addr Magic.update_head
waits = refl

wait_for_space_iff_example :
    (wait_for_space magic crowded (value 40 ∷ later) 16 ≡ some (value 4156, freed, later))
    ↔ Granted magic 16 crowded (value 40 ∷ later) 4156 freed later
wait_for_space_iff_example =
    Space.wait_for_space_iff magic 16 crowded (value 40 ∷ later) 4156 freed later

-- The region behind an allocated buffer of 12 bytes.
abbrev buf : SendRegion
buf = record { context = 1; addr = 1000; length = 12; lkey = 3 }

abbrev alloc : ℕ → StatusOr SendRegion
alloc n = value buf

abbrev dealloc : SendRegion → Status
dealloc reg = success

abbrev blank : Memory
blank x = 0

abbrev reg : SendRegion
reg = record buf { addr = 1008; length = 4 }

abbrev ready : Memory
ready = store32 blank 1000 12

-- A checksum that stands for the CRC: the sum of the bytes.
abbrev tally : List ℕ → ℕ
tally bs = sum bs % two32

abbrev accepts : SendRequest → ℕ
accepts wr = 0

abbrev sender : Sender.Sender RemoteBuffer
sender = record { ackd_id = 0; next_id = 1; rbuf = crowded }

abbrev sent : Sent RemoteBuffer
sent = send_at magic tally accepts sender ready reg freed later 4156

sends : send_async magic tally accepts sender ready (value 40 ∷ later) reg ≡ some sent
unfolding send_async wait_for_space get_write_addr Magic.update_head
sends = refl

sent_well : sent.result ≡ value 1
unfolding Requests.post_send_raw
sent_well = refl

tally_small : (bs : List ℕ) → tally bs < two32
tally_small bs = mod-lt (sum bs) (omega arith)

reg-IsFramed : Wire.IsFramed reg
reg-IsFramed = record { header = omega arith; inside = omega arith; small = omega arith }

send_async-posts_example :
    (at : ℕ) × (r : RemoteBuffer) × Wire.Wired magic tally accepts sender ready reg
      (value 40 ∷ later)
      sent
      1
      at
      r
send_async-posts_example =
    Wire.send_async-posts magic tally accepts sender ready reg (value 40 ∷ later) sent 1 tally_small
      reg-IsFramed sends sent_well

abbrev done : ℕ → Completion
done n = record { wr_id = n; wc_error = 0; byte_len = 0; imm_data = 0; qp_num = 0 }

wait_lem_example :
    wait 0 3 (map value (done 1 ∷ done 2 ∷ []) ++ value (done 4) ∷ []) ≡ some (success, 4, [])
wait_lem_example =
    Waiting.wait_lem 0 3 (done 1 ∷ done 2 ∷ []) (done 4) [] (omega arith) (omega arith)

abbrev broken : Status
broken = failure internal []

abbrev local : Buffer
local = record {
  addr = 4096;
  lkey = 7;
  head = 40;
  outstanding = 40 ∷ [];
  read_ptr = 60;
  length = 64;
}

-- What `sent` leaves at the receiver.
abbrev arrived : Memory
arrived x = sealed magic tally accepts ready reg (x + 1000 - 4156)

arrived-Copied : Copied (sealed magic tally accepts ready reg) 1000 arrived 4156 12
arrived-Copied i h =
    let e : 4156 + i + 1000 - 4156 ≡ 1000 + i = omega arith in
    ap (sealed magic tally accepts ready reg) e

read_ptr_low : magic_local.get_read_ptr local + (4 + 8) < 2 ^ 64
unfolding Magic.get_read_ptr
read_ptr_low = omega arith

receive-sealed_example :
    (got : ReceiveRegion) × (rest : List Memory) × (receive tally magic_local local
        (arrived ∷ arrived ∷ arrived ∷ [])
      ≡ some (got, (magic_local.read local 12).1, rest))
    × (got.length ≡ 4)
    × (bytes arrived got.addr got.length ≡ bytes ready 1008 4)
unfolding Magic.get_read_ptr
receive-sealed_example =
    Framing.receive-sealed magic magic_local tally accepts ready reg arrived local []
      (λ bs. mod-lt (sum bs) (omega arith)) (omega arith) (omega arith) (omega arith) read_ptr_low
      refl arrived-Copied

found : load32 (store32 blank 4156 12) (magic_local.get_read_ptr local) ≡ 12
unfolding Magic.get_read_ptr
found = refl

empty_cell : load32 (store32 blank 4156 12) (add64 (magic_local.get_read_ptr local) 4) ≡ 0
unfolding Magic.get_read_ptr
empty_cell = refl

receive-unchecked_example :
    receive tally magic_local local (store32 blank 4156 12 ∷ store32 blank 4156 12 ∷ [])
    ≡ some (region tally (magic_local.get_read_ptr local) 12, (magic_local.read local 12).1, [])
receive-unchecked_example =
    Framing.receive-unchecked tally magic_local local (store32 blank 4156 12)
      (store32 blank 4156 12) 12 [] refl found (λ e. omega arith) empty_cell

abbrev receiver : Receiver Buffer
receiver = record { rbuf = local; curr_offset = 40; acked = 20; length = 64; max_unacked = 32 }

abbrev flush : ℕ → Status
flush head = success

frees :
    magic_local.free local (sub64 4144 8) ≡ some (60, record local { head = 60; outstanding = [] })
unfolding Magic.free Types.free_region remove
frees = refl

free-unacked_example :
    (acked' : ℕ) × (Receiver.free magic_local flush receiver blank
        (record { context = 0; addr = 4144; length = 12; lkey = none })
      ≡ some (
        success,
        record receiver {
          rbuf = record local { head = 60; outstanding = [] };
          curr_offset = 60;
          acked = acked';
        },
        clear blank 4136 20,
      ))
    × (acked' < 64)
    × (distance 64 acked' 60 ≤ 32)
free-unacked_example =
    Flushing.free-unacked magic_local flush receiver blank
      (record { context = 0; addr = 4144; length = 12; lkey = none }) 60
      (record local { head = 60; outstanding = [] }) (omega arith) (omega arith) frees (omega arith)
      refl

freed-IsValid : Remote.IsValid freed
freed-IsValid = record {
  some_room = omega arith;
  small = omega arith;
  head_in = omega arith;
  tail_in = omega arith;
  marked = λ e. cc;
  mapped = omega arith;
}

unflushed_refused_example :
    (flush_due 40 64 32 60 ≡ false) × ((s : Status) × (get_write_addr freed 44 ≡ status s))
unflushed_refused_example =
    Flushing.unflushed_refused freed 44 32 freed-IsValid (λ e. omega arith) (omega arith)
      (omega arith)

abbrev accepts_chain : List SendRequest → ℕ
accepts_chain wrs = 0

abbrev offset_sender : OffsetSender RemoteBuffer
offset_sender = record { next_id = 1; rbuf = crowded; tail_addr = 9000; tail_key = 8 }

abbrev offset_sent : OffsetSent RemoteBuffer
offset_sent = post_pair magic 500 accepts_chain offset_sender reg freed later 4156 4

offset_runs :
    send_offset magic 500 accepts_chain offset_sender (value 40 ∷ later) reg ≡ some offset_sent
unfolding send_offset get_write_addr_or_die wait_for_space get_write_addr Magic.update_head
    Magic.get_next_tail
offset_runs = refl

offset_well : offset_sent.result ≡ value 1
unfolding Requests.post_send_raw
offset_well = refl

send_offset-Tailed_example : some 4 ≡ some (offset_sent.sender.rbuf).tail
send_offset-Tailed_example =
    Tails.send_offset-Tailed 500 accepts_chain offset_sender reg (value 40 ∷ later) offset_sent 1
      offset_runs offset_well

crowded-IsValid : Remote.IsValid crowded
crowded-IsValid = record {
  some_room = omega arith;
  small = omega arith;
  head_in = omega arith;
  tail_in = omega arith;
  marked = λ e. cc;
  mapped = omega arith;
}

send_async-Fits_example :
    (r : RemoteBuffer) × (hs : List ℕ) × Placing.Placed sender reg (value 40 ∷ later) sent 1 r hs
send_async-Fits_example =
    Placing.send_async-Fits tally accepts sender ready (value 40 ∷ later) reg sent 1 crowded-IsValid
      (omega arith, (omega arith, tt)) tally_small reg-IsFramed sends sent_well

free-wait_for_space_example :
    (acked' : ℕ) × (r' : RemoteBuffer) × (rest : List (StatusOr ℕ)) × (Receiver.free magic_local
        flush receiver blank
        (record { context = 0; addr = 4144; length = 12; lkey = none })
      ≡ some (
        success,
        record receiver {
          rbuf = record local { head = 60; outstanding = [] };
          curr_offset = 60;
          acked = acked';
        },
        clear blank 4136 20,
      ))
    × (wait_for_space magic crowded (value acked' ∷ []) 12 ≡ some (value (4096 + 60), r', rest))
free-wait_for_space_example =
    Progress.free-wait_for_space magic_local flush receiver blank
      (record { context = 0; addr = 4144; length = 12; lkey = none })
      (record local { head = 60; outstanding = [] }) crowded 12 crowded-IsValid refl (omega arith)
      frees refl (omega arith)
