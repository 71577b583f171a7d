-- ===== src/Tests/Rings.antt =====
-- The magic ring of src/ring_buffer at concrete inputs.
use know_your_memory.Common.{
  ℕ, ◌+◌, ◌%◌, ◌≤◌, ◌<◌, ◌≡◌, ◌≢◌, ◌↔◌, refl, Bool, true, false, some, List, [], ◌∷◌, arith, remove,
}
use know_your_memory.Common.Words.{to_u32, sub64}
use know_your_memory.Error.{Status, value, status}
use know_your_memory.Ring.Types.{Buffer, RemoteBuffer}
use know_your_memory.Ring.Log.{Slot, mark, settle, settle_start}
use know_your_memory.Ring.Magic
use know_your_memory.Ring.Magic.Remote
use know_your_memory.Ring.Magic.Local
use know_your_memory.Ring.Magic.Link
use know_your_memory.Ring.Magic.Link.{Link, send, receive, here, next, message}
use know_your_memory.Ring.Magic.Link.Trace
use know_your_memory.Ring.Magic.Link.Safety

-- A ring of 8 bytes at address 100, with 5 bytes in use that run over the end.
abbrev wrapped : RemoteBuffer
wrapped = record { addr = 100; length = 8; key = 7; head = 5; tail = 2; full = false }

wrapped-IsValid : Remote.IsValid wrapped
wrapped-IsValid = record {
  some_room = omega arith;
  small = omega arith;
  head_in = omega arith;
  tail_in = omega arith;
  marked = λ e. cc;
  mapped = omega arith;
}

get_write_addr_iff_example :
    ((Magic.get_write_addr wrapped 2 ≡ value 102) ↔ Remote.Fits wrapped 2)
    × ((s : Status) → Magic.get_write_addr wrapped 2 ≡ status s → ¬ Remote.Fits wrapped 2)
get_write_addr_iff_example = Remote.get_write_addr_iff wrapped 2 wrapped-IsValid

write_lem_example :
    let (res, r') = Magic.write wrapped 2 in
    (Remote.Fits wrapped 2
      → (res ≡ value 102) × Remote.IsValid r' × (Remote.used r' ≡ 7) × (r'.head ≡ 5) × (4 ≤ 16))
    × (¬ Remote.Fits wrapped 2 → (r' ≡ wrapped) × ((s : Status) × (res ≡ status s)))
write_lem_example = Remote.write_lem wrapped 2 wrapped-IsValid (omega arith)

write_runs : Magic.write wrapped 2 ≡ (value 102, record wrapped { tail = 4 })
unfolding Magic.write Magic.get_write_addr
write_runs = refl

write_stops : (Magic.write wrapped 3).1 ≡ wrapped
unfolding Magic.write Magic.get_write_addr
write_stops = refl

update_head_lem_example :
    Remote.IsValid (Magic.update_head wrapped 0)
    × (Remote.used (Magic.update_head wrapped 0) + 3 ≡ 5)
update_head_lem_example =
    Remote.update_head_lem wrapped 3 0 wrapped-IsValid (omega arith) (λ e. cc) refl

-- A ring that one message of 8 bytes fills.
abbrev filled : RemoteBuffer
filled = record { addr = 100; length = 8; key = 7; head = 5; tail = 5; full = true }

filled-IsValid : Remote.IsValid filled
filled-IsValid = record {
  some_room = omega arith;
  small = omega arith;
  head_in = omega arith;
  tail_in = omega arith;
  marked = λ e. refl;
  mapped = omega arith;
}

update_head_full_example :
    (Remote.used filled ≡ 8)
    × (Remote.used (Magic.update_head filled 5) ≡ 0)
    × (Magic.get_write_addr (Magic.update_head filled 5) 3 ≡ value 105)
update_head_full_example = Remote.update_head_full filled 3 filled-IsValid refl (omega arith)

-- A receiver with regions of 3, 2 and 1 bytes in use, of which the second is free.
abbrev reading : Buffer
reading = record {
  addr = 100;
  lkey = 7;
  head = 5;
  outstanding = 5 ∷ 2 ∷ [];
  read_ptr = 3;
  length = 8;
}

abbrev slot : ℕ → Bool → Slot
slot len freed = record { len = len; freed = freed }

abbrev regions : List Slot
regions = slot 3 false ∷ slot 2 true ∷ slot 1 false ∷ []

reading-Holds : Local.Holds reading 5 regions
reading-Holds = record {
  some_room = omega arith;
  small = omega arith;
  mapped = omega arith;
  at_head = refl;
  regions = refl;
  at_end = refl;
  room = omega arith;
  positive = omega arith;
  front = refl;
}

free_refines_example :
    let ss = mark 8 (to_u32 (sub64 105 100)) 5 regions in
    (Magic.free reading 105 ≡ some (settle_start 5 ss % 8, Local.settled reading 5 ss))
    × Local.Holds (Local.settled reading 5 ss) (settle_start 5 ss) (settle ss)
free_refines_example =
    Local.free_refines reading 5 105 (slot 3 false) (slot 2 true ∷ slot 1 false ∷ []) reading-Holds

-- Freeing the first region also gives the second one back.
free_runs : Magic.free reading 105 ≡ some (2, record reading { head = 2; outstanding = 2 ∷ [] })
unfolding Magic.free remove
free_runs = refl

-- A link over 8 bytes at address 100 with one message of 3 bytes on its way.
abbrev sent : Link
sent = record {
  remote = record { addr = 100; length = 8; key = 7; head = 0; tail = 3; full = false };
  local = record { addr = 100; lkey = 7; head = 0; outstanding = []; read_ptr = 0; length = 8 };
  wire = message 100 3 ∷ [];
  acks = [];
}

sent_reached : Link.Reach (Link.init 100 16 7) sent
unfolding Link.init Magic.write Magic.get_write_addr
sent_reached = next here (send (Link.init 100 16 7) 3 100 sent.remote (omega arith) refl)

region : Safety.IsRegion 100 16
region = record { two_cells = omega arith; small = omega arith; mapped = omega arith }

delivery_example : (Magic.read sent.local 3).0 ≡ 100
delivery_example = Safety.delivery 100 16 7 sent (message 100 3) [] region sent_reached refl

no_overwrite_example :
    (t : Trace.Trace) × Trace.Inv sent t
    × ((x j : ℕ) → Safety.InUse sent t x → j < 4 → (3 + j) % 8 ≢ x % 8)
unfolding Magic.write Magic.get_write_addr
no_overwrite_example =
    Safety.no_overwrite 100 16 7 sent 4 103 (record sent.remote { tail = 7 }) region sent_reached
      refl
