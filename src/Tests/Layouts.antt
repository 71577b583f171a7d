-- ===== src/Tests/Layouts.antt =====
-- The basic and the reverse ring and the mapping of src/ring_buffer at concrete inputs.
use know_your_memory.Common.{refl, false, some, [], ◌∷◌, arith}
use know_your_memory.Error.{Status, failure, unknown, text}
use know_your_memory.Ring.Types.{Buffer, RemoteBuffer}
use know_your_memory.Ring.Reverse.Remote as Down
use know_your_memory.Ring.Mapping
use know_your_memory.Ring.Mapping.{Answers}

-- A receiver with regions of 3, 2 and 1 bytes in use, of which the second is free.
abbrev reading : Buffer
reading = record {
  addr = 100;
  lkey = 7;
  head = 5;
  outstanding = 5 ∷ 2 ∷ [];
  read_ptr = 3;
  length = 8;
}

abbrev fresh : RemoteBuffer
fresh = record { addr = 100; length = 8; key = 7; head = 0; tail = 0; full = false }

fresh-IsValid : Down.IsValid fresh
fresh-IsValid = record {
  some_room = omega arith;
  small = omega arith;
  head_in = omega arith;
  tail_in = omega arith;
  origin = λ e. refl;
  marked = λ e. refl;
  mapped = omega arith;
}

abbrev below : RemoteBuffer
below = record fresh { tail = 5 }

below-IsValid : Down.IsValid below
below-IsValid = record {
  some_room = omega arith;
  small = omega arith;
  head_in = omega arith;
  tail_in = omega arith;
  origin = λ e. refl;
  marked = λ e. cc;
  mapped = omega arith;
}

abbrev no_space : Status
no_space = failure unknown (text "not enough free space for message" ∷ [])

abbrev ring : Buffer
ring = record { addr = 100; lkey = 7; head = 0; outstanding = []; read_ptr = 0; length = 8 }

-- Everything goes well, and the second `shmat` fails.
abbrev good : Answers
good = record {
  reserved = 4096;
  segment = some 9;
  first = 4096;
  second = 8192;
  rm_failed = false;
  errno = 0;
}

abbrev half_mapped : Answers
half_mapped = record good { second = Mapping.map_failed }
