-- ===== src/Write/Rings.antt =====
-- The classes of src/ring_buffer as rings for senders and receivers.
use know_your_memory.Common.{ℕ, ◌≡◌, refl, inl, inr}
use know_your_memory.Ring.Types.{Buffer, RemoteBuffer}
use know_your_memory.Ring.Magic
use know_your_memory.Ring.Reverse
use know_your_memory.Ring.Basic
use know_your_memory.Write.{RemoteRing, LocalRing}
use know_your_memory.Write.Space.{StatusOr-cases}

pub magic_answer : (r : RemoteBuffer) (len : ℕ) → (Magic.write r len).0 ≡ Magic.get_write_addr r len
unfolding Magic.write
magic_answer r len = elim (StatusOr-cases (Magic.get_write_addr r len)) [
  | inl (a, e) ↦ rw (e, Magic.write) refl
  | inr (s, e) ↦ rw (e, Magic.write) refl
]

pub reverse_answer :
    (r : RemoteBuffer) (len : ℕ) → (Reverse.write r len).0 ≡ Reverse.get_write_addr r len
unfolding Reverse.write Reverse.get_write_addr
reverse_answer r len = elim (StatusOr-cases (Reverse.get_next_tail r len)) [
  | inl (a, e) ↦ rw (e, Reverse.write, Reverse.get_write_addr) refl
  | inr (s, e) ↦ rw (e, Reverse.write, Reverse.get_write_addr) refl
]

pub basic_answer : (r : RemoteBuffer) (len : ℕ) → (Basic.write r len).0 ≡ Basic.get_write_addr r len
unfolding Basic.write
basic_answer r len = elim (StatusOr-cases (Basic.get_write_addr r len)) [
  | inl (a, e) ↦ rw (e, Basic.write) refl
  | inr (s, e) ↦ rw (e, Basic.write) refl
]

-- `MagicRemoteBuffer`
abbrev pub magic : RemoteRing RemoteBuffer
magic = record {
  update_head = Magic.update_head;
  get_key = Magic.get_key;
  get_tail = Magic.get_tail;
  get_write_addr = Magic.get_write_addr;
  get_next_tail = Magic.get_next_tail;
  write = Magic.write;
  write-get_write_addr = magic_answer;
}

-- `ReverseRemoteBuffer`
abbrev pub reverse : RemoteRing RemoteBuffer
reverse = record {
  update_head = Reverse.update_head;
  get_key = Reverse.get_key;
  get_tail = Reverse.get_tail;
  get_write_addr = Reverse.get_write_addr;
  get_next_tail = Reverse.get_next_tail;
  write = Reverse.write;
  write-get_write_addr = reverse_answer;
}

-- `BasicRemoteBuffer`
abbrev pub basic : RemoteRing RemoteBuffer
basic = record {
  update_head = Basic.update_head;
  get_key = Basic.get_key;
  get_tail = Basic.get_tail;
  get_write_addr = Basic.get_write_addr;
  get_next_tail = Basic.get_next_tail;
  write = Basic.write;
  write-get_write_addr = basic_answer;
}

-- `MagicRingBuffer`
abbrev pub magic_local : LocalRing Buffer
magic_local = record {
  get_read_ptr = Magic.get_read_ptr;
  get_read_off = Magic.get_read_off;
  read = Magic.read;
  free = Magic.free;
}

-- `ReverseRingBuffer`
abbrev pub reverse_local : LocalRing Buffer
reverse_local = record {
  get_read_ptr = Reverse.get_read_ptr;
  get_read_off = Reverse.get_read_off;
  read = Reverse.read;
  free = Reverse.free;
}
