-- ===== src/Ring/Reverse.antt =====
-- src/ring_buffer/reverse_buffer.cpp: a magic ring that is filled from the end downwards, so that the
-- last byte of a message has an address that is known before its length.
pub mod Remote
use know_your_memory.Common.{
  ℕ, ◌+◌, ◌-◌, ◌*◌, ◌/◌, ◌%◌, ltb, leb, ◌==◌, if◌then◌else◌, Bool, true, false, ◌&&◌, Option, List,
  [], ◌∷◌, ◌++◌,
}
use know_your_memory.Common.Words.{add32, sub32, add64, to_u32, low32, high32, join32}
use know_your_memory.Error.{Status, StatusOr, value, status, failure, unknown, text}
use know_your_memory.Ring.Types.{Buffer, RemoteBuffer, BufferContext, free_region}

-- `ReverseRingBuffer(mr)`
unfoldable pub new_ring : ℕ → ℕ → ℕ → Buffer
new_ring mr_addr mr_length mr_lkey = record {
  addr = mr_addr;
  lkey = mr_lkey;
  head = 0;
  outstanding = [];
  read_ptr = 0;
  length = to_u32 (mr_length / 2);
}

-- `ReverseRingBuffer::Read`
unfoldable pub read : Buffer → ℕ → ℕ × Buffer
read b len =
    let off =
      if ltb len b.read_ptr then sub32 b.read_ptr len else sub32 (add32 b.length b.read_ptr) len in
    (add64 b.addr off, record b { read_ptr = off; outstanding = b.outstanding ++ off ∷ [] })

unfoldable pub get_read_off : Buffer → ℕ
get_read_off b = if ltb 0 b.read_ptr then sub32 b.read_ptr 1 else sub32 b.length 1

unfoldable pub get_read_ptr : Buffer → ℕ
unfolding get_read_off
get_read_ptr b = add64 b.addr (get_read_off b)

-- `ReverseRingBuffer::Free`
unfoldable pub free : Buffer → ℕ → Option (ℕ × Buffer)
unfolding free_region
free b at = free_region b at

-- `ReverseRingBuffer::GetContext`
unfoldable pub get_context : Buffer → BufferContext
get_context b = record {
  data0 = low32 b.addr;
  data1 = high32 b.addr;
  data2 = b.lkey;
  data3 = b.length;
}

-- `ReverseRemoteBuffer(ctx)`
unfoldable pub new_remote : BufferContext → RemoteBuffer
new_remote ctx = record {
  addr = join32 ctx.data0 ctx.data1;
  length = ctx.data3;
  key = ctx.data2;
  head = 0;
  tail = 0;
  full = false;
}

unfoldable pub update_head : RemoteBuffer → ℕ → RemoteBuffer
update_head r h = record r { head = h; full = false }

unfoldable pub get_key : RemoteBuffer → ℕ
get_key r = r.key

unfoldable pub get_tail : RemoteBuffer → ℕ
get_tail r = r.tail

-- `ReverseRemoteBuffer::GetNextTail`
unfoldable pub get_next_tail : RemoteBuffer → ℕ → StatusOr ℕ
get_next_tail r len =
    if r.head == r.tail && r.full
    then status (failure unknown (text "buffer is full" ∷ []))
    else if r.head == r.tail && ltb r.length len
    then status (failure unknown (text "message larger then buffer" ∷ []))
    else if ltb r.tail r.head && leb (add32 (sub32 r.length r.head) r.tail) len
    then status (failure unknown (text "not enough free space for message" ∷ []))
    else if ltb r.head r.tail && leb (sub32 r.tail r.head) len
    then status (failure unknown (text "not enough free space for message" ∷ []))
    else value (if ltb len r.tail then sub32 r.tail len else sub32 (add32 r.tail r.length) len)

-- `ReverseRemoteBuffer::GetWriteAddr`
unfoldable pub get_write_addr : RemoteBuffer → ℕ → StatusOr ℕ
unfolding get_next_tail
get_write_addr r len = elim (get_next_tail r len) [
  | value t ↦ value (add64 r.addr t)
  | status s ↦ status s
]

-- `ReverseRemoteBuffer::Write`
unfoldable pub write : RemoteBuffer → ℕ → StatusOr ℕ × RemoteBuffer
unfolding get_next_tail
write r len = elim (get_next_tail r len) [
  | value t ↦ (value (add64 r.addr t), record r { tail = t; full = t == r.head })
  | status s ↦ (status s, r)
]
