-- ===== src/Ring/Magic.antt =====
-- src/ring_buffer/ring_buffer.cpp: `MagicRingBuffer` and `MagicRemoteBuffer`. The buffer is mapped
-- twice in a row, so a region may run over the end.
pub mod Remote
pub mod Local
pub mod Setup
pub mod Link
use know_your_memory.Common.{
  ℕ, ◌/◌, ◌%◌, ltb, leb, ◌==◌, if◌then◌else◌, false, ◌&&◌, Option, [], ◌∷◌, ◌++◌,
}
use know_your_memory.Common.Words.{add32, sub32, add64, to_u32, low32, high32, join32}
use know_your_memory.Error.{StatusOr, value, status, failure, unknown, text}
use know_your_memory.Ring.Types.{Buffer, RemoteBuffer, BufferContext, free_region}

-- `MagicRingBuffer(mr)`: `mr->addr`, `mr->length` and `mr->lkey`.
unfoldable pub new_ring : ℕ → ℕ → ℕ → Buffer
new_ring mr_addr mr_length mr_lkey = record {
  addr = mr_addr;
  lkey = mr_lkey;
  head = 0;
  outstanding = [];
  read_ptr = 0;
  length = to_u32 (mr_length / 2);
}

-- `MagicRingBuffer::Read`. A ring of length 0 traps at `%` in the source.
unfoldable pub read : Buffer → ℕ → ℕ × Buffer
read b len = (
  add64 b.addr b.read_ptr,
  record b {
    read_ptr = add32 b.read_ptr len % b.length;
    outstanding = b.outstanding ++ b.read_ptr ∷ [];
  },
)

unfoldable pub get_read_ptr : Buffer → ℕ
get_read_ptr b = add64 b.addr b.read_ptr

unfoldable pub get_read_off : Buffer → ℕ
get_read_off b = b.read_ptr

-- `MagicRingBuffer::Free`
unfoldable pub free : Buffer → ℕ → Option (ℕ × Buffer)
unfolding free_region
free b at = free_region b at

-- `MagicRingBuffer::GetContext`
unfoldable pub get_context : Buffer → BufferContext
get_context b = record {
  data0 = low32 b.addr;
  data1 = high32 b.addr;
  data2 = b.lkey;
  data3 = b.length;
}

-- `MagicRemoteBuffer(ctx)`
unfoldable pub new_remote : BufferContext → RemoteBuffer
new_remote ctx = record {
  addr = join32 ctx.data0 ctx.data1;
  length = ctx.data3;
  key = ctx.data2;
  head = 0;
  tail = 0;
  full = false;
}

unfoldable pub update_head : RemoteBuffer → ℕ → RemoteBuffer
update_head r h = record r { head = h; full = false }

unfoldable pub get_key : RemoteBuffer → ℕ
get_key r = r.key

unfoldable pub get_tail : RemoteBuffer → ℕ
get_tail r = r.tail

-- `MagicRemoteBuffer::GetWriteAddr`
unfoldable pub get_write_addr : RemoteBuffer → ℕ → StatusOr ℕ
get_write_addr r len =
    if r.head == r.tail && r.full
    then status (failure unknown (text "buffer is full" ∷ []))
    else if r.head == r.tail && ltb r.length len
    then status (failure unknown (text "message larger then buffer" ∷ []))
    else if ltb r.head r.tail && leb (add32 (sub32 r.length r.tail) r.head) len
    then status (failure unknown (text "not enough free space for message" ∷ []))
    else if ltb r.tail r.head && leb (sub32 r.head r.tail) len
    then status (failure unknown (text "not enough free space for message" ∷ []))
    else value (add64 r.addr r.tail)

-- `MagicRemoteBuffer::GetNextTail`
unfoldable pub get_next_tail : RemoteBuffer → ℕ → StatusOr ℕ
get_next_tail r len = elim (get_write_addr r len) [
  | value a ↦ value (add32 r.tail len % r.length)
  | status s ↦ status s
]

-- The fields that a write changes.
abbrev pub advance : RemoteBuffer → ℕ → RemoteBuffer
advance r len =
    let tail' = add32 r.tail len % r.length in record r { tail = tail'; full = tail' == r.head }

-- `MagicRemoteBuffer::Write`
unfoldable pub write : RemoteBuffer → ℕ → StatusOr ℕ × RemoteBuffer
write r len = elim (get_write_addr r len) [
  | value a ↦ (value a, advance r len)
  | status s ↦ (status s, r)
]
