-- ===== src/Ring/Basic.antt =====
-- src/ring_buffer/ring_buffer.cpp: `BasicRingBuffer` and `BasicRemoteBuffer`, which jump to the front
-- of the buffer where a message does not fit behind the tail.
use know_your_memory.Common.{
  ℕ, ◌+◌, ◌^◌, ◌≤◌, ◌<◌, ◌≡◌, ltb, leb, ◌==◌, if◌then◌else◌, false, ◌&&◌, Option, [], ◌∷◌, ◌++◌,
  arith,
}
use know_your_memory.Common.Words.{add32, sub32, add64, sub64, to_u32, two64}
use know_your_memory.Error.{
  Status, StatusOr, value, status, failure, success, unknown, not_implemented, text,
}
use know_your_memory.Ring.Types.{Buffer, RemoteBuffer, BufferContext, free_region}

-- `BasicRingBuffer::add`
unfoldable pub add : Buffer → ℕ → ℕ → ℕ
add b offset len = if leb (add32 offset len) b.length then add32 offset len else len

-- `BasicRingBuffer::Read`
unfoldable pub read : Buffer → ℕ → ℕ × Buffer
unfolding add
read b len =
    let off = if leb (add32 b.read_ptr len) b.length then b.read_ptr else 0 in
    (
      add64 b.addr off,
      record b { read_ptr = add b b.read_ptr len; outstanding = b.outstanding ++ off ∷ [] },
    )

unfoldable pub get_read_ptr : Buffer → ℕ
get_read_ptr b = add64 b.addr b.read_ptr

unfoldable pub get_read_off : Buffer → ℕ
get_read_off b = b.read_ptr

-- `BasicRingBuffer::Free`
unfoldable pub free : Buffer → ℕ → Option (ℕ × Buffer)
unfolding free_region
free b at = free_region b at

-- `BasicRingBuffer::GetContext`: `BufferContext{0}`
unfoldable pub get_context : Buffer → BufferContext
get_context b = record { data0 = 0; data1 = 0; data2 = 0; data3 = 0 }

-- `BasicRingBuffer::Close`: the status built from a failing `ibv_dereg_mr` is dropped.
unfoldable pub close : ℕ → Status
close ret = success

unfoldable pub update_head : RemoteBuffer → ℕ → RemoteBuffer
update_head r h = record r { head = h }

unfoldable pub get_key : RemoteBuffer → ℕ
get_key r = r.key

unfoldable pub get_tail : RemoteBuffer → ℕ
get_tail r = r.tail

-- `BasicRemoteBuffer::GetWriteAddr`
unfoldable pub get_write_addr : RemoteBuffer → ℕ → StatusOr ℕ
get_write_addr r len =
    if r.head == r.tail && r.full
    then status (failure unknown (text "buffer is full" ∷ []))
    else if r.head == r.tail && ltb r.length len
    then status (failure unknown (text "message larger then buffer" ∷ []))
    else if ltb r.head r.tail && ltb r.length (add32 r.tail len) && ltb r.head len
    then status (failure unknown (text "not enough free space for message" ∷ []))
    else if ltb r.tail r.head && ltb (sub32 r.head r.tail) len
    then status (failure unknown (text "not enough free space for message" ∷ []))
    else value (add64 r.addr (if leb (add32 r.tail len) r.length then r.tail else 0))

unfoldable pub get_next_tail : RemoteBuffer → ℕ → StatusOr ℕ
get_next_tail r len = status (failure not_implemented [])

-- `BasicRemoteBuffer::Write`: the new tail is the offset that was written to.
unfoldable pub write : RemoteBuffer → ℕ → StatusOr ℕ × RemoteBuffer
write r len = elim (get_write_addr r len) [
  | value a ↦ (value a, record r { tail = to_u32 (sub64 a r.addr); full = false })
  | status s ↦ (status s, r)
]

-- In a mapped ring of less than 2^31 bytes, what the receiver reads, if it is not empty and no
-- longer than the ring, lies in one piece inside the buffer, and the next read starts behind it.
pub read_contiguous :
    (b : Buffer) (len : ℕ)
    → b.length < 2 ^ 31
    → b.read_ptr ≤ b.length
    → b.addr + b.length ≤ two64
    → len ≤ b.length
    → 0 < len
    → let (at, b') = read b len in
      (b.addr ≤ at) × (at + len ≤ b.addr + b.length) × (b.addr + b'.read_ptr ≡ at + len)
unfolding read
read_contiguous b len small at mapped fits pos = ground arith

write-eq :
    (r r' : RemoteBuffer) (len a : ℕ)
    → r.length ≤ 2 ^ 31
    → r.addr + r.length < two64
    → r.tail + len ≤ r.length
    → write r len ≡ (value a, r')
    → (a ≡ r.addr + r.tail) × (r' ≡ record r { full = false })
unfolding write get_write_addr
write-eq r r' len a small mapped fits e = ground arith

write_again :
    (r r' : RemoteBuffer) (len a : ℕ)
    → r.length ≤ 2 ^ 31
    → r.addr + r.length < two64
    → r.tail + len ≤ r.length
    → write r len ≡ (value a, r')
    → write (record r { full = false }) len ≡ (value a, record r { full = false })
unfolding write get_write_addr
write_again r r' len a small mapped fits e = ground arith

-- The sender never moves on: after a write to a mapped ring of at most 2^31 bytes that did not
-- have to jump to the front, a write of the same length goes to the same address and leaves the
-- same state, tail included.
pub write-write :
    (r r' : RemoteBuffer) (len a : ℕ)
    → r.length ≤ 2 ^ 31
    → r.addr + r.length < two64
    → r.tail + len ≤ r.length
    → write r len ≡ (value a, r')
    → (write r' len ≡ (value a, r')) × (r'.tail ≡ r.tail)
write-write r r' len a small mapped fits e =
    let same = (write-eq r r' len a small mapped fits e).1 in
    (rw same (write_again r r' len a small mapped fits e), rw same)
