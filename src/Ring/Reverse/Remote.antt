-- ===== src/Ring/Reverse/Remote.antt =====
-- The sender's view of a reverse ring, and that both ends walk down in step.
use know_your_memory.Common.{
  ℕ, ◌+◌, ◌-◌, ◌*◌, ◌^◌, ◌≤◌, ◌<◌, ◌≡◌, ◌≢◌, ◌⊎◌, ltb, ◌==◌, if◌then◌else◌, true, false, arith,
}
use know_your_memory.Common.Words.{two64}
use know_your_memory.Error.{Status, value, status}
use know_your_memory.Ring.Types.{Buffer, RemoteBuffer}
use know_your_memory.Ring.Reverse.{read, get_read_off, update_head, get_next_tail, write}

-- Positions run from 0 to the length, and both ends stand for the same cell. Only a ring that no
-- message has left so far has its tail at 0.
pub record IsValid (r : RemoteBuffer) : Type 0 where
  pub some_room : 0 < r.length
  pub small : r.length < 2 ^ 31
  pub head_in : r.head ≤ r.length
  pub tail_in : r.tail ≤ r.length
  pub origin : r.tail ≡ 0 → r.head ≡ 0
  pub marked : r.full ≡ true → r.head ≡ r.tail
  pub mapped : r.addr + r.length * 2 < two64

-- The bytes from the tail up to the head.
abbrev pub used : RemoteBuffer → ℕ
used r =
    if r.head == r.tail
    then (if r.full then r.length else 0)
    else if ltb r.tail r.head
    then r.head - r.tail
    else r.length + r.head - r.tail

-- A message fits a ring whose ends meet if it is no longer than the ring and the ring is not full;
-- else it must leave a byte free.
abbrev pub Fits : RemoteBuffer → ℕ → Type 0
Fits r len =
    ((r.head ≡ r.tail) × (r.full ≡ false) × (len ≤ r.length))
    ⊎ ((r.head ≢ r.tail) × (used r + len < r.length))

-- `len` bytes further down from the position `p`.
abbrev pub down : ℕ → ℕ → ℕ → ℕ
down L p len = if ltb len p then p - len else p + L - len

pub get_next_tail-Fits :
    (r : RemoteBuffer) (len t : ℕ) → IsValid r → get_next_tail r len ≡ value t → Fits r len
unfolding get_next_tail
get_next_tail-Fits r len t v e = ground arith

pub Fits-get_next_tail :
    (r : RemoteBuffer) (len : ℕ)
    → IsValid r
    → Fits r len
    → get_next_tail r len ≡ value (down r.length r.tail len)
unfolding get_next_tail
Fits-get_next_tail r len v f = ground arith

-- A write to a valid ring of a message that is not empty and fits answers with the address of the
-- new tail, where the message begins; it keeps the ring valid, adds the message's bytes to those
-- in use, leaves the head, and its region ends inside the double mapping.
pub write_down_lem :
    (r : RemoteBuffer) (len : ℕ)
    → IsValid r
    → 0 < len
    → Fits r len
    → let (res, r') = write r len in
      (res ≡ value (r.addr + r'.tail))
      × IsValid r'
      × (r'.tail ≡ down r.length r.tail len)
      × (used r' ≡ used r + len)
      × (r'.head ≡ r.head)
      × (r'.tail + len ≤ r.length * 2)
unfolding write
write_down_lem r len v pos f = rw (Fits-get_next_tail r len v f, write) (ground arith)

-- A write to a valid ring that answers with an error does not fit, and changes nothing.
pub write_refused :
    (r : RemoteBuffer) (len : ℕ) (s : Status)
    → IsValid r
    → (write r len).0 ≡ status s
    → (¬ Fits r len) × ((write r len).1 ≡ r)
unfolding write get_next_tail
write_refused r len s v e =
    (λ f. let h = Fits-get_next_tail r len v f in ground arith, ground arith)

-- A head that moved down by `d` of the bytes in use gives these back. A full ring holds one message.
pub update_head_down_lem :
    (r : RemoteBuffer) (d : ℕ)
    → IsValid r
    → 0 < d
    → d ≤ used r
    → (r.full ≡ true → d ≡ used r)
    → let r' = update_head r (down r.length r.head d) in IsValid r' × (used r' + d ≡ used r)
unfolding update_head
update_head_down_lem r d v pos le whole = ground arith

-- A receiver that stands where the sender's tail was reads the message where it was written, and
-- ends up at the sender's new tail.
pub read-write :
    (r : RemoteBuffer) (b : Buffer) (len a : ℕ)
    → IsValid r
    → b.addr ≡ r.addr
    → b.length ≡ r.length
    → b.read_ptr ≡ r.tail
    → (write r len).0 ≡ value a
    → ((read b len).0 ≡ a) × ((read b len).1.read_ptr ≡ (write r len).1.tail)
unfolding read write get_next_tail
read-write r b len a v ea el ep e = ground arith

-- In a ring of less than 2^31 bytes the cell that `GetReadOff` names before a read of a message,
-- not empty and no longer than the ring, holds the last byte of what the read returns, in the
-- first copy of the buffer or in its mirror.
pub read-get_read_off :
    (b : Buffer) (len : ℕ)
    → 0 < b.length
    → b.length < 2 ^ 31
    → b.read_ptr ≤ b.length
    → 0 < len
    → len ≤ b.length
    → let last = (read b len).1.read_ptr + len - 1 in
      (last ≡ get_read_off b) ⊎ (last ≡ get_read_off b + b.length)
unfolding read get_read_off
read-get_read_off b len some_room small at pos fits = ground arith
