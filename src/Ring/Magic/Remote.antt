-- ===== src/Ring/Magic/Remote.antt =====
-- The sender's view of a magic ring: which lengths it accepts, and what a write and a new head do.
use know_your_memory.Common.{
  ℕ, ◌+◌, ◌-◌, ◌*◌, ◌^◌, ◌≤◌, ◌<◌, ◌≡◌, ◌≢◌, ◌⊎◌, ◌↔◌, refl, ltb, ◌==◌, if◌then◌else◌, true, arith,
}
use know_your_memory.Common.Modular.{mod-wrap}
use native.Mathlib.Nat.{mod-eq_of_lt}
use know_your_memory.Common.Words.{two64}
use know_your_memory.Error.{Status, StatusOr, value, status}
use know_your_memory.Ring.Types.{RemoteBuffer}
use know_your_memory.Ring.Magic.{update_head, get_write_addr, get_next_tail, write, advance}

pub record IsValid (r : RemoteBuffer) : Type 0 where
  pub some_room : 0 < r.length
  pub small : r.length ≤ 2 ^ 31
  pub head_in : r.head < r.length
  pub tail_in : r.tail < r.length
  pub marked : r.full ≡ true → r.head ≡ r.tail
  pub mapped : r.addr + r.length * 2 ≤ two64

-- The bytes from the head to the tail.
abbrev pub used : RemoteBuffer → ℕ
used r =
    if r.head == r.tail
    then (if r.full then r.length else 0)
    else if ltb r.head r.tail
    then r.tail - r.head
    else r.length + r.tail - r.head

-- A message fits an empty ring if it is no longer than the ring; else it must leave a byte free.
abbrev pub Fits : RemoteBuffer → ℕ → Type 0
Fits r len = ((used r ≡ 0) × (len ≤ r.length)) ⊎ ((used r ≢ 0) × (used r + len < r.length))

get_write_addr-Fits :
    (r : RemoteBuffer) (len : ℕ)
    → IsValid r
    → get_write_addr r len ≡ value (r.addr + r.tail)
    → Fits r len
unfolding get_write_addr
get_write_addr-Fits r len v e = ground arith

Fits-get_write_addr :
    (r : RemoteBuffer) (len : ℕ)
    → IsValid r
    → Fits r len
    → get_write_addr r len ≡ value (r.addr + r.tail)
unfolding get_write_addr
Fits-get_write_addr r len v e = ground arith

-- On a valid ring, whatever the length, the answer is the address of the tail exactly when the
-- message fits, and an error only when it does not.
pub get_write_addr_iff :
    (r : RemoteBuffer) (len : ℕ)
    → IsValid r
    → ((get_write_addr r len ≡ value (r.addr + r.tail)) ↔ Fits r len)
      × ((s : Status) → get_write_addr r len ≡ status s → ¬ Fits r len)
unfolding get_write_addr
get_write_addr_iff r len v = (
  (get_write_addr-Fits r len v, Fits-get_write_addr r len v),
  λ s e f. let h = Fits-get_write_addr r len v f in ground arith,
)

-- An answer is the address of the tail.
pub get_write_addr-eq :
    (r : RemoteBuffer) (len a : ℕ)
    → IsValid r
    → get_write_addr r len ≡ value a
    → a ≡ r.addr + r.tail
unfolding get_write_addr
get_write_addr-eq r len a v e = ground arith

-- The new tail, without the remainder.
pub advance-tail :
    (r : RemoteBuffer) (len : ℕ)
    → IsValid r
    → len ≤ r.length
    → (advance r len).tail
      ≡ (if ltb (r.tail + len) r.length then r.tail + len else r.tail + len - r.length)
advance-tail r len v h =
    ground (arith, mod-eq_of_lt {n = r.tail + len} {m = r.length}, mod-wrap (r.tail + len) r.length)

pub used-advance :
    (r : RemoteBuffer) (len : ℕ)
    → IsValid r
    → 0 < len
    → Fits r len
    → used (advance r len) ≡ used r + len
used-advance r len v pos f = ground (arith, advance-tail r len v)

pub advance-IsValid :
    (r : RemoteBuffer) (len : ℕ) → IsValid r → len ≤ r.length → IsValid (advance r len)
advance-IsValid r len v h = ground (arith, advance-tail r len v)

pub Fits-le : (r : RemoteBuffer) (len : ℕ) → IsValid r → Fits r len → len ≤ r.length
Fits-le r len v f = ground arith

-- A write of a message that fits answers with the address of the old tail, keeps the ring valid,
-- adds the message's bytes to those in use and leaves the head; its region lies inside the double
-- mapping. A write of a message that does not fit changes nothing and answers with an error.
pub write_lem :
    (r : RemoteBuffer) (len : ℕ)
    → IsValid r
    → 0 < len
    → let (res, r') = write r len in
      (Fits r len
        → (res ≡ value (r.addr + r.tail))
          × IsValid r'
          × (used r' ≡ used r + len)
          × (r'.head ≡ r.head)
          × (r.tail + len ≤ r.length * 2))
      × (¬ Fits r len → (r' ≡ r) × ((s : Status) × (res ≡ status s)))
unfolding write
write_lem r len v pos = (fits, refuses (get_write_addr r len) refl)
  where
    fits :
        Fits r len
        → ((write r len).0 ≡ value (r.addr + r.tail))
          × IsValid (write r len).1
          × (used (write r len).1 ≡ used r + len)
          × ((write r len).1.head ≡ r.head)
          × (r.tail + len ≤ r.length * 2)
    fits f =
        rw (Fits-get_write_addr r len v f, write)
          (
            refl,
            advance-IsValid r len v (Fits-le r len v f),
            used-advance r len v pos f,
            refl,
            omega (arith, Fits-le r len v f),
          )

    refuses :
        (o : StatusOr ℕ)
        → get_write_addr r len ≡ o
        → ¬ Fits r len
        → ((write r len).1 ≡ r) × ((s : Status) × ((write r len).0 ≡ status s))
    refuses (value a) e n =
        absurd (n (get_write_addr-Fits r len v (rw (e) (rw (get_write_addr-eq r len a v e) refl))))
    refuses (status s) e n = rw (e, write) (refl, (s, refl))

-- `GetNextTail` answers with the tail that a write of the same length leaves.
pub get_next_tail-write :
    (r : RemoteBuffer) (len t : ℕ) → get_next_tail r len ≡ value t → (write r len).1.tail ≡ t
unfolding get_next_tail write
get_next_tail-write r len t e = ground arith

-- A new head that lies `d` bytes behind the old one gives these bytes back, and keeps the ring
-- valid: unless the ring is full and nothing was freed.
pub update_head_lem :
    (r : RemoteBuffer) (d h : ℕ)
    → IsValid r
    → d ≤ used r
    → (r.full ≡ true → 0 < d)
    → h ≡ (if ltb (r.head + d) r.length then r.head + d else r.head + d - r.length)
    → IsValid (update_head r h) × (used (update_head r h) + d ≡ used r)
unfolding update_head
update_head_lem r d h v le pos e = ground arith

-- A full valid ring that is told its old head once more takes itself to be empty: it accepts a
-- message of any length up to that of the ring, at its head.
pub update_head_full :
    (r : RemoteBuffer) (len : ℕ)
    → IsValid r
    → r.full ≡ true
    → len ≤ r.length
    → (used r ≡ r.length)
      × (used (update_head r r.head) ≡ 0)
      × (get_write_addr (update_head r r.head) len ≡ value (r.addr + r.head))
unfolding update_head get_write_addr
update_head_full r len v full h = ground arith

-- What a successful write says.
pub write-eq :
    (r r' : RemoteBuffer) (len a : ℕ)
    → IsValid r
    → write r len ≡ (value a, r')
    → Fits r len × (a ≡ r.addr + r.tail) × (r' ≡ advance r len)
unfolding write get_write_addr
write-eq r r' len a v e = ground arith

pub used-le : (r : RemoteBuffer) → IsValid r → used r ≤ r.length
used-le r v = ground arith

pub Fits-used : (r : RemoteBuffer) (len : ℕ) → IsValid r → Fits r len → used r + len ≤ r.length
Fits-used r len v f = ground arith
