-- ===== src/Ring/Magic/Link/Safety.antt =====
-- What holds in every state that a link of a magic ring can reach.
use native.Mathlib.Nat.{mod-eq_of_lt}
use know_your_memory.Common.{
  ℕ, ◌+◌, ◌-◌, ◌/◌, ◌%◌, ◌≤◌, ◌<◌, ◌≡◌, ◌≢◌, refl, sym, ap, ◌∙◌, List, [], ◌∷◌, arith,
}
use know_your_memory.Common.Words.{two64, two32, join32-split, to_u32}
use know_your_memory.Common.Modular.{gap-ne, mod-advance}
use know_your_memory.Error.{value}
use know_your_memory.Ring.Types.{RemoteBuffer}
use know_your_memory.Ring.Magic.{read, write}
use know_your_memory.Ring.Magic.Remote.{Fits, write-eq, Fits-used}
use know_your_memory.Ring.Magic.Link.{Link, Message, Reach, here, next, init}
use know_your_memory.Ring.Magic.Link.Trace.{Trace, Inv, written, Ascends-le}
use know_your_memory.Ring.Magic.Link.Flow.{receive-Inv}
use know_your_memory.Ring.Magic.Link.Keeps.{Step-Inv}

abbrev pub start : Trace
start = record { acked = 0; posted = []; freed = 0; slots = [] }

-- What a memory region for a ring has to satisfy: it holds two cells at least, its length is a
-- 32-bit number or 2 ^ 32, and it ends in the address space.
pub record IsRegion (mr_addr mr_length : ℕ) : Type 0 where
  pub two_cells : 2 ≤ mr_length
  pub small : mr_length ≤ two32
  pub mapped : mr_addr + mr_length ≤ two64

init-Inv : (a l key : ℕ) → IsRegion a l → Inv (init a l key) start
unfolding init
init-Inv a l key v = record {
  same_length = refl;
  same_addr = join32-split a;
  valid = omega (arith, v, join32-split a);
  holds = record {
    some_room = omega (arith, v);
    small = omega (arith, v);
    mapped = omega (arith, v);
    at_head = at_zero;
    regions = refl;
    at_end = at_zero;
    room = omega arith;
    positive = tt;
    front = tt;
  };
  at_head = at_zero;
  at_tail = at_zero;
  in_use = refl;
  acks_at = refl;
  ascends = omega arith;
  placed = tt;
}
  where
    at_zero : 0 ≡ 0 % to_u32 (l / 2)
    at_zero = sym (mod-eq_of_lt {n = 0} {m = to_u32 (l / 2)} (omega (arith, v)))

-- The state of a link that was set up for such a region has totals that both ends agree with, after
-- any interleaving of steps.
pub Reach-Inv :
    (a l key : ℕ) (k : Link) → IsRegion a l → Reach (init a l key) k → (t : Trace) × Inv k t
Reach-Inv a l key k v here = (start, init-Inv a l key v)
Reach-Inv a l key k v (next {l = m} r st) =
    let (t, inv) = Reach-Inv a l key m v r in Step-Inv st inv

-- Messages are delivered in order and where they were written: in every state that a link can
-- reach, where a full ring does not take its old head again, the address that the next read
-- returns is the one that the write of the oldest message on its way returned.
pub delivery :
    (a l key : ℕ) (k : Link) (m : Message) (rest : List Message)
    → IsRegion a l
    → Reach (init a l key) k
    → k.wire ≡ m ∷ rest
    → (read k.local m.len).0 ≡ m.at
delivery a l key k m rest v r e =
    let (t, inv) = Reach-Inv a l key k v r in (receive-Inv inv m rest e).0

-- The cells of the bytes that are on their way or in use at the receiver.
abbrev pub InUse : Link → Trace → ℕ → Type 0
InUse k t x = (t.freed ≤ x) × (x < written k t)

write_apart :
    (k : Link) (t : Trace) (len at : ℕ) (r : RemoteBuffer)
    → Inv k t
    → write k.remote len ≡ (value at, r)
    → (x j : ℕ) → InUse k t x
    → j < len
    → (k.remote.tail + j) % k.remote.length ≢ x % k.remote.length
write_apart k t len at r inv e x j u lt same =
    gap-ne x (written k t + j - x) k.local.length (omega (arith, u)) (omega (arith, near))
      (ap (λ y. y % k.local.length) back ∙ at_tail)
  where
    fits : Fits k.remote len
    fits = (write-eq k.remote r len at inv.valid e).0

    near : written k t + j < x + k.local.length
    near = omega (
      arith,
      inv.in_use,
      inv.same_length,
      u,
      Ascends-le t.acked t.freed t.posted inv.ascends,
      Fits-used k.remote len inv.valid fits,
    )

    back : x + (written k t + j - x) ≡ written k t + j
    back = omega (arith, u)

    at_tail : (written k t + j) % k.local.length ≡ x % k.local.length
    at_tail =
        sym (mod-advance (written k t) j k.local.length)
        ∙ (rw (inv.at_tail, inv.same_length) at same)

-- In every state that a link can reach from the setup of a ring of at most 2^31 bytes that is
-- mapped inside the address space, where a full ring does not take its old head again, a write
-- that succeeds stays clear of all bytes that are on their way or in use at the receiver: there
-- are totals that both ends agree with, and no cell of the new message is the cell of such a byte.
pub no_overwrite :
    (a l key : ℕ) (k : Link) (len at : ℕ) (r : RemoteBuffer)
    → IsRegion a l
    → Reach (init a l key) k
    → write k.remote len ≡ (value at, r)
    → (t : Trace) × Inv k t
      × ((x j : ℕ)
          → InUse k t x
          → j < len
          → (k.remote.tail + j) % k.remote.length ≢ x % k.remote.length)
no_overwrite a l key k len at r v reached e =
    let (t, inv) = Reach-Inv a l key k v reached in (t, inv, write_apart k t len at r inv e)
