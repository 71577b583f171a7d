-- ===== src/Ring/Magic/Link/Trace.antt =====
-- The running totals behind a link: what the positions of both ends mean, and that every step
-- keeps it so.
use native.Mathlib.Nat.{add_assoc, add-zero}
use know_your_memory.Common.{
  ℕ, ◌+◌, ◌-◌, ◌%◌, ◌≤◌, ◌<◌, ◌≡◌, inl, inr, ltb, if◌then◌else◌, List, [], ◌∷◌, ◌++◌, map, arith,
}
use know_your_memory.Common.Modular.{gap}
use know_your_memory.Ring.Log.{Slot, total}
use know_your_memory.Ring.Magic.Remote.{IsValid, used}
use know_your_memory.Ring.Magic.Local.{Holds}
use know_your_memory.Ring.Magic.Link.{Link, Message}

-- The bytes acknowledged so far, the totals of the heads on their way, the bytes freed, and the
-- regions that the receiver has in use.
pub record Trace : Type 0 where
  pub acked : ℕ
  pub posted : List ℕ
  pub freed : ℕ
  pub slots : List Slot

abbrev pub carried : List Message → ℕ
carried [] = 0
carried (m ∷ ms) = m.len + carried ms

abbrev pub Ascends : ℕ → List ℕ → ℕ → Type 0
Ascends lo [] hi = lo ≤ hi
Ascends lo (x ∷ xs) hi = (lo ≤ x) × Ascends x xs hi

-- The messages lie one after the other from the total `p` on.
abbrev pub Placed : ℕ → ℕ → ℕ → List Message → Type 0
Placed base L p [] = Unit {0}
Placed base L p (m ∷ ms) = (m.at ≡ base + p % L) × (0 < m.len) × Placed base L (p + m.len) ms

abbrev pub read_total : Trace → ℕ
read_total t = t.freed + total t.slots

abbrev pub written : Link → Trace → ℕ
written k t = read_total t + carried k.wire

pub record Inv (k : Link) (t : Trace) : Type 0 where
  pub same_length : k.remote.length ≡ k.local.length
  pub same_addr : k.remote.addr ≡ k.local.addr
  pub valid : IsValid k.remote
  pub holds : Holds k.local t.freed t.slots
  pub at_head : k.remote.head ≡ t.acked % k.local.length
  pub at_tail : k.remote.tail ≡ written k t % k.local.length
  pub in_use : written k t ≡ t.acked + used k.remote
  pub acks_at : k.acks ≡ map (λ x. x % k.local.length) t.posted
  pub ascends : Ascends t.acked t.posted t.freed
  pub placed : Placed k.local.addr k.local.length (read_total t) k.wire

pub Ascends-le : (lo hi : ℕ) (xs : List ℕ) → Ascends lo xs hi → lo ≤ hi
Ascends-le lo hi [] h = h
Ascends-le lo hi (x ∷ xs) h = omega (arith, h.0, Ascends-le x hi xs h.1)

pub Ascends-mono : (lo hi hi' : ℕ) (xs : List ℕ) → hi ≤ hi' → Ascends lo xs hi → Ascends lo xs hi'
Ascends-mono lo hi hi' [] le h = omega arith
Ascends-mono lo hi hi' (x ∷ xs) le h = (h.0, Ascends-mono x hi hi' xs le h.1)

pub Ascends-append : (lo hi : ℕ) (xs : List ℕ) → Ascends lo xs hi → Ascends lo (xs ++ hi ∷ []) hi
Ascends-append lo hi [] h = (h, omega arith)
Ascends-append lo hi (x ∷ xs) h = (h.0, Ascends-append x hi xs h.1)

pub carried-append : (ms : List Message) (m : Message) → carried (ms ++ m ∷ []) ≡ carried ms + m.len
carried-append [] m = omega arith
carried-append (x ∷ ms) m = omega (arith, carried-append ms m)

pub Placed-append :
    (base L p : ℕ) (ms : List Message) (m : Message)
    → m.at ≡ base + (p + carried ms) % L
    → 0 < m.len
    → Placed base L p ms
    → Placed base L p (ms ++ m ∷ [])
Placed-append base L p [] m e pos h = (rw (← add-zero p) e, pos, tt)
Placed-append base L p (x ∷ ms) m e pos h = (
  h.0,
  h.1,
  Placed-append base L (p + x.len) ms m (rw (add_assoc p x.len (carried ms)) e) pos h.2,
)

-- Where the head stands after `d` more bytes.
pub position-add :
    (a d L : ℕ)
    → 0 < L
    → d ≤ L
    → (a + d) % L ≡ (if ltb (a % L + d) L then a % L + d else a % L + d - L)
position-add a d L pos h = elim (gap a d L pos h) [
  | inl (e, lt) ↦ ground arith
  | inr (e, ge) ↦ ground arith
]
