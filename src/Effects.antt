-- ===== src/Effects.antt =====
-- Runs of code that changes a state: a result, an early return with a status, or the end of the
-- program by `assert`, by a null pointer or by a division by zero.
use know_your_memory.Common.{Bool, true, false, ◌≡◌, refl, if◌then◌else◌}
use know_your_memory.Error.{Status}

abbrev pub ⊤ : Type 0
⊤ = Unit

pub data Outcome (A : Type 0) : Type 0 where
  returns : A → Outcome A
  fails : Status → Outcome A
  aborts : Outcome A

abbrev pub Run : Type 0 → Type 0 → Type 0
Run S A = S → Outcome A × S

module _ {S A : Type 0} where
  abbrev pub pure : A → Run S A
  pure a w = (returns a, w)

  abbrev pub raise : Status → Run S A
  raise s w = (fails s, w)

  abbrev pub gets : (S → A) → Run S A
  gets f w = (returns (f w), w)

  -- The rest of a run, after its first part.
  abbrev pub continue : {B : Type 0} → (A → Run S B) → Outcome A × S → Outcome B × S
  continue k (returns a, w) = k a w
  continue k (fails s, w) = (fails s, w)
  continue k (aborts, w) = (aborts, w)

infixl 5 ◌>>=◌ ◌>>◌
abbrev pub ◌>>=◌ : {S A B : Type 0} → Run S A → (A → Run S B) → Run S B
◌>>=◌ m k w = continue k (m w)

abbrev pub ◌>>◌ : {S A B : Type 0} → Run S A → Run S B → Run S B
m >> k = m >>= λ _. k

-- `if (c) return s;`
abbrev pub raise_if : {S : Type 0} → Bool → Status → Run S ⊤
raise_if c s w = (if c then fails s else returns tt, w)

-- `assert(c)`
abbrev pub assert : {S : Type 0} → Bool → Run S ⊤
assert c w = (if c then returns tt else aborts, w)

abbrev pub modify : {S : Type 0} → (S → S) → Run S ⊤
modify f w = (returns tt, f w)

-- `if (c) m;`
abbrev pub when : {S : Type 0} → Bool → Run S ⊤ → Run S ⊤
when true m = m
when false m = pure tt

-- What holds where a run returns, and where it does not.
pub data Post {S A : Type 0} (Q : A → S → Type 0) (R : S → Type 0) : Outcome A × S → Type 0 where
  returned : (a : A) (w : S) → Q a w → Post Q R (returns a, w)
  failed : (s : Status) (w : S) → R w → Post Q R (fails s, w)
  aborted : (w : S) → R w → Post Q R (aborts, w)

-- A run in two parts.
pub Post-continue :
    {S A B : Type 0} {Q : A → S → Type 0} {Q' : B → S → Type 0} {R : S → Type 0} (k : A → Run S B)
    {r : Outcome A × S}
    → Post Q R r
    → ((a : A) (w : S) → Q a w → Post Q' R (k a w))
    → Post Q' R (continue k r)
Post-continue k (returned a w p) next = next a w p
Post-continue k (failed s w p) next = failed s w p
Post-continue k (aborted w p) next = aborted w p

-- A test that returns with a status if it holds.
pub Post-raise_if :
    {S B : Type 0} {Q' : B → S → Type 0} {R : S → Type 0} (k : ⊤ → Run S B) (c : Bool) (s : Status)
    (w : S)
    → R w
    → (c ≡ false → Post Q' R (k tt w))
    → Post Q' R (continue k (raise_if c s w))
Post-raise_if k true s w p next = failed s w p
Post-raise_if k false s w p next = next refl

-- An assertion.
pub Post-assert :
    {S B : Type 0} {Q' : B → S → Type 0} {R : S → Type 0} (k : ⊤ → Run S B) (c : Bool) (w : S)
    → R w
    → (c ≡ true → Post Q' R (k tt w))
    → Post Q' R (continue k (assert c w))
Post-assert k true w p next = next refl
Post-assert k false w p next = aborted w p

-- The same test at the end of a function.
pub Post-raise_last :
    {S : Type 0} {Q : ⊤ → S → Type 0} {R : S → Type 0} (c : Bool) (s : Status) (w : S)
    → R w
    → (c ≡ false → Q tt w)
    → Post Q R (raise_if c s w)
Post-raise_last true s w p last = failed s w p
Post-raise_last false s w p last = returned tt w (last refl)

-- A weaker condition.
pub Post-map :
    {S A : Type 0} {Q Q' : A → S → Type 0} {R R' : S → Type 0} {r : Outcome A × S}
    → Post Q R r
    → ((a : A) (w : S) → Q a w → Q' a w)
    → ((w : S) → R w → R' w)
    → Post Q' R' r
Post-map (returned a w p) f g = returned a w (f a w p)
Post-map (failed s w p) f g = failed s w (g w p)
Post-map (aborted w p) f g = aborted w (g w p)

-- A run that does not end the program, and what holds where it returns.
pub data Safe {S A : Type 0} (Q : A → S → Type 0) : Outcome A × S → Type 0 where
  safe_return : (a : A) (w : S) → Q a w → Safe Q (returns a, w)
  safe_fail : (s : Status) (w : S) → Safe Q (fails s, w)

pub Safe-continue :
    {S A B : Type 0} {Q : A → S → Type 0} {Q' : B → S → Type 0} (k : A → Run S B)
    {r : Outcome A × S}
    → Safe Q r
    → ((a : A) (w : S) → Q a w → Safe Q' (k a w))
    → Safe Q' (continue k r)
Safe-continue k (safe_return a w p) next = next a w p
Safe-continue k (safe_fail s w) next = safe_fail s w
