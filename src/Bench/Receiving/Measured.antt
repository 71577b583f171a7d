-- ===== src/Bench/Receiving/Measured.antt =====
-- src/bench/bench.cpp: what a loop of the receivers' bandwidth functions measures, by its turns and its
-- readings of the clock.
use native.Mathlib.Nat.{div-eq_of_lt, add-div_right, le-div_iff_mul-le}
use know_your_memory.Common.{
  arith, ℕ, ◌≡◌, refl, sym, ap, ◌∙◌, ◌<◌, ◌≤◌, ◌+◌, ◌-◌, ◌/◌, ◌*◌, List, [], ◌∷◌, length,
}
use know_your_memory.Effects.{⊤, Run, Outcome, returns, Safe, safe_return, safe_fail}
use know_your_memory.Bench.{Clock}
use know_your_memory.Bench.Receiving.{min}

pub min_pos : (c : ℕ) → 0 < c → 0 < min c 5000
min_pos c g = ground arith

-- There is at least one measurement.
pub some_measured : (count : ℕ) → 0 < count → 0 < count / min count 5000
some_measured count h =
    (le-div_iff_mul-le {k = min count 5000} {x = 1} {y = count} (min_pos count h)).1 (min_le count)
  where
    min_le : (c : ℕ) → 1 * min c 5000 ≤ c
    min_le c = ground arith

-- A run that does not end the program, with where it goes.
pub Safe-run :
    {S A : Type 0} {Q : A → S → Type 0} {r : Outcome A × S}
    → Safe Q r
    → Safe (λ a w. Q a w × (r ≡ (returns a, w))) r
Safe-run (safe_return a w p) = safe_return a w (p, refl)
Safe-run (safe_fail st w) = safe_fail st w

pub Safe-map :
    {S A : Type 0} {Q Q' : A → S → Type 0} {r : Outcome A × S}
    → Safe Q r
    → ((a : A) (w : S) → Q a w → Q' a w)
    → Safe Q' r
Safe-map (safe_return a w p) f = safe_return a w (f a w p)
Safe-map (safe_fail st w) f = safe_fail st w

module _ {S : Type 0} (turn : Run S ⊤) where
  -- So many turns, one after the other, that all return.
  pub data Turns : ℕ → S → S → Type 0 where
    no_turn : (s : S) → Turns 0 s s
    turns : (n : ℕ) (s t u : S) → Turns n s t → turn t ≡ (returns tt, u) → Turns (n + 1) s u

  module _ (clock : Clock S) (rate : ℕ → ℕ) (interval : ℕ) where
    -- The measurements of `n` turns since the reading `start`: one for each whole interval.
    pub data Measured : ℕ → ℕ → List ℕ → S → S → Type 0 where
      incomplete : (n start : ℕ) (s s' : S) → n < interval → Turns n s s' → Measured n start [] s s'
      complete :
          (n start : ℕ) (s s1 : S) (ms : List ℕ) (s' : S)
          → Turns interval s s1
          → Measured n (clock.now s1).0 ms (clock.now s1).1 s'
          → Measured (interval + n) start (rate ((clock.now s1).0 - start) ∷ ms) s s'

    pub Measured-length :
        (n start : ℕ) (ms : List ℕ) (s s' : S)
        → 0 < interval
        → Measured n start ms s s'
        → length ms ≡ n / interval
    Measured-length n start ms s s' pos (incomplete _ _ _ _ h made) = sym (div-eq_of_lt h)
    Measured-length n start ms s s' pos (complete k _ _ s1 ms' _ made rest) =
        let shorter = Measured-length k (clock.now s1).0 ms' (clock.now s1).1 s' pos rest in
        let swap : interval + k ≡ k + interval = omega arith in
        omega (arith, shorter, ap (λ x. x / interval) swap ∙ add-div_right k {k = interval} pos)
