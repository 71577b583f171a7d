-- ===== src/Bench.antt =====
-- src/bench/bench.cpp: the measuring loops, over any connection (src/conn.hpp).
pub mod Warmup
pub mod Latency
pub mod Bandwidth
pub mod Receiving
use know_your_memory.Common.{
  ℕ, Bool, true, false, zero, suc, ◌==◌, ◌≡◌, ◌≤◌, ◌/◌, if◌then◌else◌, Option, none, some, List,
  ◌++◌, ltb, arith, ◌<◌, Bool-cases, inl, inr,
}
use know_your_memory.Error.{Status, StatusOr, value, status, Piece, wrap}
use know_your_memory.Write.{SendRegion, ReceiveRegion}
use know_your_memory.Effects.{
  ⊤, Outcome, returns, fails, aborts, Run, pure, raise, Safe, safe_return, safe_fail,
}

-- The class `Sender`, with the state of its program. `store_int` is the assignment through the
-- address of a region.
pub record AnySender (S : Type 0) : Type 0 where
  pub get_memory_region : ℕ → Run S SendRegion
  pub free : SendRegion → Run S ⊤
  pub send : SendRegion → Run S ⊤
  pub send_async : SendRegion → Run S ℕ
  pub wait : ℕ → Run S ⊤
  pub store_int : ℕ → ℕ → S → S

-- The class `BatchSender`.
pub record AnyBatchSender (S : Type 0) : Type 0 where
  pub get_memory_region : ℕ → Run S SendRegion
  pub free : SendRegion → Run S ⊤
  pub send_async_one : SendRegion → Run S ℕ
  pub send : List SendRegion → Run S ⊤
  pub send_async : List SendRegion → Run S ℕ
  pub wait : ℕ → Run S ⊤
  pub store_int : ℕ → ℕ → S → S

-- The class `Receiver`. `load_int` reads through the address of a region.
pub record AnyReceiver (S : Type 0) : Type 0 where
  pub receive : Run S ReceiveRegion
  pub free : ReceiveRegion → Run S ⊤
  pub load_int : ℕ → S → ℕ

-- The readings of `high_resolution_clock::now()` in nanoseconds, and the clock after `n` of them.
abbrev pub after_readings : {S : Type 0} → (S → ℕ × S) → ℕ → S → S
after_readings now zero s = s
after_readings now (suc n) s = after_readings now n (now s).1

-- The clock. It goes on, so that a reading that is awaited comes, after `patience` earlier ones.
pub record Clock (S : Type 0) : Type 0 where
  pub now : S → ℕ × S
  pub patience : ℕ → S → ℕ
  pub advances : (t : ℕ) (s : S) → t ≤ (now (after_readings now (patience t s) s)).0

module _ {S A : Type 0} where
  -- `if (!stat.ok()) return stat.Wrap(m);`
  abbrev pub wrapping : List Piece → Outcome A × S → Outcome A × S
  wrapping m (returns a, s) = (returns a, s)
  wrapping m (fails st, s) = (fails (wrap m st), s)
  wrapping m (aborts, s) = (aborts, s)

  -- A call whose status is not looked at.
  abbrev pub ignoring : Outcome A × S → Outcome ⊤ × S
  ignoring (returns a, s) = (returns tt, s)
  ignoring (fails st, s) = (returns tt, s)
  ignoring (aborts, s) = (aborts, s)

  -- A call whose status is kept for later.
  abbrev pub attempted : Outcome A × S → Outcome (StatusOr A) × S
  attempted (returns a, s) = (returns (value a), s)
  attempted (fails st, s) = (returns (status st), s)
  attempted (aborts, s) = (aborts, s)

  -- The end of an error path: the program may end before its status is returned.
  abbrev pub then_fails : Status → Outcome ⊤ × S → Outcome A × S
  then_fails st (returns a, s) = (fails st, s)
  then_fails st (fails st', s) = (fails st, s)
  then_fails st (aborts, s) = (aborts, s)

  -- `if (!stat.ok()) { cleanup; return stat.Wrap(m); }`
  abbrev pub or_clean : Run S ⊤ → List Piece → StatusOr A → Run S A
  or_clean cleanup m (value a) = pure a
  or_clean cleanup m (status st) = λ s. then_fails (wrap m st) (cleanup s)

  abbrev pub wraps : Run S A → List Piece → Run S A
  wraps k m s = wrapping m (k s)

  abbrev pub ignores : Run S A → Run S ⊤
  ignores k s = ignoring (k s)

  abbrev pub attempt : Run S A → Run S (StatusOr A)
  attempt k s = attempted (k s)

  -- An element that is not there: the code reads past the end of the array.
  abbrev pub element : Option A → Run S A
  element none s = (aborts, s)
  element (some a) s = (returns a, s)

module _ {S : Type 0} where
  -- An integer division, which a zero ends.
  abbrev pub quotient : ℕ → ℕ → Run S ℕ
  quotient a n s = if n == 0 then (aborts, s) else (returns (a / n), s)

  module _ (clock : Clock S) where
    abbrev pub now : Run S ℕ
    now s = let (t, s') = clock.now s in (returns t, s')

    -- `while (now() < t) {}`, for so many readings at most; then the last one.
    unfoldable pub spin : ℕ → ℕ → S → ℕ × S
    spin zero t s = clock.now s
    spin (suc n) t s =
        let (r, s') = clock.now s in let again = spin n t s' in if ltb r t then again else (r, s')

    -- The loop, with the readings that it needs.
    unfoldable pub busy_until : ℕ → Run S ⊤
    unfolding spin
    busy_until t s = (returns tt, (spin (clock.patience t s) t s).1)

    -- A loop that is given the readings that the clock needs ends because its time has come.
    pub spin_ends :
        (n t : ℕ) (s : S) → t ≤ (clock.now (after_readings clock.now n s)).0 → t ≤ (spin n t s).0
    unfolding spin
    spin_ends zero t s h = h
    spin_ends (suc n) t s h = ground (arith, spin_ends n t (clock.now s).1 h)

    -- The busy loop ends, and because its time has come.
    pub busy_until_ends : (t : ℕ) (s : S) → t ≤ (spin (clock.patience t s) t s).0
    busy_until_ends t s = spin_ends (clock.patience t s) t s (clock.advances t s)

module _ {S : Type 0} where
  -- Parts of runs that do not end the program.
  pub Safe-wrapping :
      {A : Type 0} {Q : A → S → Type 0} (m : List Piece) {r : Outcome A × S}
      → Safe Q r
      → Safe Q (wrapping m r)
  Safe-wrapping m (safe_return a w p) = safe_return a w p
  Safe-wrapping m (safe_fail s w) = safe_fail _ w

  pub quotient-Safe : (a n : ℕ) (s : S) → 0 < n → Safe (λ _ _. Unit {0}) (quotient a n s)
  quotient-Safe a n s h = elim (Bool-cases (n == 0)) [
    | inl t ↦ absurd (ground (arith, t, h))
    | inr f ↦ rw f (safe_return _ s tt)
  ]
