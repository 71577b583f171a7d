-- ===== src/Common/Modular.antt =====
-- Positions on a ring of `L` cells, as running totals taken modulo `L`.
use native.Mathlib.Nat.{mod-eq_of_lt, mod-eq-sub-mod, mod-add-mod, mod-lt}
use know_your_memory.Common.{
  ℕ, ◌+◌, ◌-◌, ◌%◌, ◌≤◌, ◌<◌, ◌≡◌, ◌≢◌, ◌⊎◌, inl, inr, ◌∙◌, arith, sym, dec_lt,
}

-- Adding to a position is adding to its total.
pub mod-advance : (w len L : ℕ) → (w % L + len) % L ≡ (w + len) % L
mod-advance w len L = mod-add-mod w L len

pub mod-wrap : (p L : ℕ) → L ≤ p → p < L + L → p % L ≡ p - L
mod-wrap p L lo hi = mod-eq-sub-mod lo ∙ mod-eq_of_lt (omega arith)

-- What the positions of two totals say of their distance, if it is at most `L`: the second is
-- ahead by the distance, or by the distance less one round.
pub gap :
    (a d L : ℕ)
    → 0 < L
    → d ≤ L
    → (((a + d) % L ≡ a % L + d) × (a % L + d < L))
      ⊎ (((a + d) % L + L ≡ a % L + d) × (L ≤ a % L + d))
gap a d L pos h = elim (dec_lt (a % L + d) L) [
  | yes lt ↦ inl (sym (mod-advance a d L) ∙ mod-eq_of_lt lt, lt)
  | no ge ↦ inr (
    omega (
      arith,
      mod-advance a d L,
      mod-wrap (a % L + d) L (omega arith) (omega (arith, mod-lt a pos)),
    ),
    omega arith,
  )
]

-- Two totals less than a round apart stand at two positions.
pub gap-ne : (a d L : ℕ) → 0 < d → d < L → (a + d) % L ≢ a % L
gap-ne a d L pos lt e = elim (gap a d L (omega arith) (omega arith)) [
  | inl (p, q) ↦ omega arith
  | inr (p, q) ↦ omega arith
]
