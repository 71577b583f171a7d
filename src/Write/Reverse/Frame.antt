-- ===== src/Write/Reverse/Frame.antt =====
-- Copies in a memory that is mapped twice, as the rings of tests/write/reverse.cpp are.
use know_your_memory.Common.{ℕ, ◌+◌, ◌≤◌, ◌<◌, ◌≡◌, sym, ap, ◌∙◌, arith}
use know_your_memory.Write.Memory.{Memory, Copied}

-- The ring's memory is mapped twice, one behind the other.
abbrev pub Mirrored : Memory → ℕ → ℕ → Type 0
Mirrored w addr L = (i : ℕ) → i < L → w (addr + L + i) ≡ w (addr + i)

-- A copy at `x` is one at `y` if `y` is the same place in one of the two mappings.
pub Copied-Mirrored :
    (m : Memory) (a : ℕ) (w : Memory) (addr L p x n : ℕ)
    → Mirrored w addr L
    → Copied m a w x n
    → x ≡ addr + L + p
    → p + n ≤ L
    → Copied m a w (addr + p) n
Copied-Mirrored m a w addr L p x n mir c e fits i h =
    let l1 : addr + p + i ≡ addr + (p + i) = omega arith in
    let l2 : addr + L + (p + i) ≡ x + i = omega (arith, e) in
    rw l1 (sym (mir (p + i) (omega arith)) ∙ ap w l2 ∙ c i h)

pub Mirrored-Copied :
    (m : Memory) (a : ℕ) (w : Memory) (addr L p y n : ℕ)
    → Mirrored w addr L
    → Copied m a w (addr + p) n
    → y ≡ addr + L + p
    → p + n ≤ L
    → Copied m a w y n
Mirrored-Copied m a w addr L p y n mir c e fits i h =
    let l1 : y + i ≡ addr + L + (p + i) = omega (arith, e) in
    let l2 : addr + (p + i) ≡ addr + p + i = omega arith in
    rw l1 (mir (p + i) (omega arith) ∙ ap w l2 ∙ c i h)
