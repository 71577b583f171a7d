-- ===== src/Common/Words.antt =====
-- Machine words as native numbers: `uint32_t` and `uint64_t` arithmetic with its wrap-around.
use know_your_memory.Common.{ℕ, ◌+◌, ◌-◌, ◌*◌, ◌/◌, ◌%◌, ◌^◌, ◌≡◌, arith}

abbrev pub two32 : ℕ
two32 = 2 ^ 32

abbrev pub two64 : ℕ
two64 = 2 ^ 64

abbrev pub add32 : ℕ → ℕ → ℕ
add32 a b = (a + b) % two32

abbrev pub sub32 : ℕ → ℕ → ℕ
sub32 a b = (a + two32 - b) % two32

abbrev pub add64 : ℕ → ℕ → ℕ
add64 a b = (a + b) % two64

abbrev pub sub64 : ℕ → ℕ → ℕ
sub64 a b = (a + two64 - b) % two64

abbrev pub mul64 : ℕ → ℕ → ℕ
mul64 a b = a * b % two64

-- A conversion to `uint32_t` keeps the low 32 bits.
abbrev pub to_u32 : ℕ → ℕ
to_u32 a = a % two32

-- A 64-bit word is stored in two 32-bit cells, the low one first.
abbrev pub low32 : ℕ → ℕ
low32 a = a % two32

abbrev pub high32 : ℕ → ℕ
high32 a = a / two32

abbrev pub join32 : ℕ → ℕ → ℕ
join32 lo hi = lo + hi * two32

pub join32-split : (a : ℕ) → join32 (low32 a) (high32 a) ≡ a
join32-split a = omega arith
