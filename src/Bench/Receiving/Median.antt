-- ===== src/Bench/Receiving/Median.antt =====
-- src/bench/bench.cpp: the middle of the sorted measurements of the receivers' bandwidth functions.
use know_your_memory.Common.{
  arith, ℕ, zero, suc, ◌≡◌, refl, ap, ◌∙◌, inl, inr, Bool-cases, ◌<◌, ◌≤◌, ◌+◌, ◌/◌, List, [], ◌∷◌,
  length, leb, ltb, if◌then◌else◌, some, get_elem?, none,
}
use know_your_memory.Bench.Receiving.{insert, sort}

-- How many elements are less than a value, and how many are no greater.
abbrev pub below : ℕ → List ℕ → ℕ
below v [] = 0
below v (x ∷ xs) = (if ltb x v then 1 else 0) + below v xs

abbrev pub at_most : ℕ → List ℕ → ℕ
at_most v [] = 0
at_most v (x ∷ xs) = (if leb x v then 1 else 0) + at_most v xs

-- At most half of the values are less, and more than half are no greater.
abbrev pub IsMedian : ℕ → List ℕ → Type 0
IsMedian v xs = (below v xs ≤ length xs / 2) × (length xs / 2 < at_most v xs)

below-insert : (v x : ℕ) (xs : List ℕ) → below v (insert x xs) ≡ below v (x ∷ xs)
below-insert v x [] = refl
below-insert v x (y ∷ ys) = ground (arith, below-insert v x ys)

below-sort : (v : ℕ) (xs : List ℕ) → below v (sort xs) ≡ below v xs
below-sort v [] = refl
below-sort v (x ∷ xs) = ground (arith, below-insert v x (sort xs), below-sort v xs)

at_most-insert : (v x : ℕ) (xs : List ℕ) → at_most v (insert x xs) ≡ at_most v (x ∷ xs)
at_most-insert v x [] = refl
at_most-insert v x (y ∷ ys) = ground (arith, at_most-insert v x ys)

at_most-sort : (v : ℕ) (xs : List ℕ) → at_most v (sort xs) ≡ at_most v xs
at_most-sort v [] = refl
at_most-sort v (x ∷ xs) = ground (arith, at_most-insert v x (sort xs), at_most-sort v xs)

length-insert : (x : ℕ) (xs : List ℕ) → length (insert x xs) ≡ suc (length xs)
length-insert x [] = refl
length-insert x (y ∷ ys) = ground (arith, length-insert x ys)

length-sort : (xs : List ℕ) → length (sort xs) ≡ length xs
length-sort [] = refl
length-sort (x ∷ xs) = length-insert x (sort xs) ∙ ap suc (length-sort xs)

-- No element is less than the first.
data Above (v : ℕ) : List ℕ → Type 0 where
  none_left : Above v []
  above : (x : ℕ) (xs : List ℕ) → v ≤ x → Above v xs → Above v (x ∷ xs)

data IsSorted : List ℕ → Type 0 where
  empty : IsSorted []
  first : (x : ℕ) (xs : List ℕ) → Above x xs → IsSorted xs → IsSorted (x ∷ xs)

Above-le : (v w : ℕ) (xs : List ℕ) → v ≤ w → Above w xs → Above v xs
Above-le v w [] h a = none_left
Above-le v w (x ∷ xs) h (above _ _ g a) = above x xs (omega arith) (Above-le v w xs h a)

insert-Above : (v x : ℕ) (xs : List ℕ) → v ≤ x → Above v xs → Above v (insert x xs)
insert-Above v x [] h a = above x [] h none_left
insert-Above v x (y ∷ ys) h (above _ _ g a) = elim (Bool-cases (leb x y)) [
  | inl t ↦ rw t (above x (y ∷ ys) h (above y ys g a))
  | inr f ↦ rw f (above y (insert x ys) g (insert-Above v x ys h a))
]

insert-IsSorted : (x : ℕ) (xs : List ℕ) → IsSorted xs → IsSorted (insert x xs)
insert-IsSorted x [] s = first x [] none_left empty
insert-IsSorted x (y ∷ ys) (first _ _ a s) = elim (Bool-cases (leb x y)) [
  | inl t ↦ rw t (
      first x (y ∷ ys) (above y ys (ground arith) (Above-le x y ys (ground arith) a))
        (first y ys a s))
  | inr f ↦
      rw f (first y (insert x ys) (insert-Above y x ys (ground arith) a) (insert-IsSorted x ys s))
]

sort-IsSorted : (xs : List ℕ) → IsSorted (sort xs)
sort-IsSorted [] = empty
sort-IsSorted (x ∷ xs) = insert-IsSorted x (sort xs) (sort-IsSorted xs)

below-Above : (v : ℕ) (xs : List ℕ) → Above v xs → below v xs ≡ 0
below-Above v [] a = refl
below-Above v (x ∷ xs) (above _ _ h a) = ground (arith, below-Above v xs a)

-- The element at place `k` of a sorted list is there or further on.
get-Above : (v : ℕ) (xs : List ℕ) (k w : ℕ) → Above v xs → get_elem? xs k ≡ some w → v ≤ w
get-Above v [] k w a e = absurd (ground arith)
get-Above v (x ∷ xs) zero w (above _ _ h a) e = ground arith
get-Above v (x ∷ xs) (suc k) w (above _ _ h a) e = get-Above v xs k w a e

-- At most `k` elements of a sorted list are less than the one at place `k`.
below-get : (xs : List ℕ) (k v : ℕ) → IsSorted xs → get_elem? xs k ≡ some v → below v xs ≤ k
below-get [] k v s e = absurd (ground arith)
below-get (x ∷ xs) zero v (first _ _ a s) e =
    let h : x ≡ v = ground arith in
    ground (arith, below-Above v xs (Above-le v x xs (omega (arith, h)) a))
below-get (x ∷ xs) (suc k) v (first _ _ a s) e = ground (arith, below-get xs k v s e)

-- More than `k` elements of a sorted list are no greater than the one at place `k`.
at_most-get : (xs : List ℕ) (k v : ℕ) → IsSorted xs → get_elem? xs k ≡ some v → k < at_most v xs
at_most-get [] k v s e = absurd (ground arith)
at_most-get (x ∷ xs) zero v (first _ _ a s) e = ground arith
at_most-get (x ∷ xs) (suc k) v (first _ _ a s) e =
    ground (arith, at_most-get xs k v s e, get-Above x xs k v a e)

-- The middle of the sorted values is a median of them.
pub middle-IsMedian :
    (ms : List ℕ) (v : ℕ) → get_elem? (sort ms) (length ms / 2) ≡ some v → IsMedian v ms
middle-IsMedian ms v e =
    let s = sort-IsSorted ms in
    (
      omega (arith, below-get (sort ms) (length ms / 2) v s e, below-sort v ms),
      omega (arith, at_most-get (sort ms) (length ms / 2) v s e, at_most-sort v ms),
    )

get-none : (xs : List ℕ) (k : ℕ) → get_elem? xs k ≡ none → length xs ≤ k
get-none [] k e = omega arith
get-none (x ∷ xs) zero e = absurd (ground arith)
get-none (x ∷ xs) (suc k) e = omega (arith, get-none xs k e)

-- There is a middle, but of no values.
pub middle_none : (ms : List ℕ) → get_elem? (sort ms) (length ms / 2) ≡ none → length ms ≡ 0
middle_none ms e = omega (arith, get-none (sort ms) (length ms / 2) e, length-sort ms)
