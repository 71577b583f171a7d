-- ===== src/Queue/History.antt =====
-- src/receive_queue.cpp: histories of `PostMR`, and how often a buffer stands in them.
use know_your_memory.Common.{
  ℕ, ◌+◌, ◌-◌, ◌≡◌, ◌≤◌, refl, ap, List, [], ◌∷◌, ◌++◌, arith, length, length-append, inl, inr, ◌⊎◌,
  Bool, if◌then◌else◌, Bool-cases, ◌==◌,
}
use know_your_memory.Error.{Status, success}
use know_your_memory.Queue.{ReceiveQueue, Entry, Answer, Given, nothing_given, post_mr}
use know_your_memory.Queue.Batch.{IsValid, pending, entry, whole_batch, Told, post_mr-cases}

-- A chain starts with the buffer that was handed back last.
abbrev pub oldest_first : List Entry → List Entry
oldest_first [] = []
oldest_first (x ∷ xs) = oldest_first xs ++ x ∷ []

-- A history of calls, each with the answer of its verb: the queue, and what each call returned and
-- gave to the verb.
unfoldable pub post_each : ReceiveQueue → List (ℕ × Answer) → ReceiveQueue × List (Status × Given)
unfolding post_mr
post_each q [] = (q, [])
post_each q ((wr_id, a) ∷ calls) =
    let (s, q', g) = post_mr (λ b. a) q wr_id in
    let rest = post_each q' calls in (rest.0, (s, g) ∷ rest.1)

-- The buffers of a history, as they come.
abbrev pub handed : ReceiveQueue → List (ℕ × Answer) → List Entry
handed q [] = []
handed q ((wr_id, a) ∷ calls) = entry q wr_id ∷ handed q calls

-- The buffers of the batches of a history, as they came.
abbrev pub batched : List (Status × Given) → List Entry
batched [] = []
batched ((s, g) ∷ gs) = oldest_first (whole_batch g) ++ batched gs

-- Each call gives the verb nothing or a whole batch, and is told of what is refused.
abbrev pub Batches : ℕ → List (Status × Given) → Type 0
Batches n [] = Unit
Batches n ((s, g) ∷ gs) =
    (((g ≡ nothing_given) × (s ≡ success)) ⊎ (length (whole_batch g) ≡ n)) × Told s g × Batches n gs

pub entry-post_mr :
    (post : List Entry → Answer) (q : ReceiveQueue) (wr_id id : ℕ)
    → entry (post_mr post q wr_id).1 id ≡ entry q id
unfolding post_mr
entry-post_mr post q wr_id id = elim (Bool-cases (q.current_rcv_mr - 1 == 0)) [
  | inl t ↦ rw t refl
  | inr f ↦ rw f refl
]

max-post_mr :
    (post : List Entry → Answer) (q : ReceiveQueue) (wr_id : ℕ)
    → (post_mr post q wr_id).1.max_rcv_mr ≡ q.max_rcv_mr
unfolding post_mr
max-post_mr post q wr_id = elim (Bool-cases (q.current_rcv_mr - 1 == 0)) [
  | inl t ↦ rw t refl
  | inr f ↦ rw f refl
]

-- How many of the entries satisfy a test.
abbrev pub count : (Entry → Bool) → List Entry → ℕ
count p [] = 0
count p (e ∷ es) = (if p e then 1 else 0) + count p es

pub count-append :
    (p : Entry → Bool) (xs ys : List Entry) → count p (xs ++ ys) ≡ count p xs + count p ys
count-append p [] ys = omega arith
count-append p (x ∷ xs) ys = omega (arith, count-append p xs ys)

-- A call moves its buffer and those that wait: each waits, is posted or is refused.
pub post_mr-count :
    (post : List Entry → Answer) (q : ReceiveQueue) (wr_id : ℕ) (p : Entry → Bool)
    → IsValid q
    → let (s, q', g) = post_mr post q wr_id in
      count p (pending q') + (count p g.posted + count p g.refused)
      ≡ (if p (entry q wr_id) then 1 else 0) + count p (pending q)
post_mr-count post q wr_id p v =
    let (s, q', g) = post_mr post q wr_id in
    elim (post_mr-cases post q wr_id v).0 [
      | inl (n, ok, w) ↦ rw (n, w) (omega arith)
      | inr (b, l, w) ↦ rw w (omega (arith, count-append p g.posted g.refused, ap (count p) b))
    ]

-- A call that an answer refuses loses at most a batch, and returns an error.
pub post_mr-Told :
    (post : List Entry → Answer) (q : ReceiveQueue) (wr_id : ℕ)
    → IsValid q
    → let (s, q', g) = post_mr post q wr_id in
      Told s g × (length g.refused ≤ q.max_rcv_mr) × (q'.max_rcv_mr ≡ q.max_rcv_mr) × IsValid q'
post_mr-Told post q wr_id v =
    let (how, told, v') = post_mr-cases post q wr_id v in
    let (s, q', g) = post_mr post q wr_id in
    (
      told,
      elim how [
        | inl (n, ok, w) ↦ rw n (omega arith)
        | inr (b, l, w) ↦ omega (arith, l, length-append g.posted g.refused)
      ],
      max-post_mr post q wr_id,
      v',
    )
