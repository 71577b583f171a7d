-- ===== src/Queue/Batch.antt =====
-- src/receive_queue.cpp: what one call of `ReceiveQueue::PostMR` does.
use mathlib.Core.List.{append-nil}
use know_your_memory.Common.{
  ℕ, zero, suc, ◌-◌, ◌≤◌, ◌<◌, ◌≡◌, refl, sym, ap, ◌∙◌, List, [], ◌∷◌, ◌++◌, arith, length, drop,
  set, drop-set, drop-length, length-set, dec_lt, ==_ne, inl, inr, ◌⊎◌, false, take, ◌==◌,
  Bool-cases,
}
use know_your_memory.Error.{Status, success, is_ok}
use know_your_memory.Queue.{
  ReceiveQueue, Entry, Answer, Given, nothing_given, given, filled, context_to_addr, post_mr,
  post_recv_raw,
}

pub record IsValid (q : ReceiveQueue) : Type 0 where
  pub some_left : 0 < q.current_rcv_mr
  pub in_batch : q.current_rcv_mr ≤ q.max_rcv_mr
  pub whole : length q.entries ≡ q.max_rcv_mr

-- The buffers that wait to be posted, the latest first.
abbrev pub pending : ReceiveQueue → List Entry
pending q = drop q.current_rcv_mr q.entries

abbrev pub entry : ReceiveQueue → ℕ → Entry
entry q wr_id = record { wr_id = wr_id; addr = context_to_addr q wr_id }

module _ (q : ReceiveQueue) (wr_id : ℕ) (v : IsValid q) where
  drop-filled : drop (q.current_rcv_mr - 1) (filled q wr_id) ≡ entry q wr_id ∷ pending q
  drop-filled =
      drop-set q.entries (q.current_rcv_mr - 1) (entry q wr_id) (omega (arith, v))
      ∙ ap (λ n. entry q wr_id ∷ drop n q.entries) {x = suc (q.current_rcv_mr - 1)}
          (omega (arith, v))

  length-filled : length (filled q wr_id) ≡ q.max_rcv_mr
  length-filled = length-set q.entries (q.current_rcv_mr - 1) (entry q wr_id) ∙ v.whole

-- While the batch is not full, the buffer waits and nothing is given to the verb.
pub post_mr-wait :
    (post : List Entry → Answer) (q : ReceiveQueue) (wr_id : ℕ)
    → IsValid q
    → 1 < q.current_rcv_mr
    → let (s, q', g) = post_mr post q wr_id in
      (s ≡ success) × (g ≡ nothing_given) × (pending q' ≡ entry q wr_id ∷ pending q) × IsValid q'
unfolding post_mr
post_mr-wait post q wr_id v h = rw (==_ne (q.current_rcv_mr - 1) 0 (λ e. omega arith)) (
  refl,
  refl,
  drop-filled q wr_id v,
  record { some_left = omega arith; in_batch = omega (arith, v); whole = length-filled q wr_id v },
)

-- The last buffer of a batch has all that wait given to the verb with it, and the next batch is
-- empty.
pub post_mr-post :
    (post : List Entry → Answer) (q : ReceiveQueue) (wr_id : ℕ)
    → IsValid q
    → q.current_rcv_mr ≡ 1
    → let (s, q', g) = post_mr post q wr_id in
      let batch = entry q wr_id ∷ pending q in
      (s ≡ post_recv_raw (post batch).ret)
      × (g ≡ given (post batch) batch)
      × (pending q' ≡ [])
      × (length batch ≡ q.max_rcv_mr)
      × IsValid q'
unfolding post_mr
post_mr-post post q wr_id v h = rw zeroth (
  ap (λ b. post_recv_raw (post b).ret) same,
  ap (λ b. given (post b) b) same,
  drop-length (set q.entries 0 (entry q wr_id)) q.max_rcv_mr (sym kept),
  counted,
  record { some_left = omega (arith, v); in_batch = omega arith; whole = kept },
)
  where
    zeroth : q.current_rcv_mr - 1 ≡ 0
    zeroth = omega arith

    kept : length (set q.entries 0 (entry q wr_id)) ≡ q.max_rcv_mr
    kept = length-set q.entries 0 (entry q wr_id) ∙ v.whole

    same : set q.entries 0 (entry q wr_id) ≡ entry q wr_id ∷ pending q
    same = rw zeroth at (drop-filled q wr_id v)

    counted : length (entry q wr_id ∷ pending q) ≡ q.max_rcv_mr
    counted = ap length (sym same) ∙ kept

-- All that was given, in the order of the chain.
abbrev pub whole_batch : Given → List Entry
whole_batch g = g.posted ++ g.refused

take-drop : (n : ℕ) (xs : List Entry) → take n xs ++ drop n xs ≡ xs
take-drop zero xs = refl
take-drop (suc n) [] = refl
take-drop (suc n) (x ∷ xs) = ap (λ l. x ∷ l) (take-drop n xs)

whole_batch-given : (a : Answer) (b : List Entry) → whole_batch (given a b) ≡ b
whole_batch-given a b = elim (Bool-cases (a.ret == 0)) [
  | inl t ↦ rw t (append-nil b)
  | inr f ↦ rw f (take-drop a.bad b)
]

-- Nothing is refused without an error.
abbrev pub Told : Status → Given → Type 0
Told s g = (g.refused ≡ []) ⊎ (is_ok s ≡ false)

post_recv_raw-Told : (a : Answer) (b : List Entry) → Told (post_recv_raw a.ret) (given a b)
unfolding post_recv_raw
post_recv_raw-Told a b = elim (Bool-cases (a.ret == 0)) [
  | inl t ↦ rw t (inl refl)
  | inr f ↦ rw f (inr refl)
]

-- What a call does: either the buffer waits, or a whole batch is given to the verb with it. The
-- chain starts with the buffer that was handed back last.
pub post_mr-cases :
    (post : List Entry → Answer) (q : ReceiveQueue) (wr_id : ℕ)
    → IsValid q
    → let (s, q', g) = post_mr post q wr_id in
      (((g ≡ nothing_given) × (s ≡ success) × (pending q' ≡ entry q wr_id ∷ pending q))
        ⊎ ((whole_batch g ≡ entry q wr_id ∷ pending q)
            × (length (whole_batch g) ≡ q.max_rcv_mr)
            × (pending q' ≡ [])))
      × Told s g
      × IsValid q'
post_mr-cases post q wr_id v = elim (dec_lt 1 q.current_rcv_mr) [
  | yes more ↦
      let (s, g, p, v') = post_mr-wait post q wr_id v more in (inl (g, s, p), rw g (inl refl), v')
  | no last ↦
      let (s, g, p, l, v') = post_mr-post post q wr_id v (omega (arith, v.some_left)) in
      let batch = entry q wr_id ∷ pending q in
      let same = ap whole_batch g ∙ whole_batch-given (post batch) batch in
      (inr (same, ap length same ∙ l, p), rw (s, g) (post_recv_raw-Told (post batch) batch), v')
]
