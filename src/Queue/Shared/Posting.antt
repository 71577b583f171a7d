-- ===== src/Queue/Shared/Posting.antt =====
-- src/shared_receive_queue.cpp: `SharedReceiveQueue::PostMR` beside `ReceiveQueue::PostMR`.
use know_your_memory.Common.{
  ℕ, ◌+◌, ◌-◌, ◌==◌, ◌≤◌, ◌≡◌, refl, sym, List, arith, length, inl, inr, Bool, Bool-cases,
  if◌then◌else◌,
}
use know_your_memory.Error.{Status, is_ok}
use know_your_memory.Queue.{ReceiveQueue, Entry, Answer, Given, post_mr, post_recv_raw}
use know_your_memory.Queue.Batch.{IsValid, pending, entry, Told}
use know_your_memory.Queue.History.{count, entry-post_mr, post_mr-count, post_mr-Told}
use know_your_memory.Queue.Shared.{post_shared}

-- The two verbs are told apart by the text of the error only.
pub post_shared-post_mr :
    (post : List Entry → Answer) (s : ReceiveQueue) (x : ℕ)
    → ((post_shared post s x).1 ≡ (post_mr post s x).1)
      × ((post_shared post s x).2 ≡ (post_mr post s x).2)
      × (is_ok (post_shared post s x).0 ≡ is_ok (post_mr post s x).0)
unfolding post_shared post_mr post_recv_raw
post_shared-post_mr post s x = elim (Bool-cases (s.current_rcv_mr - 1 == 0)) [
  | inl t ↦ rw t (refl, refl, ground arith)
  | inr f ↦ rw f (refl, refl, refl)
]

-- What a call of the shared queue moves.
abbrev pub Moved : ReceiveQueue → ℕ → Status × ReceiveQueue × Given → Type 0
Moved s x (stat, s', g) =
    ((p : Entry → Bool)
      → count p (pending s') + (count p g.posted + count p g.refused)
        ≡ (if p (entry s x) then 1 else 0) + count p (pending s))
    × Told stat g
    × (length g.refused ≤ s.max_rcv_mr)
    × (s'.max_rcv_mr ≡ s.max_rcv_mr)
    × ((id : ℕ) → entry s' id ≡ entry s id)
    × IsValid s'

pub post_shared-Moved :
    (post : List Entry → Answer) (s : ReceiveQueue) (x : ℕ)
    → IsValid s
    → Moved s x (post_shared post s x)
post_shared-Moved post s x v =
    let (q, g, ok) = post_shared-post_mr post s x in
    let (told, size, max, v') = post_mr-Told post s x v in
    rw (q, g)
      (
        λ p. post_mr-count post s x p v,
        rw (sym ok) at told,
        size,
        max,
        λ id. entry-post_mr post s x id,
        v',
      )
