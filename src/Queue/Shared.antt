-- ===== src/Queue/Shared.antt =====
-- src/shared_receive_queue.cpp: one queue of buffers for many connections. Each connection hands its
-- buffers back through a queue of its own, which one thread empties.
pub mod Posting
pub mod Fetching
pub mod Threads
pub mod Rounds
use know_your_memory.Common.{
  ℕ, zero, suc, ◌≡◌, refl, ap, ◌∙◌, ◌==◌, if◌then◌else◌, Option, none, some, List, [], ◌∷◌, ◌++◌,
  ◌-◌, inl, inr, ◌⊎◌,
}
use know_your_memory.Error.{Status, success, failure, internal, rate_limit, text, number, is_ok}
use know_your_memory.Queue.{ReceiveQueue, Entry, Answer, Given, given, nothing_given, filled}

-- `moodycamel::ReaderWriterQueue<uint32_t>`, a vendored library: a queue whose two ends belong to
-- one thread each. What it holds comes out in the order in which it went in.
pub record Spsc (Q : Type 0) : Type 0 where
  pub contents : Q → List ℕ
  pub try_enqueue : Q → ℕ → Option Q
  pub try_dequeue : Q → Option (ℕ × Q)
  pub contents-try_enqueue :
      (q q' : Q) (x : ℕ) → try_enqueue q x ≡ some q' → contents q' ≡ contents q ++ x ∷ []
  pub contents-try_dequeue :
      (q q' : Q) (x : ℕ) → try_dequeue q ≡ some (x, q') → contents q ≡ x ∷ contents q'

-- The status of a batch, for the answer of `ibv_post_srq_recv`.
abbrev pub batch_status : ℕ → Status
batch_status ret =
    if ret == 0
    then success
    else failure internal
        (text "error  " ∷ number ret ∷ text " reposting buffer to SharedReceiveQueue" ∷ [])

-- `SharedReceiveQueue::PostMR`. `post` is `ibv_post_srq_recv`.
unfoldable pub post_shared :
    (List Entry → Answer) → ReceiveQueue → ℕ → Status × ReceiveQueue × Given
post_shared post s wr_id =
    let i = s.current_rcv_mr - 1 in
    let batch = filled s wr_id in
    if i == 0
    then (
      batch_status (post batch).ret,
      record s { current_rcv_mr = s.max_rcv_mr; entries = batch },
      given (post batch) batch,
    )
    else (success, record s { current_rcv_mr = i; entries = batch }, nothing_given)

-- What was given to the verb before, and what is given to it after that.
abbrev pub both : Given → Given → Given
both g h = record { posted = g.posted ++ h.posted; refused = g.refused ++ h.refused }

module _ {Q : Type 0} (spsc : Spsc Q) where
  -- `SharedReceiveQueueStub::PostMR`
  unfoldable pub stub_post_mr : Q → ℕ → Status × Q
  stub_post_mr q wr_id = elim (spsc.try_enqueue q wr_id) [
    | some q' ↦ (success, q')
    | none ↦ (failure rate_limit (text "inter process queue overrun" ∷ []), q)
  ]

  -- The body of the loop of `SharedReceiveQueue::Run`, once over the queues: the status, the state,
  -- the queues, and what is given to the verb, behind what was given to it earlier.
  unfoldable pub run_round :
      (List Entry → Answer) → ReceiveQueue → Given → List Q → Status × ReceiveQueue × List Q × Given
  unfolding post_shared
  run_round post s g [] = (success, s, [], g)
  run_round post s g (q ∷ qs) =
      let skipped = run_round post s g qs in
      elim (spsc.try_dequeue q) [
        | none ↦ (skipped.0, skipped.1, q ∷ skipped.2, skipped.3)
        | some (x, q') ↦
            let (stat, s', h) = post_shared post s x in
            let rest = run_round post s' (both g h) qs in
            if is_ok stat
            then (rest.0, rest.1, q' ∷ rest.2, rest.3)
            else (stat, s', q' ∷ qs, both g h)
      ]

  -- `SharedReceiveQueue::Run`, for a number of rounds until `Close` ends it.
  unfoldable pub run :
      (List Entry → Answer)
      → ℕ
      → ReceiveQueue
      → Given
      → List Q
      → Status × ReceiveQueue × List Q × Given
  unfolding run_round
  run post zero s g qs = (success, s, qs, g)
  run post (suc n) s g qs =
      let (stat, s', qs', g') = run_round post s g qs in
      let again = run post n s' g' qs' in if is_ok stat then again else (stat, s', qs', g')

  -- A stub's buffer goes to the end of its queue, or the caller is told that there is no room.
  pub stub_post_mr_lem :
      (q : Q) (wr_id : ℕ)
      → let (stat, q') = stub_post_mr q wr_id in
        ((stat ≡ success) × (spsc.contents q' ≡ spsc.contents q ++ wr_id ∷ []))
        ⊎ ((stat ≡ failure rate_limit (text "inter process queue overrun" ∷ [])) × (q' ≡ q))
  unfolding stub_post_mr
  stub_post_mr_lem q wr_id = go (spsc.try_enqueue q wr_id) refl
    where
      go :
          (o : Option Q)
          → spsc.try_enqueue q wr_id ≡ o
          → ((((stub_post_mr q wr_id).0 ≡ success))
              × (spsc.contents (stub_post_mr q wr_id).1 ≡ spsc.contents q ++ wr_id ∷ []))
            ⊎ (((stub_post_mr q wr_id).0
                  ≡ failure rate_limit (text "inter process queue overrun" ∷ []))
                × ((stub_post_mr q wr_id).1 ≡ q))
      go (some q') e = rw (e, stub_post_mr) (inl (refl, spsc.contents-try_enqueue q q' wr_id e))
      go none e = rw (e, stub_post_mr) (inr (refl, refl))
