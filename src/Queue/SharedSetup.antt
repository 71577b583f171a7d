-- ===== src/Queue/SharedSetup.antt =====
-- src/shared_receive_queue.cpp: how the queue for many connections is set up and closed, and what
-- its connections get. The verbs' answers are arguments.
use know_your_memory.Common.{
  ℕ, zero, suc, ◌+◌, ◌≡◌, refl, ◌==◌, if◌then◌else◌, not, true, false, Bool, List, [], ◌∷◌, ◌++◌,
  length, arith, Bool-cases, inl, inr, sym, ◌∙◌,
}
use know_your_memory.Common.Words.{add64, mul64}
use know_your_memory.Error.{
  Status, StatusOr, value, status, failure, success, internal, text, number, code_ok,
}
use know_your_memory.Queue.{
  ReceiveQueue, MemoryRegion, Posted, get_mr, fresh_entries, batch_size, post_all,
  get_receive_queue,
}

-- The fields of `SharedReceiveQueue`. `queue` are those that it has in common with `ReceiveQueue`;
-- a queue of a connection is one of a vendored library, of the type `Q`.
pub record SharedQueue (Q : Type 0) : Type 0 where
  pub srq : ℕ
  pub queue : ReceiveQueue
  pub running : Bool
  pub queues : List Q

-- `SharedReceiveQueueStub`: which of the parent's queues it has.
pub record Stub : Type 0 where
  pub queue : ℕ

-- The loop of `GetSharedReceiveQueue` over the buffers `i` to `i + n - 1`: the answer of the call
-- that failed, or 0, and the buffers that are posted.
unfoldable pub post_to_srq : (Posted → ℕ) → ℕ → ℕ → ℕ → ℕ → ℕ → ℕ × List Posted
post_to_srq post mr_addr lkey transfer_size zero i = (0, [])
post_to_srq post mr_addr lkey transfer_size (suc n) i =
    let b : Posted = record {
      wr_id = i;
      lkey = lkey;
      addr = add64 mr_addr (mul64 i transfer_size);
      size = transfer_size;
    } in
    let rest = post_to_srq post mr_addr lkey transfer_size n (i + 1) in
    if post b == 0 then (rest.0, b ∷ rest.1) else (post b, [])

module _ {Q : Type 0} where
  -- The end of `GetSharedReceiveQueue`, by the answer of its loop.
  unfoldable pub with_posted :
      ℕ → ℕ → ℕ → ℕ → ℕ × List Posted → StatusOr (SharedQueue Q) × List Posted × Bool
  unfolding fresh_entries
  with_posted srq mr_addr lkey transfer_size (ret, posted) =
      if ret == 0
      then (
        value (record {
          srq = srq;
          queue = record {
            mr_addr = mr_addr;
            lkey = lkey;
            transfer_size = transfer_size;
            current_rcv_mr = batch_size;
            max_rcv_mr = batch_size;
            entries = fresh_entries batch_size 0;
          };
          running = true;
          queues = [];
        }),
        posted,
        false,
      )
      else (
        status (
            failure internal (
              text "error  "
              ∷ number ret
              ∷ text " registering buffer for SharedReceiveQueue"
              ∷ [])),
        posted,
        true,
      )

  -- `GetSharedReceiveQueue`, for the queue of `ibv_create_srq` (0: a null pointer) and the region of
  -- `ibv_reg_mr`: its result, the buffers that are posted, and whether the region is given back and
  -- its memory freed.
  unfoldable pub get_shared_receive_queue :
      ℕ → ℕ → (Posted → ℕ) → ℕ → ℕ → ℕ → ℕ → StatusOr (SharedQueue Q) × List Posted × Bool
  unfolding post_to_srq with_posted
  get_shared_receive_queue srq errno post mr_addr lkey transfer_size inflight =
      let made =
        with_posted srq mr_addr lkey transfer_size
          (post_to_srq post mr_addr lkey transfer_size inflight 0) in
      if srq == 0
      then (
        status (failure internal (text "error " ∷ number errno ∷ text " creating ibv_srq" ∷ [])),
        [],
        false,
      )
      else made

  -- `SharedReceiveQueue::NewReceiver`, for the new queue of the library.
  unfoldable pub new_receiver : Q → SharedQueue Q → Stub × SharedQueue Q
  new_receiver q s = (record { queue = length s.queues }, record s { queues = s.queues ++ q ∷ [] })

  -- `SharedReceiveQueue::GetSRQ`
  unfoldable pub get_srq : SharedQueue Q → ℕ
  get_srq s = s.srq

  -- `SharedReceiveQueue::GetMR`
  unfoldable pub get_shared_mr : SharedQueue Q → ℕ → MemoryRegion
  unfolding get_mr
  get_shared_mr s wr_id = get_mr s.queue wr_id

  -- `SharedReceiveQueueStub::GetMR`
  unfoldable pub stub_get_mr : SharedQueue Q → ℕ → MemoryRegion
  unfolding get_mr
  stub_get_mr parent wr_id = get_mr parent.queue wr_id

  -- `SharedReceiveQueue::Close`, for the results of `ibv_dereg_mr` and `ibv_destroy_srq`: the
  -- status, the queue, which runs no more, whether its memory is freed, and whether the shared
  -- receive queue is destroyed.
  unfoldable pub close_shared : ℕ → ℕ → SharedQueue Q → Status × SharedQueue Q × Bool × Bool
  close_shared ret ret' s =
      let stopped = record s { running = false } in
      if not (ret == 0)
      then (
        failure internal (text "error  " ∷ number ret ∷ text " deregistering mr" ∷ []),
        stopped,
        false,
        false,
      )
      else if not (ret' == 0)
      then (
        failure internal (text "error  " ∷ number ret' ∷ text " destroying srq" ∷ []),
        stopped,
        true,
        false,
      )
      else (success, stopped, true, true)

-- `SharedReceiveQueueStub::Close`
unfoldable pub stub_close : Status
stub_close = success

-- A verb that answers with a number, as one that answers with a status.
abbrev pub as_status : (Posted → ℕ) → Posted → Status
as_status post b =
    if post b == 0
    then success
    else failure internal (text "error  " ∷ number (post b) ∷ text " registering buffer" ∷ [])

-- Both loops post the same buffers, and fail together.
post_to_srq-post_all :
    (post : Posted → ℕ) (a lkey size n i : ℕ)
    → ((post_to_srq post a lkey size n i).1 ≡ (post_all (as_status post) a lkey size n i).1)
      × (((post_to_srq post a lkey size n i).0 == 0)
          ≡ code_ok (post_all (as_status post) a lkey size n i).0.code)
unfolding post_to_srq post_all
post_to_srq-post_all post a lkey size zero i = (refl, refl)
post_to_srq-post_all post a lkey size (suc n) i =
    ground (arith, post_to_srq-post_all post a lkey size n (i + 1))

-- Two set-ups that end alike: with the same queue, or both with an error, after the same posts, and
-- with the same fate of the memory.
abbrev pub SetUpAlike :
    {Q : Type 0}
    → StatusOr (SharedQueue Q) × List Posted × Bool
    → StatusOr ReceiveQueue × List Posted × Bool
    → Type 0
SetUpAlike (value s, posted, back) (value q, posted', back') =
    (s.queue ≡ q) × (s.queues ≡ []) × (s.running ≡ true) × (posted ≡ posted') × (back ≡ back')
SetUpAlike (status st, posted, back) (status st', posted', back') =
    (posted ≡ posted') × (back ≡ back')
SetUpAlike (value s, posted, back) (status st, posted', back') = ⊥
SetUpAlike (status st, posted, back) (value q, posted', back') = ⊥

-- Once its `ibv_srq` is created, the shared queue is set up as that of a single connection with the
-- same verb answers: the same buffers are posted in the same order, it succeeds and fails with it,
-- has the same fields, no connections and runs, and its memory is given back after the same errors.
pub get_shared_receive_queue-get_receive_queue :
    (Q : Type 0) (srq errno : ℕ) (post : Posted → ℕ) (a lkey size n : ℕ)
    → (srq == 0) ≡ false
    → SetUpAlike {Q = Q}
        (get_shared_receive_queue srq errno post a lkey size n)
        (get_receive_queue (as_status post) a lkey size n)
unfolding get_shared_receive_queue with_posted get_receive_queue
get_shared_receive_queue-get_receive_queue Q srq errno post a lkey size n made =
    let (same, fine) = post_to_srq-post_all post a lkey size n 0 in
    elim (Bool-cases ((post_to_srq post a lkey size n 0).0 == 0)) [
      | inl t ↦ rw (made, t, sym fine ∙ t) (refl, refl, refl, same, refl)
      | inr f ↦ rw (made, f, sym fine ∙ f) (same, refl)
    ]
