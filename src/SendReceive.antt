-- ===== src/SendReceive.antt =====
-- tests/send_recv/send_receive.cpp: messages by send and receive, one connection or many behind one
-- listener.
pub mod Batches
pub mod Contexts
use know_your_memory.Common.{
  ℕ, ◌+◌, ◌*◌, ◌/◌, ◌==◌, ltb, if◌then◌else◌, Option, none, some, List, [], ◌∷◌, Bool, true, false,
}
use know_your_memory.Common.Words.{add64, to_u32, two32}
use know_your_memory.Error.{
  Status, StatusOr, value, status, success, failure, internal, text, wrap, is_ok,
}
use know_your_memory.Endpoint.Requests.{SendRequest, send_request, post_send_raw}
use know_your_memory.Endpoint.Completions.{Completion, Poll, failed, batch}
use know_your_memory.Queue.{ReceiveQueue, Entry, Answer, Given, get_mr, post_mr}
use know_your_memory.Queue.Shared.{post_shared}
use know_your_memory.Write.{SendRegion, ReceiveRegion}

-- The fields of `SendReceiveConnection` that its sends change.
pub record Connection : Type 0 where
  pub ackd_id : ℕ
  pub next_id : ℕ

abbrev pub is_last : List SendRegion → Bool
is_last [] = true
is_last (r ∷ rs) = false

-- The chain of work requests of a batch: only the last one is signaled.
unfoldable pub chain : ℕ → List SendRegion → List SendRequest
chain id [] = []
chain id (r ∷ rs) = send_request id r.lkey r.addr r.length (is_last rs) ∷ chain id rs

-- The result of `SendAsync`, for that of `ibv_post_send`.
abbrev pub answer : ℕ → ℕ → StatusOr ℕ
answer id ret =
    let stat = post_send_raw (λ wr. ret) (send_request 0 0 0 0 true) in
    if is_ok stat then value id else status stat

-- `SendReceiveConnection::SendAsync` for a list of regions: the result, the state, and the chain that
-- is posted. `post` is `ibv_post_send`, which takes the first request and follows the chain. `none`:
-- an empty list, for which the code posts a request that it has not written.
unfoldable pub send_batch :
    (List SendRequest → ℕ)
    → Connection
    → List SendRegion
    → Option (StatusOr ℕ × Connection × List SendRequest)
unfolding chain post_send_raw
send_batch post c [] = none
send_batch post c (r ∷ rs) =
    let wrs = chain c.next_id (r ∷ rs) in
    some (answer c.next_id (post wrs), record c { next_id = add64 c.next_id 1 }, wrs)

-- `SendReceiveConnection::SendAsync` for one region.
unfoldable pub send_one :
    (SendRequest → ℕ) → Connection → SendRegion → StatusOr ℕ × Connection × SendRequest
unfolding post_send_raw
send_one post c r =
    let wr = send_request c.next_id r.lkey r.addr r.length true in
    let stat = post_send_raw post wr in
    (
      if is_ok stat then value c.next_id else status stat,
      record c { next_id = add64 c.next_id 1 },
      wr,
    )

-- `SendReceiveConnection::Wait`, for what `PollSendCq` returns. It keeps the id of the last
-- completion.
unfoldable pub wait_last :
    ℕ → ℕ → List (StatusOr Completion) → Option (Status × ℕ × List (StatusOr Completion))
wait_last ackd_id id [] = if ltb ackd_id id then none else some (success, ackd_id, [])
wait_last ackd_id id (value wc ∷ cs) =
    let again = wait_last wc.wr_id id cs in
    if ltb ackd_id id then again else some (success, ackd_id, value wc ∷ cs)
wait_last ackd_id id (status s ∷ cs) =
    if ltb ackd_id id then some (s, ackd_id, cs) else some (success, ackd_id, status s ∷ cs)

-- The region of a completion, with a context.
abbrev pub received : ReceiveQueue → ℕ → Completion → ReceiveRegion
received q context wc = record {
  context = context;
  addr = (get_mr q (to_u32 wc.wr_id)).addr;
  length = wc.byte_len;
  lkey = none;
}

-- `SendReceiveConnection::Receive`, for what `PollRecvCq` returns.
unfoldable pub receive_one : ReceiveQueue → StatusOr Completion → StatusOr ReceiveRegion
unfolding get_mr
receive_one q (value wc) = value (received q wc.wr_id wc)
receive_one q (status s) =
    status (wrap (text "error while polling recieve queue for receive" ∷ []) s)

-- `SendReceiveConnection::Free` for a region that was received; the context is passed as a
-- `uint32_t`. `post` is `ibv_post_recv`.
unfoldable pub free_one :
    (List Entry → Answer) → ReceiveQueue → ReceiveRegion → Status × ReceiveQueue × Given
unfolding post_mr
free_one post q reg = post_mr post q (to_u32 reg.context)

-- The queues of `SendReceiveListener`: the shared one, if there is one, and those of the queue
-- pairs, by number.
pub record Listener : Type 0 where
  pub srq : Option ReceiveQueue
  pub rqs : ℕ → Option ReceiveQueue

-- `(qp_num << 32) | wr_id`, for a `wr_id` of 32 bits.
abbrev pub pack : ℕ → ℕ → ℕ
pack qp_num wr_id = qp_num * two32 + wr_id

-- The region of a completion in `SendReceiveListener::Receive`. `none`: there is no queue for the
-- queue pair, and the code follows a null pointer.
unfoldable pub listener_region : Listener → Completion → Option ReceiveRegion
unfolding get_mr
listener_region l wc = elim l.srq [
  | some q ↦ some (received q wc.wr_id wc)
  | none ↦ elim (l.rqs wc.qp_num) [
    | some q ↦ some (received q (pack wc.qp_num wc.wr_id) wc)
    | none ↦ none
  ]
]

-- `SendReceiveListener::Receive`: it polls one completion at a time, and does not look at its status.
-- The outer `none`: the answers run out.
unfoldable pub listener_receive :
    Listener → List Poll → Option (StatusOr (Option ReceiveRegion) × List Poll)
unfolding listener_region
listener_receive l [] = none
listener_receive l (failed ∷ rest) =
    some (status (failure internal (text "error polling recv cq\n" ∷ [])), rest)
listener_receive l (batch [] ∷ rest) = listener_receive l rest
listener_receive l (batch (wc ∷ wcs) ∷ rest) = some (value (listener_region l wc), rest)

-- `SendReceiveListener::Free`. `post` is `ibv_post_recv`, and `post_srq` is `ibv_post_srq_recv`.
unfoldable pub listener_free :
    (List Entry → Answer)
    → (List Entry → Answer)
    → Listener
    → ReceiveRegion
    → Option (Status × ReceiveQueue × Given)
unfolding post_mr post_shared
listener_free post post_srq l reg = elim l.srq [
  | some q ↦ some (post_shared post_srq q (to_u32 reg.context))
  | none ↦ elim (l.rqs (to_u32 (reg.context / two32))) [
    | some q ↦ some (post_mr post q (to_u32 reg.context))
    | none ↦ none
  ]
]
