-- ===== src/Endpoint/Completions.antt =====
-- src/endpoint.cpp: polling the completion queues. The answers of `ibv_poll_cq` are an argument, a
-- list of what each call returns; a method returns the answers that it has left.
use know_your_memory.Common.{
  ℕ, ◌+◌, ◌==◌, if◌then◌else◌, Option, none, some, List, [], ◌∷◌, ◌++◌, length, drop, get_elem?,
}
use know_your_memory.Error.{
  Status, StatusOr, Piece, value, status, failure, internal, not_found, text, number,
}

-- `ibv_wc`. `wc_error` is its `status` as a number, 0 for success.
pub record Completion : Type 0 where
  pub wr_id : ℕ
  pub wc_error : ℕ
  pub byte_len : ℕ
  pub imm_data : ℕ
  pub qp_num : ℕ

-- One call of `ibv_poll_cq`: a negative result, or the completions that it stored.
pub data Poll : Type 0 where
  failed : Poll
  batch : List Completion → Poll

-- The fields of `Endpoint` that the receive queue's methods use.
pub record RecvState : Type 0 where
  pub current_rcv_wc : ℕ
  pub polled_rcv_wc : ℕ
  pub recv_wcs : List Completion

-- `ibv_wc_status_str` is a parameter.
abbrev pub wc_failure : (ℕ → List Piece) → List Piece → Completion → Status
wc_failure str m wc = failure internal (text "error " ∷ number wc.wc_error ∷ m ++ str wc.wc_error)

-- What the array holds after a call of `ibv_poll_cq` that stored `wcs`.
abbrev pub store : List Completion → List Completion → List Completion
store wcs old = wcs ++ drop (length wcs) old

abbrev pub stored : RecvState → List Completion → RecvState
stored s wcs = record {
  current_rcv_wc = 0;
  polled_rcv_wc = length wcs;
  recv_wcs = store wcs s.recv_wcs;
}

module _ (str : ℕ → List Piece) where
  -- A completion that is taken: its value, or the status of its error.
  abbrev pub judge : Completion → StatusOr Completion
  judge wc =
      if wc.wc_error == 0
      then value wc
      else status (wc_failure str (text " polling recv cq\n" ∷ []) wc)

  abbrev pub deliver : RecvState → Option Completion → Option (StatusOr Completion × RecvState)
  deliver s none = none
  deliver s (some wc) = some (judge wc, record s { current_rcv_wc = s.current_rcv_wc + 1 })

  -- The end of both methods: the next completion of the array (`none`: past the array).
  unfoldable pub take_next : RecvState → Option (StatusOr Completion × RecvState)
  take_next s = deliver s (get_elem? s.recv_wcs s.current_rcv_wc)

  abbrev pub finish : RecvState → List Poll → Option (StatusOr Completion × RecvState × List Poll)
  finish s answers = elim (take_next s) [ none ↦ none | some (r, s') ↦ some (r, s', answers) ]

  abbrev pub poll_failure : StatusOr Completion
  poll_failure = status (failure internal (text "error polling recv cq\n" ∷ []))

  -- `Endpoint::PollRecvCq`; `none` where the answers run out while it spins.
  unfoldable pub poll_recv_cq :
      RecvState → List Poll → Option (StatusOr Completion × RecvState × List Poll)
  poll_recv_cq s [] = if s.current_rcv_wc == s.polled_rcv_wc then none else finish s []
  poll_recv_cq s (failed ∷ rest) =
      if s.current_rcv_wc == s.polled_rcv_wc
      then some (poll_failure, s, rest)
      else finish s (failed ∷ rest)
  poll_recv_cq s (batch wcs ∷ rest) =
      let again = poll_recv_cq (stored s wcs) rest in
      if s.current_rcv_wc == s.polled_rcv_wc then again else finish s (batch wcs ∷ rest)

  -- `Endpoint::PollRecvCqOnce`, which makes one call at most.
  unfoldable pub poll_recv_cq_once :
      RecvState → List Poll → Option (StatusOr Completion × RecvState × List Poll)
  poll_recv_cq_once s [] = if s.current_rcv_wc == s.polled_rcv_wc then none else finish s []
  poll_recv_cq_once s (failed ∷ rest) =
      if s.current_rcv_wc == s.polled_rcv_wc
      then some (poll_failure, s, rest)
      else finish s (failed ∷ rest)
  poll_recv_cq_once s (batch [] ∷ rest) =
      if s.current_rcv_wc == s.polled_rcv_wc
      then some (status (failure not_found (text "nothing recieved in recv cq" ∷ [])), s, rest)
      else finish s (batch [] ∷ rest)
  poll_recv_cq_once s (batch (wc ∷ wcs) ∷ rest) =
      if s.current_rcv_wc == s.polled_rcv_wc
      then finish (stored s (wc ∷ wcs)) rest
      else finish s (batch (wc ∷ wcs) ∷ rest)

-- `Endpoint::PollSendCq`: it leaves its loop on the first call that does not return 0, and then reads
-- the completion, which a failed call has not stored: `undefined`.
pub data Sent : Type 0 where
  spins : Sent
  undefined : Sent
  returns : StatusOr Completion → List Poll → Sent

module _ (str : ℕ → List Piece) where
  unfoldable pub poll_send_cq : List Poll → Sent
  poll_send_cq [] = spins
  poll_send_cq (failed ∷ rest) = undefined
  poll_send_cq (batch [] ∷ rest) = poll_send_cq rest
  poll_send_cq (batch (wc ∷ wcs) ∷ rest) =
      if wc.wc_error == 0
      then returns (value wc) rest
      else returns
          (status (
            wc_failure str (text " polling send cq for wr " ∷ number wc.wr_id ∷ text " \n" ∷ [])
              wc))
          rest

  -- `Endpoint::PollSendCqOnce`: it does not look at the completion's status, and reads the
  -- completion after a failed call for its message.
  unfoldable pub poll_send_cq_once : Poll → Sent
  poll_send_cq_once failed = undefined
  poll_send_cq_once (batch []) =
      returns (status (failure not_found (text "nothing recieved in send cq" ∷ []))) []
  poll_send_cq_once (batch (wc ∷ wcs)) = returns (value wc) []
