-- ===== src/Setup/QueuePair.antt =====
-- src/endpoint.cpp: the parts that `Listener::Accept` and `Endpoint::Connect` share: parameters,
-- shared receive queues, private data, and a native queue pair's way to its state RTS.
use Prim.Native.String.{String}
use know_your_memory.Common.{
  ℕ, Bool, not, ◌==◌, ◌&&◌, if◌then◌else◌, Option, none, some, List, [], ◌∷◌, ◌++◌, length,
}
use know_your_memory.Common.Ints.{is_zero}
use know_your_memory.Error.{text, number}
use know_your_memory.Setup.Calls.{
  Rdma, Options, ConnParam, QpState, init, rtr, rts, create_srq, init_qp_attr, modify_qp,
}
use know_your_memory.Setup.Effects.{
  ⊤, M, ◌>>=◌, ◌>>◌, pure, raise_if, perform, obtain, errno, printed, internal_error,
}

-- The fields of `conn_param` that both functions fill.
abbrev pub conn_param : Options → Option ℕ → ConnParam
conn_param opts qp_num = record {
  responder_resources = opts.responder_resources;
  initiator_depth = opts.initiator_depth;
  retry_count = opts.retry_count;
  rnr_retry_count = opts.rnr_retry_count;
  private_data = opts.private_data;
  private_data_len = opts.private_data_len;
  flow_control = opts.flow_control;
  qp_num = qp_num;
}

abbrev pub wants_srq : Options → Bool
wants_srq opts = opts.use_srq && (opts.qp_attr.srq == 0)

abbrev pub state_name : QpState → String
state_name init = "INIT"
state_name rtr = "RTR"
state_name rts = "RTS"

-- The copy of the private data of an event: a null pointer if there are none.
abbrev pub copied : List ℕ → Option (List ℕ)
copied data_ = if length data_ == 0 then none else some data_

module _ (os : Rdma) where
  -- `ibv_create_srq` for the capabilities of the options.
  unfoldable pub new_srq : ℕ → Options → M ℕ
  new_srq pd opts = do
    srq ← obtain os (create_srq pd opts.qp_attr.cap.max_recv_sge opts.qp_attr.cap.max_recv_wr)
    e ← errno os
    raise_if (srq == 0) (internal_error (text "error " ∷ number e ∷ text " creating ibv_srq" ∷ []))
    pure srq

  -- One of the three blocks: the attributes for a state, then the queue pair is moved there.
  unfoldable pub set_state : String → ℕ → QpState → M ⊤
  set_state who qp st = do
    ret ← perform os (init_qp_attr st)
    raise_if (not (is_zero ret)) (
        internal_error
          (text who ∷ printed ret ++ text " getting attr qp on " ∷ text (state_name st) ∷ []))
    ret' ← perform os (modify_qp qp st)
    raise_if (not (is_zero ret')) (
        internal_error
          (text who ∷ printed ret' ++ text " setting attr qp to " ∷ text (state_name st) ∷ []))

  -- The three blocks.
  unfoldable pub bring_up : String → ℕ → M ⊤
  unfolding set_state
  bring_up who qp = do set_state who qp init; set_state who qp rtr; set_state who qp rts
