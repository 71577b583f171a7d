-- ===== src/Setup/Connect.antt =====
-- src/endpoint.cpp: `Endpoint::Connect`, with and without WITH_MANUAL_RDMACM.
use know_your_memory.Common.{
  ℕ, Bool, true, false, not, ◌==◌, if◌then◌else◌, Option, none, some, [], ◌∷◌, ◌++◌, length,
}
use know_your_memory.Common.Ints.{is_zero}
use know_your_memory.Error.{text, number}
use know_your_memory.Setup.Calls.{
  Rdma, QpInitAttr, Options, CmEvent, connect_response, established, create_qp, cm_create_qp,
  connect, establish, get_cm_event, ack_cm_event,
}
use know_your_memory.Setup.Effects.{
  ⊤, M, ◌>>=◌, ◌>>◌, pure, gets, raise_if, assert, modify, when, perform, perform_, obtain, errno,
  printed, internal_error,
}
use know_your_memory.Setup.QueuePair.{conn_param, wants_srq, copied, new_srq, bring_up}
use know_your_memory.Setup.Accept.{set_qp}

abbrev pub is_response : CmEvent → Bool
is_response connect_response = true
is_response established = true
is_response _ = false

module _ (os : Rdma) where
  -- A native queue pair before `rdma_connect`: its number. A null pointer is used without a test.
  unfoldable pub connect_native : ℕ → QpInitAttr → M ℕ
  connect_native pd attr = do
    assert (not (attr.send_cq == 0))
    assert (not (attr.recv_cq == 0))
    assert (not (pd == 0))
    qp ← obtain os (create_qp pd attr)
    modify (set_qp qp)
    assert (not (qp == 0))
    modify (λ w. record w { id = record w.id { qp = 0 } })
    pure qp

  -- A queue pair from `rdma_create_qp`, which stores it in the id.
  unfoldable pub connect_managed : ℕ → QpInitAttr → M ⊤
  connect_managed pd attr = do
    ret ← perform os (cm_create_qp pd attr)
    raise_if (not (is_zero ret)) (internal_error (text "dial: error creating qp" ∷ []))
    modify (λ w. record w { id = record w.id { qp = os.cm_qp w.calls } })
    modify (λ w. record w { id = record w.id { srq = attr.srq } })

  -- The shared receive queue that is made where one is wanted is not kept.
  unfoldable pub connect_srq : ℕ → Options → M ⊤
  unfolding new_srq
  connect_srq pd opts = if wants_srq opts then (do new_srq os pd opts; pure tt) else pure tt

  unfoldable pub connect_qp : ℕ → Options → M (Option ℕ)
  unfolding connect_native connect_managed
  connect_qp pd opts =
      if opts.native_qp
      then (do qp ← connect_native pd opts.qp_attr; pure (some qp))
      else (do connect_managed pd opts.qp_attr; pure none)

  -- The event that answers `rdma_connect`, where events are handled by hand.
  unfoldable pub await_response : M ⊤
  await_response = do
    perform_ os get_cm_event
    event ← gets (λ w. os.event w.calls)
    e ← errno os
    raise_if (not (is_response event))
        (internal_error (text "Error " ∷ number e ∷ text " on rdma connect" ∷ []))
    perform_ os ack_cm_event

  -- `rdma_connect`, and what follows under WITH_MANUAL_RDMACM (`manual`).
  unfoldable pub rdma_connect : Bool → Options → Option ℕ → M ⊤
  unfolding await_response
  rdma_connect manual opts qp_num = do
    ret ← perform os (connect (conn_param opts qp_num))
    raise_if (not (is_zero ret)) (
        internal_error
          (text "Error " ∷ printed ret ++ text " connecting to remote in rdma_connect" ∷ []))
    when manual await_response

  -- The end of the function, for a native queue pair.
  unfoldable pub establish_native : ℕ → M ⊤
  unfolding bring_up
  establish_native qp = do
    bring_up os "connect: error " qp
    ret ← perform os establish
    raise_if (not (is_zero ret)) (
        internal_error
          (text "Error " ∷ printed ret ++ text " connecting to remote using rdma_establish" ∷ []))
    modify (λ w. record w { id = record w.id { qp = qp } })

  unfoldable pub finish_native : Option ℕ → M ⊤
  unfolding establish_native
  finish_native none = pure tt
  finish_native (some qp) = establish_native qp

  abbrev pub number_of : Option ℕ → Option ℕ
  number_of none = none
  number_of (some q) = some (os.qp_num q)

  -- `Endpoint::Connect`
  unfoldable pub connect_endpoint : Bool → Options → M ⊤
  unfolding connect_srq connect_qp rdma_connect finish_native
  connect_endpoint manual opts = do
    pd ← gets (λ w. w.id.pd)
    connect_srq pd opts
    qp ← connect_qp pd opts
    rdma_connect manual opts (number_of qp)
    modify (λ w.
        let info = os.info w.calls in
        record w {
          ep = record w.ep { private_data = copied info; private_data_len = length info };
        })
    finish_native qp
