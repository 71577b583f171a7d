-- ===== src/Setup/Accept.antt =====
-- src/endpoint.cpp: `Listener::Accept`, the endpoint's constructor and `SetQp`, and what the two
-- classes read of their ids.
use know_your_memory.Common.{
  ℕ, Bool, true, false, not, ◌==◌, if◌then◌else◌, Option, none, some, List, [], ◌∷◌, ◌++◌, length,
}
use know_your_memory.Common.Ints.{is_zero}
use know_your_memory.Error.{text}
use know_your_memory.Setup.Calls.{
  Rdma, QpInitAttr, Options, get_request, create_qp, cm_create_qp, accept, disconnect, destroy_ep,
  destroy_id, free_private_data, free_recv_wcs,
}
use know_your_memory.Setup.Effects.{
  ⊤, M, World, Endpoint, ◌>>=◌, ◌>>◌, pure, gets, raise_if, assert, modify, when, perform, perform_,
  obtain, printed, internal_error,
}
use know_your_memory.Setup.QueuePair.{conn_param, wants_srq, copied, new_srq, bring_up}

-- `Endpoint::Endpoint`: `qp_` is not set.
abbrev pub new_endpoint : Option (List ℕ) → ℕ → Endpoint
new_endpoint info len = record {
  private_data = info;
  private_data_len = len;
  qp = none;
  recv = record { current_rcv_wc = 0; polled_rcv_wc = 0; recv_wcs = [] };
}

-- `Endpoint::SetQp`
abbrev pub set_qp : ℕ → World → World
set_qp qp w = record w { id = record w.id { qp = qp }; ep = record w.ep { qp = some qp } }

-- `Endpoint::GetConnectionInfo`
unfoldable pub get_connection_info : Endpoint → Option (List ℕ) × ℕ
get_connection_info ep = (ep.private_data, ep.private_data_len)

-- `Endpoint::GetContext`, and `Listener::GetContext` of the listener's id.
unfoldable pub get_context : World → ℕ
get_context w = w.id.verbs

-- `Endpoint::GetPd`
unfoldable pub get_endpoint_pd : World → ℕ
get_endpoint_pd w = w.id.pd

-- `Endpoint::GetSRQ`
unfoldable pub get_endpoint_srq : World → ℕ
get_endpoint_srq w = w.id.srq

-- `Endpoint::GetSendCQ`
unfoldable pub get_send_cq : World → ℕ
get_send_cq w = w.id.send_cq

-- `Endpoint::GetRecvCQ`
unfoldable pub get_recv_cq : World → ℕ
get_recv_cq w = w.id.recv_cq

module _ (os : Rdma) where
  -- `Endpoint::GetQpNum`
  unfoldable pub get_qp_num : World → ℕ
  get_qp_num w = os.qp_num w.id.qp

  -- The branch for a native queue pair, up to its number; `lpd` is the listener's `pd`. With
  -- `inline_recv` the call that would create the queue pair is commented out.
  unfoldable pub accept_native : ℕ → QpInitAttr → ℕ → M ℕ
  unfolding bring_up
  accept_native lpd attr inline_recv = do
    assert (not (attr.send_cq == 0))
    assert (not (attr.recv_cq == 0))
    assert (not (lpd == 0))
    qp ← if inline_recv == 0 then obtain os (create_qp lpd attr) else pure 0
    raise_if (qp == 0)
        (internal_error (text "accept: error " ∷ text "0" ∷ text " creating native qp" ∷ []))
    bring_up os "accept: error " qp
    pure qp

  -- The branch for `rdma_create_qp`, which stores the queue pair in the id.
  unfoldable pub accept_managed : ℕ → QpInitAttr → M ⊤
  accept_managed lpd attr = do
    ret ← perform os (cm_create_qp lpd attr)
    raise_if (not (is_zero ret))
        (internal_error (text "accept: error " ∷ printed ret ++ text " getting creating qp" ∷ []))
    modify (λ w. record w { id = record w.id { qp = os.cm_qp w.calls } })

  -- The queue pair: a native one, or a null pointer.
  unfoldable pub accept_qp : ℕ → QpInitAttr → Options → M (Option ℕ)
  unfolding accept_native accept_managed
  accept_qp lpd attr opts =
      if opts.native_qp
      then (do qp ← accept_native lpd attr opts.inline_recv; pure (some qp))
      else (do accept_managed lpd attr; pure none)

  abbrev pub set_native : Option ℕ → M ⊤
  set_native none = pure tt
  set_native (some qp) = modify (set_qp qp)

  -- From the queue pair on.
  unfoldable pub finish_accept : QpInitAttr → Options → List ℕ → Option ℕ → M ⊤
  finish_accept attr opts info qp = do
    ret ← perform os (accept (conn_param opts (number_of qp)))
    raise_if (not (is_zero ret))
        (internal_error (text "accept: error " ∷ printed ret ++ text " accepting connection" ∷ []))
    modify (λ w. record w { id = record w.id { srq = attr.srq; recv_cq = attr.recv_cq } })
    modify (λ w. record w { ep = new_endpoint (copied info) (length info) })
    set_native qp
    where
      number_of : Option ℕ → Option ℕ
      number_of none = none
      number_of (some q) = some (os.qp_num q)

  -- The attributes of the queue pair, with a new shared receive queue where one is wanted.
  unfoldable pub accept_srq : ℕ → Options → M QpInitAttr
  unfolding new_srq
  accept_srq pd opts =
      if wants_srq opts
      then (do srq ← new_srq os pd opts; pure (record opts.qp_attr { srq = srq }))
      else pure opts.qp_attr

  -- `Listener::Accept`, of a listener whose id has the protection domain `lpd`.
  unfoldable pub accept_connection : ℕ → Options → M ⊤
  unfolding accept_srq accept_qp finish_accept
  accept_connection lpd opts = do
    ret ← perform os get_request
    raise_if (not (is_zero ret)) (internal_error (text "accept: error getting connection id" ∷ []))
    modify (λ w. record w { id = os.new_id w.calls })
    info ← gets (λ w. os.info w.calls)
    pd ← gets (λ w. w.id.pd)
    attr ← accept_srq pd opts
    qp ← accept_qp lpd attr opts
    finish_accept attr opts info qp

  -- `Endpoint::Close`
  unfoldable pub close_endpoint : M ⊤
  close_endpoint = do
    ret ← perform os disconnect
    raise_if (not (is_zero ret)) (internal_error (text "error disconnecting endpoint" ∷ []))

  -- `Endpoint::~Endpoint`
  unfoldable pub delete_endpoint : M ⊤
  delete_endpoint = do
    info ← gets (λ w. w.ep.private_data)
    when (has info) (perform_ os free_private_data)
    perform_ os free_recv_wcs
    perform_ os destroy_ep
    where
      has : Option (List ℕ) → Bool
      has none = false
      has (some _) = true

  -- `Listener::Close`
  unfoldable pub close_listener : M ⊤
  close_listener = do
    ret ← perform os destroy_id
    raise_if (not (is_zero ret)) (internal_error (text "error destroying listener" ∷ []))

  -- `Listener::GetPd`
  unfoldable pub get_pd : M ℕ
  get_pd = do pd ← gets (λ w. w.id.pd); assert (not (pd == 0)); pure pd
