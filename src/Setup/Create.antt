-- ===== src/Setup/Create.antt =====
-- src/endpoint.cpp: `get_rdma_addr`, `Create`, `Dial` and `Listen`.
use know_your_memory.Common.{
  ℕ, Bool, true, false, not, ◌==◌, if◌then◌else◌, Option, none, some, List, [], ◌∷◌, length,
}
use know_your_memory.Common.Ints.{ℤ, is_zero}
use know_your_memory.Error.{Piece, text, number, failure, invalid_argument, wrap}
use know_your_memory.Setup.Calls.{
  Rdma, Options, Hints, AddrInfo, Chars, CmEvent, addr_resolved, route_resolved, get_addr_info,
  free_addr_info, create_event_channel, create_id, resolve_route, resolve_addr, get_cm_event,
  ack_cm_event, create_ep, listen,
}
use know_your_memory.Setup.Effects.{
  ⊤, M, World, Outcome, returns, fails, aborts, ◌>>=◌, ◌>>◌, pure, gets, raise_if, assert, modify,
  perform, perform_, obtain, errno, internal_error,
}
use know_your_memory.Setup.Accept.{new_endpoint}
use know_your_memory.Setup.Connect.{connect_endpoint}

abbrev pub is_addr_resolved : CmEvent → Bool
is_addr_resolved addr_resolved = true
is_addr_resolved _ = false

abbrev pub is_route_resolved : CmEvent → Bool
is_route_resolved route_resolved = true
is_route_resolved _ = false

-- A status that is passed on with a message in front.
abbrev pub wrapped : Outcome ⊤ × World → List Piece → Outcome ⊤ × World
wrapped (returns a, w) m = (returns a, w)
wrapped (fails s, w) m = (fails (wrap m s), w)
wrapped (aborts, w) m = (aborts, w)

module _ (os : Rdma) where
  -- With a source, it is looked up first, and its address becomes that of the hints.
  unfoldable pub lookup_from : Chars → Option Chars → Option ℕ → Hints → M (ℤ × AddrInfo)
  lookup_from src dst port hints = do
    ret ← perform os (get_addr_info (some src) none (record hints { passive = true }))
    res ← gets (λ w. os.addr_info w.calls)
    if not (is_zero ret) then pure (ret, res) else (do
      ret' ← perform os (
          get_addr_info dst port
            (record { passive = false; source = some (res.ai_src_addr, res.ai_src_len) }))
      rai ← gets (λ w. os.addr_info w.calls)
      perform_ os (free_addr_info res.handle)
      pure (ret', rai))

  -- A look-up without a source.
  unfoldable pub lookup : Option Chars → Option ℕ → Hints → M (ℤ × AddrInfo)
  lookup node port hints = do
    ret ← perform os (get_addr_info node port hints)
    rai ← gets (λ w. os.addr_info w.calls)
    pure (ret, rai)

  -- The part of `get_rdma_addr` without RAI_PASSIVE.
  unfoldable pub lookup_active : Option Chars → Option Chars → Option ℕ → Hints → M (ℤ × AddrInfo)
  unfolding lookup lookup_from
  lookup_active none dst port hints = lookup dst port hints
  lookup_active (some src) dst port hints = lookup_from src dst port hints

  -- `get_rdma_addr`
  unfoldable pub get_rdma_addr : Option Chars → Option Chars → Option ℕ → Hints → M (ℤ × AddrInfo)
  unfolding lookup lookup_active
  get_rdma_addr src dst port hints =
      if hints.passive then lookup src port hints else lookup_active src dst port hints

  -- The id of `Create` where the connection manager makes it.
  unfoldable pub create_managed : ℕ → AddrInfo → M ⊤
  create_managed pd rai = do
    ret ← perform os (create_ep rai.handle pd)
    e ← errno os
    raise_if (not (is_zero ret))
        (internal_error (text "Error " ∷ number e ∷ text " creating endpoint" ∷ []))
    modify (λ w. record w { id = os.new_id w.calls })

  -- The end of `create_manual`: the route to the peer, and the channel of the id.
  unfoldable pub resolve_path : ℕ → M ⊤
  resolve_path channel = do
    r3 ← perform os resolve_route
    e5 ← errno os
    raise_if (not (is_zero r3)) (
        internal_error
          (text "Error " ∷ number e5 ∷ text " resolving route to the remote endpoint" ∷ []))
    perform_ os get_cm_event
    ev2 ← gets (λ w. os.event w.calls)
    e6 ← errno os
    raise_if (not (is_route_resolved ev2))
        (internal_error (text "Error " ∷ number e6 ∷ text " creating id endpoint" ∷ []))
    assert (← gets (λ w. os.event_is_own w.calls))
    perform_ os ack_cm_event
    modify (λ w. record w { id = record w.id { channel = channel } })

  -- The id of `Create` under WITH_MANUAL_RDMACM, step by step.
  unfoldable pub create_manual : AddrInfo → M ⊤
  unfolding resolve_path
  create_manual rai = do
    channel ← obtain os create_event_channel
    e1 ← errno os
    raise_if (channel == 0)
        (internal_error (text "Error " ∷ number e1 ∷ text " creating event channel" ∷ []))
    r1 ← perform os create_id
    e2 ← errno os
    raise_if (not (is_zero r1))
        (internal_error (text "Error " ∷ number e2 ∷ text " creating id endpoint" ∷ []))
    modify (λ w. record w { id = os.new_id w.calls })
    r2 ← perform os (resolve_addr rai.ai_dst_addr)
    e3 ← errno os
    raise_if (not (is_zero r2)) (
        internal_error
          (text "Error " ∷ number e3 ∷ text " resolving addresses to the remote endpoint" ∷ []))
    perform_ os get_cm_event
    ev1 ← gets (λ w. os.event w.calls)
    e4 ← errno os
    raise_if (not (is_addr_resolved ev1))
        (internal_error (text "Error " ∷ number e4 ∷ text " creating id endpoint" ∷ []))
    perform_ os ack_cm_event
    resolve_path channel

  unfoldable pub create_with : Bool → ℕ → AddrInfo → M ⊤
  unfolding create_managed create_manual
  create_with true pd rai = create_manual rai
  create_with false pd rai = create_managed pd rai

  -- `Create`. `manual` is whether WITH_MANUAL_RDMACM is defined.
  unfoldable pub create : Bool → Chars → ℕ → Options → M ⊤
  unfolding get_rdma_addr create_with
  create manual ip port opts = do
    raise_if (length ip == 0) (failure invalid_argument (text "IP cannot be empty" ∷ []))
    (ret, rai) ←
        get_rdma_addr opts.src (some ip) (some port) (record { passive = false; source = none })
    raise_if (not (is_zero ret)) (internal_error (text "Error getting address info" ∷ []))
    create_with manual opts.pd rai
    assert (not ((← gets (λ w. w.id.pd)) == 0))
    perform_ os (free_addr_info rai.handle)
    modify (λ w. record w { ep = new_endpoint none 0 })

  -- `Dial`
  unfoldable pub dial : Bool → Chars → ℕ → Options → M ⊤
  unfolding create connect_endpoint
  dial manual ip port opts = do
    (λ w. wrapped (create manual ip port opts w) (text "error setting up endpoint" ∷ []))
    (λ w. wrapped (connect_endpoint os manual opts w) (text "error connecting endpoint" ∷ []))

  -- `Listen`, after which the id is the listener's.
  unfoldable pub listen_on : Chars → ℕ → M ⊤
  unfolding get_rdma_addr
  listen_on ip port = do
    (ret, rai) ← get_rdma_addr (some ip) none (some port) (record { passive = true; source = none })
    raise_if (not (is_zero ret)) (internal_error (text "Error getting address info" ∷ []))
    ret' ← perform os (create_ep rai.handle 0)
    e ← errno os
    raise_if (not (is_zero ret'))
        (internal_error (text "Error " ∷ number e ∷ text " creating listening endpoint" ∷ []))
    modify (λ w. record w { id = os.new_id w.calls })
    perform_ os (free_addr_info rai.handle)
    ret'' ← perform os (listen 20)
    raise_if (not (is_zero ret'')) (internal_error (text "listening failed" ∷ []))
    assert (not ((← gets (λ w. w.id.pd)) == 0))
