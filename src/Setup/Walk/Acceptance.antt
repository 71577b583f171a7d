-- ===== src/Setup/Walk/Acceptance.antt =====
-- src/endpoint.cpp: `Listener::Accept` from `rdma_accept` on, and as a whole.
use mathlib.Core.Path.{subst}
use know_your_memory.Common.{
  ℕ, false, not, ◌≡◌, refl, Option, none, some, List, ◌∷◌, if◌then◌else◌, length,
}
use know_your_memory.Common.Ints.{is_zero}
use know_your_memory.Setup.Calls.{Rdma, Options, QpInitAttr, rts, get_request, accept}
use know_your_memory.Setup.Effects.{
  World, Post, Post-continue, Post-raise_if, Post-map, returned, perform,
}
use know_your_memory.Setup.QueuePair.{conn_param, copied}
use know_your_memory.Setup.Accept.{finish_accept, accept_connection, get_connection_info}
use know_your_memory.Setup.Walk.{
  nothing, managed, native, joined, join_accepted, join_accepted_managed, Walk, next, IsLegal, ev,
}
use know_your_memory.Setup.Walk.States.{next-idle, passed}
use know_your_memory.Setup.Walk.Server.{
  ready, is_some, HasQp, HasSrq, inlined, accept_qp-Walk, accept_srq-Walk,
}

module _ (os : Rdma) where
  -- What an accepted connection has: `q` is its native queue pair.
  abbrev pub Finished : QpInitAttr → List ℕ → Option ℕ → World → Type 0
  Finished attr info q w =
      Walk os w.calls (joined q)
      × (w.ep.qp ≡ q)
      × HasQp w.id q
      × (w.id.srq ≡ attr.srq)
      × (w.id.recv_cq ≡ attr.recv_cq)
      × (get_connection_info w.ep ≡ (copied info, length info))

  finish_accept-Walk :
      (attr : QpInitAttr) (opts : Options) (info : List ℕ) (q : Option ℕ) (w : World)
      → Walk os w.calls (ready q)
      → Post (λ _ w'. Finished attr info q w') (IsLegal os) (finish_accept os attr opts info q w)
  unfolding finish_accept perform get_connection_info
  finish_accept-Walk attr opts info none w k =
      let c = conn_param opts none in
      let r = os.ret w.calls (accept c) in
      let k1 = next k (join_accepted_managed c r refl) in
      Post-raise_if _ (not (is_zero r)) _ _ (_, k1)
        (λ e. returned _ _ (
          subst (λ z. Walk os (ev (accept c) r ∷ w.calls) (if z then joined none else managed))
              (passed _ e) k1,
          refl,
          tt,
          refl,
          refl,
          refl,
        ))
  finish_accept-Walk attr opts info (some q) w k =
      let c = conn_param opts (some (os.qp_num q)) in
      let r = os.ret w.calls (accept c) in
      let k1 = next k (join_accepted q c r refl) in
      Post-raise_if _ (not (is_zero r)) _ _ (_, k1)
        (λ e. returned _ _ (
          subst
              (λ z.
                Walk os (ev (accept c) r ∷ w.calls)
                  (if z then joined (some q) else native false q (some rts)))
              (passed _ e) k1,
          refl,
          refl,
          refl,
          refl,
          refl,
        ))

  -- What `Listener::Accept` has done when it returns an endpoint: the queue pair, if it is a native
  -- one, and what it read of the event of the request.
  abbrev pub Accepted : Options → List ℕ → World → Type 0
  Accepted opts info w =
      (attr : QpInitAttr) × (q : Option ℕ) × Finished attr info q w
      × (attr.recv_cq ≡ opts.qp_attr.recv_cq)
      × HasSrq opts attr.srq
      × (is_some q ≡ opts.native_qp)
      × (inlined opts ≡ false)

  -- Where no queue pair has been made yet, a run of Accept makes only calls that its queue pair
  -- allows, whatever fails: the states INIT, RTR and RTS in their order, each once, then
  -- `rdma_accept` with the number of this queue pair, or without one for a queue pair of
  -- `rdma_create_qp`. When it returns an endpoint, the connection stands, the endpoint and its id
  -- have the native queue pair, the id has the receive completion queue of the options and their
  -- shared receive queue, or a new one if one was wanted, `GetConnectionInfo` gives the private
  -- data of the request, and the options did not ask for a native queue pair with inline receives.
  pub accept_connection-Walk :
      (lpd : ℕ) (opts : Options) (w : World)
      → Walk os w.calls nothing
      → Post
          (λ _ w'.
            Accepted opts (os.info (ev get_request (os.ret w.calls get_request) ∷ w.calls)) w')
          (IsLegal os)
          (accept_connection os lpd opts w)
  unfolding accept_connection perform
  accept_connection-Walk lpd opts w k =
      let r = os.ret w.calls get_request in
      let k0 = next-idle {os = os} get_request r k refl in
      Post-raise_if _ (not (is_zero r)) _ _ (_, k0)
        (λ _. Post-continue _ (accept_srq-Walk os _ opts _ k0) (λ attr w1 (k1, cq, srq).
          Post-continue _ (accept_qp-Walk os lpd attr opts w1 k1) (λ q w2 (k2, s2, i2, _).
            Post-map (finish_accept-Walk attr opts _ q w2 k2)
              (λ _ w3 done. (attr, q, done, cq, srq, s2, i2)) (λ _ l. l))))
