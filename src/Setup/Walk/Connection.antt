-- ===== src/Setup/Walk/Connection.antt =====
-- src/endpoint.cpp: `Endpoint::Connect` from `rdma_connect` on, and as a whole.
use mathlib.Core.Path.{subst}
use know_your_memory.Common.{
  ℕ, Bool, true, false, not, ◌≡◌, refl, ap, ◌∙◌, Option, none, some, List, ◌∷◌, if◌then◌else◌,
  length,
}
use know_your_memory.Common.Ints.{is_zero}
use know_your_memory.Setup.Calls.{
  Rdma, Event, Options, rts, connect, establish, get_cm_event, ack_cm_event,
}
use know_your_memory.Setup.Effects.{
  World, Post, Post-continue, Post-raise_if, Post-map, returned, perform, perform_, when,
}
use know_your_memory.Setup.QueuePair.{conn_param, copied}
use know_your_memory.Setup.Accept.{get_connection_info}
use know_your_memory.Setup.Connect.{
  rdma_connect, is_response, establish_native, connect_endpoint, number_of, await_response,
  finish_native,
}
use know_your_memory.Setup.Walk.{
  Phase, nothing, native, joined, join_established, Walk, next, IsLegal, Same, After, now, later,
  ev,
}
use know_your_memory.Setup.Walk.States.{bring_up-Walk, next-idle, passed, Same-trans}
use know_your_memory.Setup.Walk.Server.{is_some, HasQp}
use know_your_memory.Setup.Walk.Client.{
  unasked, asked, Equipped, connect_qp-Walk, connect_srq-Walk, ask-Walk,
}

module _ (os : Rdma) where
  await_response-Walk :
      (manual : Bool) (p : Phase) (w : World)
      → Walk os w.calls p
      → Post
          (λ _ w'. Walk os w'.calls p × Same w w')
          (IsLegal os)
          (when manual (await_response os) w)
  unfolding await_response perform perform_
  await_response-Walk false p w k = returned _ _ (k, (refl, refl, now))
  await_response-Walk true p w k =
      let r = os.ret w.calls get_cm_event in
      let k1 = next-idle {os = os} get_cm_event r k refl in
      let es = ev get_cm_event r ∷ w.calls in
      Post-raise_if _ (not (is_response (os.event es))) _ _ (_, k1)
        (λ _. returned _ _ (
          next-idle ack_cm_event (os.ret es ack_cm_event) k1 refl,
          (refl, refl, later _ _ (later _ _ now)),
        ))

  rdma_connect-Walk :
      (manual : Bool) (opts : Options) (q : Option ℕ) (w : World)
      → Walk os w.calls (unasked q)
      → Post
          (λ _ w'. Walk os w'.calls (asked q) × Same w w')
          (IsLegal os)
          (rdma_connect os manual opts (number_of os q) w)
  unfolding rdma_connect perform
  rdma_connect-Walk manual opts q w k =
      let c = connect (conn_param opts (number_of os q)) in
      let r = os.ret w.calls c in
      let k1 = ask-Walk os opts q r w k in
      let w1 : World = record w { calls = ev c r ∷ w.calls } in
      Post-raise_if _ (not (is_zero r)) _ _ (_, k1)
        (λ e.
          Post-map
            (await_response-Walk manual (asked q) w1
              (subst (λ z. Walk os w1.calls (if z then asked q else unasked q)) (passed _ e) k1))
            (λ _ w2 (k2, s2). (k2, Same-trans os w w1 w2 (refl, refl, later _ _ now) s2))
            (λ _ l. l))

  establish_native-Walk :
      (q : ℕ) (w : World)
      → Walk os w.calls (native true q none)
      → Post
          (λ _ w'.
            Walk os w'.calls (joined (some q))
            × (w'.ep ≡ w.ep)
            × (w'.id.qp ≡ q)
            × After w.calls w'.calls)
          (IsLegal os)
          (establish_native os q w)
  unfolding establish_native perform
  establish_native-Walk q w k =
      Post-continue _ (bring_up-Walk os "connect: error " true q w k) (λ _ w1 (k1, s1).
        let r = os.ret w1.calls establish in
        let k2 = next k1 (join_established q r) in
        Post-raise_if _ (not (is_zero r)) _ _ (_, k2)
          (λ e. returned _ _ (
            subst
                (λ z.
                  Walk os (ev establish r ∷ w1.calls)
                    (if z then joined (some q) else native true q (some rts)))
                (passed _ e) k2,
            s1.1,
            refl,
            later _ _ s1.2,
          )))

  -- What `Endpoint::Connect` has done when it succeeds; `es` are the calls before the private data
  -- are read.
  abbrev pub Connected : Options → World → Type 0
  Connected opts w =
      (q : Option ℕ) × (es : List Event) × Walk os w.calls (joined q)
      × Walk os es (asked q)
      × After es w.calls
      × Equipped os opts.qp_attr q w
      × HasQp w.id q
      × (is_some q ≡ opts.native_qp)
      × (get_connection_info w.ep ≡ (copied (os.info es), length (os.info es)))

  finish_native-Walk :
      (opts : Options) (q : Option ℕ) (w : World)
      → Walk os w.calls (asked q)
      → Equipped os opts.qp_attr q w
      → is_some q ≡ opts.native_qp
      → get_connection_info w.ep ≡ (copied (os.info w.calls), length (os.info w.calls))
      → Post (λ _ w'. Connected opts w') (IsLegal os) (finish_native os q w)
  unfolding finish_native
  finish_native-Walk opts none w k e n g = returned _ _ (none, _, k, k, now, e, tt, n, g)
  finish_native-Walk opts (some q) w k e n g =
      Post-map (establish_native-Walk q w k)
        (λ _ w1 (k1, same, id_qp, a). (
          some q,
          w.calls,
          k1,
          k,
          a,
          ap (λ z. z.qp) same ∙ e,
          id_qp,
          n,
          ap get_connection_info same ∙ g,
        ))
        (λ _ l. l)

  -- Where no queue pair has been made yet, a run of Connect makes only calls that its queue pair
  -- allows, whatever fails: a native one is announced by its number with `rdma_connect`, then moved
  -- to INIT, RTR and RTS in their order, each once, before `rdma_establish`; one of
  -- `rdma_create_qp` is announced without a number. When it succeeds, the connection stands, a
  -- native queue pair is the endpoint's and its id's, with one of `rdma_create_qp` the id has the
  -- shared receive queue of the options, and `GetConnectionInfo` gives the private data that the id's
  -- event brought after `rdma_connect` and before the queue pair was moved.
  pub connect_endpoint-Walk :
      (manual : Bool) (opts : Options) (w : World)
      → Walk os w.calls nothing
      → Post (λ _ w'. Connected opts w') (IsLegal os) (connect_endpoint os manual opts w)
  unfolding connect_endpoint get_connection_info
  connect_endpoint-Walk manual opts w k =
      Post-continue _ (connect_srq-Walk os w.id.pd opts w k) (λ _ w1 k1.
        Post-continue _ (connect_qp-Walk os w.id.pd opts w1 k1) (λ q w2 (k2, e2, n2).
          Post-continue _ (rdma_connect-Walk manual opts q w2 k2) (λ _ w3 (k3, s3).
            let info = os.info w3.calls in
            let w4 : World = record w3 {
              ep = record w3.ep { private_data = copied info; private_data_len = length info };
            } in
            finish_native-Walk opts q w4 k3 (keeps q w2 w3 info s3 e2) n2 refl)))
    where
      keeps :
          (q : Option ℕ) (w2 w3 : World) (info : List ℕ)
          → Same w2 w3
          → Equipped os opts.qp_attr q w2
          → Equipped os opts.qp_attr q (record w3 {
            ep = record w3.ep { private_data = copied info; private_data_len = length info };
          })
      keeps none w2 w3 info (i, _, _) e = ap (λ z. z.srq) i ∙ e
      keeps (some q) w2 w3 info (_, i, _) e = ap (λ z. z.qp) i ∙ e
