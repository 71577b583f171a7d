-- ===== src/Setup/Walk/Client.antt =====
-- src/endpoint.cpp: what `Endpoint::Connect` does with the queue pair of a connection.
use mathlib.Core.Path.{subst}
use know_your_memory.Common.{
  arith, ℕ, Bool, true, false, not, ◌≡◌, refl, Option, none, some, ◌∷◌, ◌==◌, inl, inr, Bool-cases,
  if◌then◌else◌,
}
use know_your_memory.Common.Ints.{ℤ, pos, is_zero}
use know_your_memory.Setup.Calls.{Rdma, Options, QpInitAttr, create_qp, cm_create_qp, connect}
use know_your_memory.Setup.Effects.{
  World, Post, Post-continue, Post-raise_if, Post-assert, returned, perform, obtain,
}
use know_your_memory.Setup.QueuePair.{conn_param, wants_srq}
use know_your_memory.Setup.Connect.{
  connect_native, connect_managed, connect_srq, connect_qp, number_of,
}
use know_your_memory.Setup.Walk.{
  Phase, nothing, managed, native, joined, create, manage, ask, join_connected, Walk, next, IsLegal,
  ev,
}
use know_your_memory.Setup.Walk.States.{passed}
use know_your_memory.Setup.Walk.Server.{is_some, new_srq-Walk}

-- The phases in which `rdma_connect` is called and after it.
abbrev pub unasked : Option ℕ → Phase
unasked none = managed
unasked (some q) = native false q none

abbrev pub asked : Option ℕ → Phase
asked none = joined none
asked (some q) = native true q none

module _ (os : Rdma) where
  pub connect_native-Walk :
      (pd : ℕ) (attr : QpInitAttr) (w : World)
      → Walk os w.calls nothing
      → Post
          (λ q w'. Walk os w'.calls (native false q none) × (w'.ep.qp ≡ some q))
          (IsLegal os)
          (connect_native os pd attr w)
  unfolding connect_native obtain
  connect_native-Walk pd attr w k =
      let q = os.pointer w.calls (create_qp pd attr) in
      let k1 = next k (create pd attr q) in
      Post-assert _ (not (attr.send_cq == 0)) _ (_, k)
        (λ _.
          Post-assert _ (not (attr.recv_cq == 0)) _ (_, k)
            (λ _.
              Post-assert _ (not (pd == 0)) _ (_, k)
                (λ _.
                  Post-assert _ (not (q == 0)) _ (_, k1)
                    (λ e. returned _ _ (
                      subst
                          (λ z.
                            Walk os (ev (create_qp pd attr) (pos q) ∷ w.calls)
                              (if z then nothing else native false q none))
                          (rejected _ e) k1,
                      refl,
                    )))))
    where
      rejected : (b : Bool) → not b ≡ true → b ≡ false
      rejected b e = ground arith

  pub connect_managed-Walk :
      (pd : ℕ) (attr : QpInitAttr) (w : World)
      → Walk os w.calls nothing
      → Post
          (λ _ w'. Walk os w'.calls managed × (w'.id.srq ≡ attr.srq))
          (IsLegal os)
          (connect_managed os pd attr w)
  unfolding connect_managed perform
  connect_managed-Walk pd attr w k =
      let r = os.ret w.calls (cm_create_qp pd attr) in
      let k1 = next k (manage pd attr r) in
      Post-raise_if _ (not (is_zero r)) _ _ (_, k1)
        (λ e. returned _ _ (
          subst
              (λ z.
                Walk os (ev (cm_create_qp pd attr) r ∷ w.calls) (if z then managed else nothing))
              (passed _ e) k1,
          refl,
        ))

  -- The endpoint has its native queue pair, the id the shared receive queue of a managed one.
  abbrev pub Equipped : QpInitAttr → Option ℕ → World → Type 0
  Equipped attr none w = w.id.srq ≡ attr.srq
  Equipped attr (some q) w = w.ep.qp ≡ some q

  pub connect_qp-Walk :
      (pd : ℕ) (opts : Options) (w : World)
      → Walk os w.calls nothing
      → Post
          (λ q w'.
            Walk os w'.calls (unasked q)
            × Equipped opts.qp_attr q w'
            × (is_some q ≡ opts.native_qp))
          (IsLegal os)
          (connect_qp os pd opts w)
  unfolding connect_qp
  connect_qp-Walk pd opts w k = elim (Bool-cases opts.native_qp) [
    | inl t ↦ rw t (
        Post-continue _ (connect_native-Walk pd opts.qp_attr w k)
          (λ q w1 (k1, e1). returned _ _ (k1, e1, refl)))
    | inr f ↦ rw f (
        Post-continue _ (connect_managed-Walk pd opts.qp_attr w k)
          (λ _ w1 (k1, e1). returned _ _ (k1, e1, refl)))
  ]

  pub connect_srq-Walk :
      (pd : ℕ) (opts : Options) (w : World)
      → Walk os w.calls nothing
      → Post (λ _ w'. Walk os w'.calls nothing) (IsLegal os) (connect_srq os pd opts w)
  unfolding connect_srq
  connect_srq-Walk pd opts w k = elim (Bool-cases (wants_srq opts)) [
    | inl t ↦
        rw t (
          Post-continue _ (new_srq-Walk os pd opts w nothing k)
            (λ _ w1 (k1, _, _). returned _ _ k1))
    | inr f ↦ rw f (returned _ _ k)
  ]

  -- `rdma_connect` itself.
  pub ask-Walk :
      (opts : Options) (q : Option ℕ) (r : ℤ) (w : World)
      → Walk os w.calls (unasked q)
      → let es = ev (connect (conn_param opts (number_of os q))) r ∷ w.calls in
        Walk os es (if is_zero r then asked q else unasked q)
  ask-Walk opts none r w k = next k (join_connected (conn_param opts none) r refl)
  ask-Walk opts (some q) r w k = next k (ask q (conn_param opts (some (os.qp_num q))) r refl)
