-- ===== src/Setup/Walk/Server.antt =====
-- src/endpoint.cpp: what `Listener::Accept` does with the queue pair of a connection.
use mathlib.Core.Path.{subst}
use know_your_memory.Common.{
  arith, inl, inr, Bool-cases, ℕ, Bool, true, false, not, ◌&&◌, ◌≡◌, refl, ap, Option, none, some,
  ◌∷◌, ◌==◌, if◌then◌else◌,
}
use know_your_memory.Common.Ints.{pos, is_zero}
use know_your_memory.Setup.Calls.{
  Rdma, Options, QpInitAttr, CmId, rts, create_srq, create_qp, cm_create_qp,
}
use know_your_memory.Setup.Effects.{
  ⊤, World, Post, Post-continue, Post-raise_if, Post-assert, returned, perform, obtain, pure,
}
use know_your_memory.Setup.QueuePair.{wants_srq, new_srq}
use know_your_memory.Setup.Accept.{accept_native, accept_managed, accept_qp, accept_srq}
use know_your_memory.Setup.Walk.{
  Phase, nothing, managed, native, create, manage, Walk, next, IsLegal, Same, now, later, ev,
}
use know_your_memory.Setup.Walk.States.{bring_up-Walk, next-idle, passed, Same-trans}

-- The phase in which `rdma_accept` is called.
abbrev pub ready : Option ℕ → Phase
ready none = managed
ready (some q) = native false q (some rts)

abbrev pub is_some : Option ℕ → Bool
is_some none = false
is_some (some q) = true

-- A native queue pair is the id's.
abbrev pub HasQp : CmId → Option ℕ → Type 0
HasQp id none = ⊤
HasQp id (some q) = id.qp ≡ q

-- A new shared receive queue where one is wanted, and that of the options where none is.
abbrev pub HasSrq : Options → ℕ → Type 0
HasSrq opts srq = if wants_srq opts then (srq == 0) ≡ false else srq ≡ opts.qp_attr.srq

-- A native queue pair with inline receives.
abbrev pub inlined : Options → Bool
inlined opts = opts.native_qp && not (opts.inline_recv == 0)

module _ (os : Rdma) where
  -- The queue pair, or the null pointer, that the native branch starts from.
  pub make_qp-Walk :
      (b : Bool) (lpd : ℕ) (attr : QpInitAttr) (w : World)
      → Walk os w.calls nothing
      → Post
          (λ q w'.
            Walk os w'.calls (if q == 0 then nothing else native false q none)
            × Same w w'
            × ((q == 0) ≡ false → b ≡ true))
          (IsLegal os)
          ((if b then obtain os (create_qp lpd attr) else pure 0) w)
  unfolding obtain
  make_qp-Walk true lpd attr w k =
      returned _ _ (next k (create lpd attr _), (refl, refl, later _ _ now), λ _. refl)
  make_qp-Walk false lpd attr w k = returned _ _ (k, (refl, refl, now), λ e. ground arith)

  pub accept_native-Walk :
      (lpd : ℕ) (attr : QpInitAttr) (inline_recv : ℕ) (w : World)
      → Walk os w.calls nothing
      → Post
          (λ q w'.
            Walk os w'.calls (native false q (some rts)) × Same w w' × ((inline_recv == 0) ≡ true))
          (IsLegal os)
          (accept_native os lpd attr inline_recv w)
  unfolding accept_native
  accept_native-Walk lpd attr inline_recv w k =
      Post-assert _ (not (attr.send_cq == 0)) _ (_, k)
        (λ _.
          Post-assert _ (not (attr.recv_cq == 0)) _ (_, k)
            (λ _.
              Post-assert _ (not (lpd == 0)) _ (_, k)
                (λ _.
                  Post-continue _ (make_qp-Walk (inline_recv == 0) lpd attr w k)
                    (λ q w1 (k1, s1, inl0).
                      Post-raise_if _ (q == 0) _ _ (_, k1)
                        (λ e.
                          Post-continue _
                            (bring_up-Walk os "accept: error " false q w1 (
                              subst
                                (λ z. Walk os w1.calls (if z then nothing else native false q none))
                                e k1))
                            (λ _ w2 (k2, s2).
                              returned _ _ (k2, Same-trans os w w1 w2 s1 s2, inl0 e)))))))

  pub accept_managed-Walk :
      (lpd : ℕ) (attr : QpInitAttr) (w : World)
      → Walk os w.calls nothing
      → Post
          (λ _ w'. Walk os w'.calls managed × (w'.ep ≡ w.ep))
          (IsLegal os)
          (accept_managed os lpd attr w)
  unfolding accept_managed perform
  accept_managed-Walk lpd attr w k =
      let r = os.ret w.calls (cm_create_qp lpd attr) in
      let k1 = next k (manage lpd attr r) in
      Post-raise_if _ (not (is_zero r)) _ _ (_, k1)
        (λ e. returned _ _ (
          subst
              (λ z.
                Walk os (ev (cm_create_qp lpd attr) r ∷ w.calls) (if z then managed else nothing))
              (passed _ e) k1,
          refl,
        ))

  pub accept_qp-Walk :
      (lpd : ℕ) (attr : QpInitAttr) (opts : Options) (w : World)
      → Walk os w.calls nothing
      → Post
          (λ q w'.
            Walk os w'.calls (ready q)
            × (is_some q ≡ opts.native_qp)
            × (inlined opts ≡ false)
            × (w'.ep ≡ w.ep))
          (IsLegal os)
          (accept_qp os lpd attr opts w)
  unfolding accept_qp
  accept_qp-Walk lpd attr opts w k = elim (Bool-cases opts.native_qp) [
    | inl t ↦ rw t (
        Post-continue _ (accept_native-Walk lpd attr opts.inline_recv w k)
          (λ q w1 (k1, s1, i1). returned _ _ (k1, refl, ap not i1, s1.1)))
    | inr f ↦ rw f (
        Post-continue _ (accept_managed-Walk lpd attr w k)
          (λ _ w1 (k1, s1). returned _ _ (k1, refl, refl, s1)))
  ]

  -- A shared receive queue that is made is not null.
  pub new_srq-Walk :
      (pd : ℕ) (opts : Options) (w : World) (p : Phase)
      → Walk os w.calls p
      → Post
          (λ srq w'. Walk os w'.calls p × Same w w' × ((srq == 0) ≡ false))
          (IsLegal os)
          (new_srq os pd opts w)
  unfolding new_srq obtain
  new_srq-Walk pd opts w p k =
      let c = create_srq pd opts.qp_attr.cap.max_recv_sge opts.qp_attr.cap.max_recv_wr in
      let q = os.pointer w.calls c in
      let k1 = next-idle {os = os} c (pos q) k refl in
      Post-raise_if _ (q == 0) _ _ (_, k1) (λ e. returned _ _ (k1, (refl, refl, later _ _ now), e))

  pub accept_srq-Walk :
      (pd : ℕ) (opts : Options) (w : World)
      → Walk os w.calls nothing
      → Post
          (λ attr w'.
            Walk os w'.calls nothing × (attr.recv_cq ≡ opts.qp_attr.recv_cq) × HasSrq opts attr.srq)
          (IsLegal os)
          (accept_srq os pd opts w)
  unfolding accept_srq
  accept_srq-Walk pd opts w k = elim (Bool-cases (wants_srq opts)) [
    | inl t ↦ rw t (
        Post-continue _ (new_srq-Walk pd opts w nothing k)
          (λ srq w1 (k1, s1, e). returned _ _ (k1, refl, e)))
    | inr f ↦ rw f (returned _ _ (k, refl, refl))
  ]
