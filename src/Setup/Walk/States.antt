-- ===== src/Setup/Walk/States.antt =====
-- src/endpoint.cpp: the calls that a native queue pair needs on its way to RTS.
use mathlib.Core.Path.{subst}
use Prim.Native.String.{String}
use know_your_memory.Common.{
  arith, ℕ, Bool, true, false, not, ◌≡◌, refl, none, some, List, ◌∷◌, if◌then◌else◌,
}
use know_your_memory.Common.Ints.{ℤ, is_zero}
use know_your_memory.Setup.Calls.{
  Rdma, Event, Call, QpState, init, rtr, rts, modify_qp, init_qp_attr,
}
use know_your_memory.Setup.Effects.{
  World, Post, Post-continue, Post-raise_if, Post-raise_last, Post-map, perform,
}
use know_your_memory.Setup.QueuePair.{set_state, bring_up}
use know_your_memory.Setup.Walk.{
  Phase, native, move, idle, Walk, next, before, is_idle, IsLegal, Same, After, now, later, ev,
}

-- A test that did not leave the function.
pub passed : (b : Bool) → not b ≡ false → b ≡ true
passed b e = ground arith

-- A call that leaves the queue pair alone extends a history.
pub next-idle :
    {os : Rdma} {es : List Event} {p : Phase} (c : Call) (r : ℤ)
    → Walk os es p
    → is_idle c ≡ true
    → Walk os (ev c r ∷ es) p
next-idle c r k e = next k (idle _ c r e)

After_trans : {xs ys zs : List Event} → After xs ys → After ys zs → After xs zs
After_trans a now = a
After_trans a (later e es b) = later e es (After_trans a b)

module _ (os : Rdma) where
  -- One of the blocks moves the queue pair to its state, or leaves a legal history.
  pub set_state-Walk :
      (who : String) (b : Bool) (q : ℕ) (st : QpState) (w : World)
      → Walk os w.calls (native b q (before st))
      → Post
          (λ _ w'. Walk os w'.calls (native b q (some st)) × Same w w')
          (IsLegal os)
          (set_state os who q st w)
  unfolding set_state perform
  set_state-Walk who b q st w k =
      let r = os.ret w.calls (init_qp_attr st) in
      let k1 = next-idle (init_qp_attr st) r k refl in
      let r' = os.ret (ev (init_qp_attr st) r ∷ w.calls) (modify_qp q st) in
      let k2 = next k1 (move b q st r') in
      Post-raise_if _ (not (is_zero r)) _ _ (_, k1)
        (λ e.
          Post-raise_last (not (is_zero r')) _ _ (_, k2)
            (λ e'. (
              subst
                  (λ z.
                    Walk os (ev (modify_qp q st) r' ∷ ev (init_qp_attr st) r ∷ w.calls)
                      (if z then native b q (some st) else native b q (before st)))
                  (passed _ e') k2,
              (refl, refl, later _ _ (later _ _ now)),
            )))

  pub Same-trans : (w w' w'' : World) → Same w w' → Same w' w'' → Same w w''
  Same-trans w w' w'' (a, b, c) (a', b', c') = (cc, cc, After_trans c c')

  -- The three blocks bring a new queue pair to RTS, or leave a legal history.
  pub bring_up-Walk :
      (who : String) (b : Bool) (q : ℕ) (w : World)
      → Walk os w.calls (native b q none)
      → Post
          (λ _ w'. Walk os w'.calls (native b q (some rts)) × Same w w')
          (IsLegal os)
          (bring_up os who q w)
  unfolding bring_up
  bring_up-Walk who b q w k = Post-continue _ (set_state-Walk who b q init w k) (λ _ w1 (k1, s1).
      Post-continue _ (set_state-Walk who b q rtr w1 k1) (λ _ w2 (k2, s2).
        Post-map (set_state-Walk who b q rts w2 k2)
          (λ _ w3 (k3, s3). (k3, Same-trans w w1 w3 s1 (Same-trans w1 w2 w3 s2 s3))) (λ _ l. l)))
