-- ===== src/Queue/Shared/Rounds.antt =====
-- src/shared_receive_queue.cpp: the rounds of `SharedReceiveQueue::Run` as steps of its thread.
use mathlib.Core.List.{append_assoc}
use mathlib.Core.Path.{subst}
use know_your_memory.Common.{
  ℕ, ◌≡◌, refl, Option, some, none, List, [], ◌∷◌, ◌++◌, Bool-cases, inl, inr, Bool, true,
}
use know_your_memory.Error.{is_ok}
use know_your_memory.Queue.{ReceiveQueue, Entry, Answer, Given}
use know_your_memory.Queue.Shared.{Spsc, post_shared, run_round, both}
use know_your_memory.Queue.Shared.Threads.{System, Step, repost, Reach, here, after}

module _ {Q : Type 0} (spsc : Spsc Q) where
  -- The state around a round of `Run`.
  abbrev pub around : ReceiveQueue → Given → List Q → List ℕ → Bool → System Q
  around s g qs held on = record {
    queue = s;
    posted = g.posted;
    refused = g.refused;
    queues = qs;
    held = held;
    running = on;
  }

  -- A queue that is done with joins those in front.
  shift :
      (front : List Q) (q : Q) (s s' : ReceiveQueue) (g g' : Given) (qs qs' : List Q)
      (held : List ℕ) (on : Bool)
      → Reach spsc
          (around s g ((front ++ q ∷ []) ++ qs) held true)
          (around s' g' ((front ++ q ∷ []) ++ qs') held on)
      → Reach spsc
          (around s g (front ++ q ∷ qs) held true)
          (around s' g' (front ++ q ∷ qs') held on)
  shift front q s s' g g' qs qs' held on r =
      subst (λ l. Reach spsc (around s g l held true) (around s' g' (front ++ q ∷ qs') held on))
        (append_assoc front (q ∷ []) qs)
        (subst
          (λ l.
            Reach spsc (around s g ((front ++ q ∷ []) ++ qs) held true) (around s' g' l held on))
          (append_assoc front (q ∷ []) qs') r)

  -- From any state in which `Run` works, a round of `Run` over the queues, whatever stands in front of them, is a sequence
  -- of steps of its thread.
  pub run_round-Reach :
      (post : List Entry → Answer) (s : ReceiveQueue) (g : Given) (front qs : List Q)
      (held : List ℕ)
      → let (stat, s', qs', g') = run_round spsc post s g qs in
        Reach spsc
          (around s g (front ++ qs) held true)
          (around s' g' (front ++ qs') held (is_ok stat))
  unfolding run_round
  run_round-Reach post s g front [] held = here _
  run_round-Reach post s g front (q ∷ qs) held =
      go (λ t p f. run_round-Reach post t p f qs held) (spsc.try_dequeue q) refl
    where
      Goal : Type 0
      Goal =
          let (stat, s', qs', g') = run_round spsc post s g (q ∷ qs) in
          Reach spsc (around s g (front ++ q ∷ qs) held true)
            (around s' g' (front ++ qs') held (is_ok stat))

      go :
          ((t : ReceiveQueue) (p : Given) (f : List Q)
            → let (stat, s', qs', g') = run_round spsc post t p qs in
              Reach spsc
                (around t p (f ++ qs) held true)
                (around s' g' (f ++ qs') held (is_ok stat)))
          → (o : Option (ℕ × Q)) → spsc.try_dequeue q ≡ o
          → Goal
      go others none e =
          let r = run_round spsc post s g qs in
          rw (e, run_round)
            (shift front q s r.1 g r.3 qs r.2 held (is_ok r.0) (others s g (front ++ q ∷ [])))
      go others (some (x, q')) e =
          let (stat, t, b) = post_shared post s x in
          let r = run_round spsc post t (both g b) qs in
          let first : Step spsc (around s g (front ++ q ∷ qs) held true)
              (around t (both g b) (front ++ q' ∷ qs) held (is_ok stat)) =
            repost (around s g (front ++ q ∷ qs) held true) post front qs q q' x refl refl e in
          elim (Bool-cases (is_ok stat)) [
            | inl ok ↦
                rw (e, run_round, ok)
                  (after _ _ _ (rw ok at first) (
                    shift front q' t r.1 (both g b) r.3 qs r.2 held (is_ok r.0)
                      (others t (both g b) (front ++ q' ∷ []))))
            | inr no_more ↦ rw (e, run_round, no_more) (after _ _ _ first (here _))
          ]
