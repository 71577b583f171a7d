-- ===== src/Queue/Shared/Fetching.antt =====
-- src/shared_receive_queue.cpp: what one round of `SharedReceiveQueue::Run` takes and posts.
use mathlib.Core.List.{append-nil}
use know_your_memory.Common.{
  ℕ, ◌+◌, ◌≡◌, refl, ap, ◌∙◌, Option, none, some, List, [], ◌∷◌, ◌++◌, map, arith, inl, inr, ◌⊎◌,
  Bool, true, false, Bool-cases, if◌then◌else◌,
}
use know_your_memory.Error.{Status, is_ok}
use know_your_memory.Queue.{ReceiveQueue, Entry, Answer, Given}
use know_your_memory.Queue.Batch.{IsValid, pending, entry, Told}
use know_your_memory.Queue.History.{count, count-append}
use know_your_memory.Queue.Shared.{Spsc, post_shared, run_round, both}
use know_your_memory.Queue.Shared.Posting.{Moved, post_shared-Moved}

-- The buffers of a state: those that wait, and those that were given to the verb.
abbrev pub known : (Entry → Bool) → ReceiveQueue → Given → ℕ
known p s g = count p (pending s) + (count p g.posted + count p g.refused)

-- Nothing more is refused, or the status is an error.
abbrev pub Heard : Status → Given → Given → Type 0
Heard stat g g' = ((is_ok stat ≡ true) × (g'.refused ≡ g.refused)) ⊎ (is_ok stat ≡ false)

module _ {Q : Type 0} (spsc : Spsc Q) where
  -- Each queue from the first one on gives up its oldest buffer if there is one. A round that ends
  -- with an error, `false`, stops at the buffer that brought it.
  pub data Fetched : Bool → List Q → List Q → List ℕ → Type 0 where
    done : Fetched true [] [] []
    stopped :
        (q q' : Q) (x : ℕ) (qs : List Q)
        → spsc.try_dequeue q ≡ some (x, q')
        → Fetched false (q ∷ qs) (q' ∷ qs) (x ∷ [])
    kept :
        (ok : Bool) (q : Q) (qs qs' : List Q) (ids : List ℕ)
        → spsc.try_dequeue q ≡ none
        → Fetched ok qs qs' ids
        → Fetched ok (q ∷ qs) (q ∷ qs') ids
    fetched :
        (ok : Bool) (q q' : Q) (x : ℕ) (qs qs' : List Q) (ids : List ℕ)
        → spsc.try_dequeue q ≡ some (x, q')
        → Fetched ok qs qs' ids
        → Fetched ok (q ∷ qs) (q' ∷ qs') (x ∷ ids)

  -- Between a state and the result of a round: which buffers were taken, and where they are.
  abbrev pub Rounded :
      ReceiveQueue → Given → List Q → Status × ReceiveQueue × List Q × Given → Type 0
  Rounded s g qs (stat, s', qs', g') =
      (ids : List ℕ) × Fetched (is_ok stat) qs qs' ids
      × ((p : Entry → Bool) → known p s' g' ≡ count p (map (entry s) ids) + known p s g)
      × Heard stat g g'
      × IsValid s'

  same_entries :
      (s s' : ReceiveQueue) (ids : List ℕ)
      → ((id : ℕ) → entry s' id ≡ entry s id)
      → map (entry s') ids ≡ map (entry s) ids
  same_entries s s' [] e = refl
  same_entries s s' (x ∷ ids) e = rw (e x, same_entries s s' ids e) refl

  -- One buffer.
  known-Moved :
      (s : ReceiveQueue) (g : Given) (x : ℕ) (r : Status × ReceiveQueue × Given)
      → Moved s x r
      → (p : Entry → Bool)
      → known p r.1 (both g r.2) ≡ (if p (entry s x) then 1 else 0) + known p s g
  known-Moved s g x (stat, s', h) m p =
      omega (arith, m.0 p, count-append p g.posted h.posted, count-append p g.refused h.refused)

  Heard-Told :
      (stat : Status) (g h : Given)
      → Told stat h
      → is_ok stat ≡ true
      → g.refused ++ h.refused ≡ g.refused
  Heard-Told stat g h (inl e) ok = ap (λ l. g.refused ++ l) e ∙ append-nil g.refused
  Heard-Told stat g h (inr f) ok = absurd (ground (arith, ok, f))

  -- A buffer that is posted before the rest of a round.
  fetched-Rounded :
      (s : ReceiveQueue) (g : Given) (q q' : Q) (x : ℕ) (qs : List Q)
      (r : Status × ReceiveQueue × Given) (res : Status × ReceiveQueue × List Q × Given)
      → Moved s x r
      → is_ok r.0 ≡ true
      → spsc.try_dequeue q ≡ some (x, q')
      → Rounded r.1 (both g r.2) qs res
      → Rounded s g (q ∷ qs) (res.0, res.1, q' ∷ res.2, res.3)
  fetched-Rounded s g q q' x qs (stat, s', h) (stat', s'', qs', g') m ok e
        (ids, taken, all, told, v) =
      let (moved, first_told, size, max, entries, v') = m in
      (
        x ∷ ids,
        fetched (is_ok stat') q q' x qs qs' ids e taken,
        λ p. omega (
          arith,
          all p,
          ap (count p) (same_entries s s' ids entries),
          known-Moved s g x (stat, s', h) m p,
        ),
        elim told [
          | inl (fine, same) ↦ inl (fine, same ∙ Heard-Told stat g h first_told ok)
          | inr bad ↦ inr bad
        ],
        v,
      )

  -- From a valid queue of buffers, a round takes the oldest buffer of each connection's queue that
  -- has one, in the order of these queues, up to the first that brings an error. It takes no other,
  -- and each buffer that it takes is then, once and with the address of its own slot, among those
  -- that wait for their batch, that are posted, or that the verb refused; it refuses none, or the
  -- round returns an error. The queue stays valid.
  pub run_round-Rounded :
      (post : List Entry → Answer) (s : ReceiveQueue) (g : Given) (qs : List Q)
      → IsValid s
      → Rounded s g qs (run_round spsc post s g qs)
  unfolding run_round
  run_round-Rounded post s g [] v = ([], done, λ p. omega arith, inl (refl, refl), v)
  run_round-Rounded post s g (q ∷ qs) v =
      go (λ t h w. run_round-Rounded post t h qs w) (spsc.try_dequeue q) refl
    where
      Goal : Type 0
      Goal = Rounded s g (q ∷ qs) (run_round spsc post s g (q ∷ qs))

      go :
          ((t : ReceiveQueue) (h : Given) → IsValid t → Rounded t h qs (run_round spsc post t h qs))
          → (o : Option (ℕ × Q)) → spsc.try_dequeue q ≡ o
          → Goal
      go others none e =
          let (ids, taken, all, told, v') = others s g v in
          let r = run_round spsc post s g qs in
          rw (e, run_round) (ids, kept (is_ok r.0) q qs r.2 ids e taken, all, told, v')
      go others (some (x, q')) e =
          let m = post_shared-Moved post s x v in
          let (stat, s', h) = post_shared post s x in
          elim (Bool-cases (is_ok stat)) [
            | inl t ↦
                rw (e, run_round, t)
                  (fetched-Rounded s g q q' x qs (stat, s', h)
                    (run_round spsc post s' (both g h) qs) m t e (others s' (both g h) m.5))
            | inr f ↦
                rw (e, run_round, f)
                  (
                    x ∷ [],
                    rw f (stopped q q' x qs e),
                    λ p. omega (arith, known-Moved s g x (stat, s', h) m p),
                    inr f,
                    m.5,
                  )
          ]
