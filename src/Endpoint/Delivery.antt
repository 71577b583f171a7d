-- ===== src/Endpoint/Delivery.antt =====
-- `PollRecvCq` and `PollRecvCqOnce` against the stream of completions that the device delivers.
use mathlib.Core.Path.{subst}
use know_your_memory.Common.{
  ℕ, suc, ◌+◌, ◌-◌, ◌≤◌, ◌≡◌, ◌≢◌, refl, sym, ◌==◌, true, Option, none, some, List, [], ◌∷◌, ◌++◌,
  map, arith, length, take, drop, Bool-cases, inl, inr, ==_ne, ==_true, ==_false, drop-get,
  take-append_length, length-append,
}
use know_your_memory.Error.{StatusOr, Piece, status, failure, not_found, text}
use know_your_memory.Endpoint.Completions.{
  Completion, Poll, failed, batch, RecvState, judge, take_next, stored, finish, poll_failure,
  poll_recv_cq, poll_recv_cq_once,
}

pub record IsValid (s : RecvState) : Type 0 where
  pub taken : s.current_rcv_wc ≤ s.polled_rcv_wc
  pub inside : s.polled_rcv_wc ≤ length s.recv_wcs

-- The completions that were polled and not taken yet.
abbrev pub cached : RecvState → List Completion
cached s = take (s.polled_rcv_wc - s.current_rcv_wc) (drop s.current_rcv_wc s.recv_wcs)

-- What the device delivers, in order: a completion, or the failure of a call.
pub data Event : Type 0 where
  arrived : Completion → Event
  broken : Event

abbrev pub arrivals : List Poll → List Event
arrivals [] = []
arrivals (failed ∷ rest) = broken ∷ arrivals rest
arrivals (batch wcs ∷ rest) = map arrived wcs ++ arrivals rest

abbrev pub events : RecvState → List Poll → List Event
events s answers = map arrived (cached s) ++ arrivals answers

cached-stored : (s : RecvState) (wcs : List Completion) → cached (stored s wcs) ≡ wcs
cached-stored s wcs =
    let e : length wcs - 0 ≡ length wcs = omega arith in
    rw e (take-append_length wcs (drop (length wcs) s.recv_wcs))

stored-IsValid : (s : RecvState) (wcs : List Completion) → IsValid (stored s wcs)
stored-IsValid s wcs = record {
  taken = omega arith;
  inside = omega (arith, length-append {0} wcs (drop (length wcs) s.recv_wcs));
}

abbrev next : RecvState → RecvState
next s = record s { current_rcv_wc = s.current_rcv_wc + 1 }

module _ (str : ℕ → List Piece) where
  -- What a caller learns of an event.
  abbrev pub report : Event → StatusOr Completion
  report (arrived wc) = judge str wc
  report broken = poll_failure str

  abbrev pub Pops : List Event → Option (StatusOr Completion × RecvState × List Poll) → Type 0
  Pops es none = es ≡ []
  Pops es (some (r, s', rest)) =
      (e : Event) × (es ≡ e ∷ events s' rest) × (r ≡ report e) × IsValid s'

  -- A cached completion is taken off the front.
  take_next-cached :
      (s : RecvState)
      → IsValid s
      → s.current_rcv_wc ≢ s.polled_rcv_wc
      → (wc : Completion) × (take_next str s ≡ some (judge str wc, next s))
        × (cached s ≡ wc ∷ cached (next s))
        × IsValid (next s)
  unfolding take_next
  take_next-cached s v ne =
      let (wc, got, rest) = drop-get s.recv_wcs s.current_rcv_wc (omega (arith, v)) in
      let left : s.polled_rcv_wc - s.current_rcv_wc
          ≡ suc (s.polled_rcv_wc - (s.current_rcv_wc + 1)) =
        omega (arith, v) in
      let up : s.current_rcv_wc + 1 ≡ suc s.current_rcv_wc = omega arith in
      (wc, rw (got), rw (left, rest, up), record { taken = omega (arith, v); inside = v.inside })

  finish-Pops :
      (s : RecvState) (answers : List Poll)
      → IsValid s
      → s.current_rcv_wc ≢ s.polled_rcv_wc
      → Pops (events s answers) (finish str s answers)
  finish-Pops s answers v ne =
      let (wc, got, front, v') = take_next-cached s v ne in
      rw (got, Pops) (arrived wc, rw front, refl, v')

  cached-nil : (s : RecvState) → s.current_rcv_wc ≡ s.polled_rcv_wc → cached s ≡ []
  cached-nil s e = let z : s.polled_rcv_wc - s.current_rcv_wc ≡ 0 = omega arith in rw z

  -- From a valid state `PollRecvCq` returns the events in the order in which the device delivers
  -- them: it takes the first one, reports it and leaves the others, and it spins only while there
  -- is none.
  pub poll_recv_cq-Pops :
      (s : RecvState) (answers : List Poll)
      → IsValid s
      → Pops (events s answers) (poll_recv_cq str s answers)
  unfolding poll_recv_cq
  poll_recv_cq-Pops s [] v = elim (Bool-cases (s.current_rcv_wc == s.polled_rcv_wc)) [
    | inl t ↦ rw (t, Pops) (rw (cached-nil s (==_true _ _ t)))
    | inr f ↦ rw (f, Pops) (finish-Pops s [] v (==_false _ _ f))
  ]
  poll_recv_cq-Pops s (failed ∷ rest) v = elim (Bool-cases (s.current_rcv_wc == s.polled_rcv_wc)) [
    | inl t ↦ rw (t, Pops) (broken, rw (cached-nil s (==_true _ _ t)), refl, v)
    | inr f ↦ rw (f, Pops) (finish-Pops s (failed ∷ rest) v (==_false _ _ f))
  ]
  poll_recv_cq-Pops s (batch wcs ∷ rest) v =
      let ih = poll_recv_cq-Pops (stored s wcs) rest (stored-IsValid s wcs) in
      elim (Bool-cases (s.current_rcv_wc == s.polled_rcv_wc)) [
        | inl t ↦ rw t (
            subst (λ es. Pops es (poll_recv_cq str (stored s wcs) rest))
              (same (cached-nil s (==_true _ _ t))) ih)
        | inr f ↦ rw (f, Pops) (finish-Pops s (batch wcs ∷ rest) v (==_false _ _ f))
      ]
    where
      same : cached s ≡ [] → events (stored s wcs) rest ≡ events s (batch wcs ∷ rest)
      same e = rw (cached-stored s wcs, e)

  finish-poll :
      (s : RecvState) (answers : List Poll)
      → s.current_rcv_wc ≢ s.polled_rcv_wc
      → poll_recv_cq str s answers ≡ finish str s answers
  unfolding poll_recv_cq
  finish-poll s [] ne = rw (==_ne _ _ ne)
  finish-poll s (failed ∷ rest) ne = rw (==_ne _ _ ne)
  finish-poll s (batch wcs ∷ rest) ne = rw (==_ne _ _ ne)

  -- `PollRecvCqOnce` does what `PollRecvCq` does, unless nothing is cached and the device has
  -- nothing to deliver: then it says so and leaves the endpoint as it is.
  pub poll_recv_cq_once-poll_recv_cq :
      (s : RecvState) (a : Poll) (rest : List Poll)
      → ((a ≡ batch [] → s.current_rcv_wc ≢ s.polled_rcv_wc)
          → poll_recv_cq_once str s (a ∷ rest) ≡ poll_recv_cq str s (a ∷ rest))
        × (a ≡ batch []
            → s.current_rcv_wc ≡ s.polled_rcv_wc
            → poll_recv_cq_once str s (a ∷ rest)
              ≡ some
                  (status (failure not_found (text "nothing recieved in recv cq" ∷ [])), s, rest))
  unfolding poll_recv_cq_once poll_recv_cq
  poll_recv_cq_once-poll_recv_cq s failed rest = (λ h. refl, λ e. elim (no_batch e) [ ])
    where
      no_batch : failed ≢ batch []
      no_batch e = cc
  poll_recv_cq_once-poll_recv_cq s (batch []) rest =
      (λ h. rw (==_ne _ _ (h refl)), λ e z. rw (fires z))
    where
      fires : s.current_rcv_wc ≡ s.polled_rcv_wc → (s.current_rcv_wc == s.polled_rcv_wc) ≡ true
      fires z = ground arith
  poll_recv_cq_once-poll_recv_cq s (batch (wc ∷ wcs)) rest =
      elim (Bool-cases (s.current_rcv_wc == s.polled_rcv_wc)) [
        | inl t ↦ (
          λ h. rw t (sym (finish-poll (stored s (wc ∷ wcs)) rest (λ e. cc))),
          λ e. elim (no_batch e) [ ],
        )
        | inr f ↦ (λ h. rw f refl, λ e. elim (no_batch e) [ ])
      ]
    where
      no_batch : batch (wc ∷ wcs) ≢ batch []
      no_batch e = cc
