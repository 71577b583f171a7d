-- ===== src/Write/Sender/Waiting.antt =====
-- `WriteSender::Wait`.
use know_your_memory.Common.{
  ℕ, ◌≤◌, ◌<◌, ◌≡◌, refl, ◌∙◌, ltb, if◌then◌else◌, some, List, [], ◌∷◌, ◌++◌, map, arith, true,
}
use know_your_memory.Error.{Status, StatusOr, value, status, success}
use know_your_memory.Endpoint.Completions.{Completion}
use know_your_memory.Write.Sender.{wait}

abbrev pub raised : ℕ → Completion → ℕ
raised ackd wc = if ltb ackd wc.wr_id then wc.wr_id else ackd

-- The highest id after a list of completions.
abbrev pub raise : ℕ → List Completion → ℕ
raise ackd [] = ackd
raise ackd (wc ∷ wcs) = raise (raised ackd wc) wcs

wait-enough :
    (ackd id : ℕ) (cs : List (StatusOr Completion))
    → id ≤ ackd
    → wait ackd id cs ≡ some (success, ackd, cs)
unfolding wait
wait-enough ackd id [] h = ground arith
wait-enough ackd id (value wc ∷ cs) h = ground arith
wait-enough ackd id (status s ∷ cs) h = ground arith

wait-more :
    (ackd id : ℕ) (wc : Completion) (cs : List (StatusOr Completion))
    → ackd < id
    → wait ackd id (value wc ∷ cs) ≡ wait (raised ackd wc) id cs
unfolding wait
wait-more ackd id wc cs h = rw (less ackd id h) refl
  where
    less : (a b : ℕ) → a < b → ltb a b ≡ true
    less a b h = ground arith

raise_mono : (ackd : ℕ) (wcs : List Completion) → ackd ≤ raise ackd wcs
raise_mono ackd [] = omega arith
raise_mono ackd (wc ∷ wcs) = grind (arith, raise_mono (raised ackd wc) wcs)

wait-front :
    (ackd id : ℕ) (wcs : List Completion) (cs : List (StatusOr Completion))
    → raise ackd wcs < id
    → wait ackd id (map value wcs ++ cs) ≡ wait (raise ackd wcs) id cs
wait-front ackd id [] cs h = refl
wait-front ackd id (x ∷ wcs) cs h =
    wait-more ackd id x (map value wcs ++ cs) (omega (arith, raise_mono ackd (x ∷ wcs)))
    ∙ wait-front (raised ackd x) id wcs cs h

-- `Wait` ends with success at the first completion whose id is not below the one it waits for,
-- whatever completed before it without an error; it keeps that id, and leaves the completions
-- behind for the next call.
pub wait_lem :
    (ackd id : ℕ) (wcs : List Completion) (wc : Completion) (cs : List (StatusOr Completion))
    → raise ackd wcs < id
    → id ≤ wc.wr_id
    → wait ackd id (map value wcs ++ value wc ∷ cs) ≡ some (success, wc.wr_id, cs)
wait_lem ackd id wcs wc cs h le =
    let up : raised (raise ackd wcs) wc ≡ wc.wr_id = ground arith in
    wait-front ackd id wcs (value wc ∷ cs) h
    ∙ wait-more (raise ackd wcs) id wc cs h
    ∙ rw up (wait-enough wc.wr_id id cs le)

-- An error that arrives before is returned, with the id that was reached.
pub wait_fails :
    (ackd id : ℕ) (wcs : List Completion) (s : Status) (cs : List (StatusOr Completion))
    → raise ackd wcs < id
    → wait ackd id (map value wcs ++ status s ∷ cs) ≡ some (s, raise ackd wcs, cs)
unfolding wait
wait_fails ackd id wcs s cs h = wait-front ackd id wcs (status s ∷ cs) h ∙ stops (raise ackd wcs) h
  where
    stops : (a : ℕ) → a < id → wait a id (status s ∷ cs) ≡ some (s, a, cs)
    stops a lt = ground arith
