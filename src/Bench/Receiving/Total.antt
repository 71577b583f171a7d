-- ===== src/Bench/Receiving/Total.antt =====
-- src/bench/bench.cpp: what the receivers' bandwidth functions return.
use mathlib.Core.Path.{subst}
use know_your_memory.Common.{
  arith, ℕ, zero, suc, ◌≡◌, refl, sym, ap, ◌∙◌, inl, inr, Bool-cases, ◌<◌, ◌+◌, ◌-◌, ◌/◌, List, [],
  ◌∷◌, length, ◌==◌, some, none, Option, get_elem?,
}
use know_your_memory.Error.{Piece, text}
use know_your_memory.Effects.{⊤, Run, returns, Safe, safe_return, Safe-continue}
use know_your_memory.Write.{ReceiveRegion}
use know_your_memory.Bench.{AnyReceiver, Clock, element, Safe-wrapping, quotient, wraps}
use know_your_memory.Bench.Warmup.{receive_and_free, test_warmup_receive}
use know_your_memory.Bench.Receiving.{min, sort, measure, bw_recv, test_bw_recv}
use know_your_memory.Bench.Receiving.Measured.{
  min_pos, some_measured, Safe-run, Safe-map, Turns, no_turn, turns, Measured, incomplete, complete,
  Measured-length,
}
use know_your_memory.Bench.Receiving.Median.{IsMedian, middle-IsMedian, middle_none}

-- A receiver whose methods do not end the program.
pub record IsSafe {S : Type 0} (rcv : AnyReceiver S) : Type 0 where
  pub receive_safe : (s : S) → Safe (λ _ _. Unit {0}) (rcv.receive s)
  pub free_safe : (reg : ReceiveRegion) (s : S) → Safe (λ _ _. Unit {0}) (rcv.free reg s)

-- A division by a number that is not 0.
quotient-there : {S : Type 0} (a n : ℕ) (s : S) → 0 < n → Safe (λ _ s'. s' ≡ s) (quotient a n s)
quotient-there a n s h = elim (Bool-cases (n == 0)) [
  | inl t ↦ absurd (ground (arith, t, h))
  | inr f ↦ rw f (safe_return _ s refl)
]

module _ {S : Type 0} where
  receive_and_free-Safe :
      (rcv : AnyReceiver S)
      → IsSafe rcv
      → (m : List Piece) (s : S) → Safe (λ _ _. Unit {0}) (receive_and_free rcv m s)
  unfolding receive_and_free
  receive_and_free-Safe rcv h m s =
      Safe-continue _ (Safe-wrapping (text "error receiving buffer" ∷ []) (h.receive_safe s))
        (λ reg s1 _. Safe-wrapping m (h.free_safe reg s1))

  test_warmup_receive-Safe :
      (rcv : AnyReceiver S)
      → IsSafe rcv
      → (n : ℕ) (s : S) → Safe (λ _ _. Unit {0}) (test_warmup_receive rcv n s)
  unfolding test_warmup_receive
  test_warmup_receive-Safe rcv h zero s = safe_return _ s tt
  test_warmup_receive-Safe rcv h (suc n) s =
      Safe-continue _ (receive_and_free-Safe rcv h (text "error freeing receive buffer" ∷ []) s)
        (λ _ s1 _. test_warmup_receive-Safe rcv h n s1)

  -- Turns that give a measurement for each whole interval.
  measure-Measured :
      (turn : Run S ⊤) (clock : Clock S) (rate : ℕ → ℕ) (interval n j start : ℕ) (s0 s : S)
      → ((t : S) → Safe (λ _ _. Unit {0}) (turn t))
      → j < interval
      → Turns turn j s0 s
      → Safe
          (λ ms w. Measured turn clock rate interval (j + n) start ms s0 w)
          (measure turn clock rate interval n j start s)
  unfolding measure
  measure-Measured turn clock rate interval zero j start s0 s safe h made = safe_return [] s (
      subst (λ x. Measured turn clock rate interval x start [] s0 s) {x = j} (omega arith)
        (incomplete j start s0 s h made))
  measure-Measured turn clock rate interval (suc n) j start s0 s safe h made =
      Safe-continue _ (Safe-run (safe s)) (λ _ s1 (_, e).
        let made' = turns j s0 s s1 made e in
        elim (Bool-cases (j + 1 == interval)) [
          | inl t ↦ rw t (
              let i : j + 1 ≡ interval = ground (arith, t) in
              let (now, s2) = clock.now s1 in
              Safe-continue _
                (measure-Measured turn clock rate interval n 0 now s2 s2 safe (omega (arith, h))
                  (no_turn s2))
                (λ ms w got. safe_return _ w (
                  subst
                    (λ x. Measured turn clock rate interval x start (rate (now - start) ∷ ms) s0 w)
                    (omega (arith, i))
                    (complete (0 + n) start s0 s1 ms w (subst (λ x. Turns turn x s0 s1) i made')
                      got))))
          | inr f ↦ rw f (
              subst
                (λ x.
                  Safe (λ ms w. Measured turn clock rate interval x start ms s0 w)
                    (measure turn clock rate interval n (j + 1) start s1))
                {x = j + 1 + n} (omega arith)
                (measure-Measured turn clock rate interval n (j + 1) start s0 s1 safe
                  (ground (arith, h)) made'))
        ])

  -- The element in the middle of sorted measurements is there, and is a median.
  median :
      (ms : List ℕ) (s : S)
      → 0 < length ms
      → Safe (λ v _. IsMedian v ms) (element (get_elem? (sort ms) (length ms / 2)) s)
  median ms s h = go (get_elem? (sort ms) (length ms / 2)) refl
    where
      go :
          (o : Option ℕ)
          → get_elem? (sort ms) (length ms / 2) ≡ o
          → Safe (λ v _. IsMedian v ms) (element o s)
      go none e = absurd (omega (arith, middle_none ms e))
      go (some v) e = safe_return v s (middle-IsMedian ms v e)

  -- What a run has measured: after its warmup, from the state `s1` on.
  abbrev pub Median : Run S ⊤ → Run S ⊤ → Clock S → (ℕ → ℕ → ℕ) → ℕ → S → ℕ → S → Type 0
  Median warmup turn clock rate count s v w =
      (s1 : S) × (ms : List ℕ) × (s2 : S) × (warmup s ≡ (returns tt, s1))
      × Measured turn clock (rate (min count 5000)) (min count 5000) count (clock.now s1).0 ms
          (clock.now s1).1 s2
      × (length ms ≡ count / min count 5000)
      × IsMedian v ms

  -- The divisions and the measuring of both functions.
  bw_recv-Median :
      (warmup turn : Run S ⊤) (clock : Clock S) (rate : ℕ → ℕ → ℕ) (count : ℕ)
      → ((s : S) → Safe (λ _ _. Unit {0}) (warmup s))
      → ((s : S) → Safe (λ _ _. Unit {0}) (turn s))
      → 0 < count
      → (s : S)
      → Safe
          (λ v w. Median warmup turn clock rate count s v w)
          (bw_recv warmup turn clock rate count s)
  unfolding bw_recv
  bw_recv-Median warmup turn clock rate count warm safe h s =
      let interval = min count 5000 in
      Safe-continue _ (quotient-there count interval s (min_pos count h)) (λ _ s1 same.
        Safe-continue _ (Safe-run (warm s1)) (λ _ s2 (_, warmed).
          let (start, s3) = clock.now s2 in
          Safe-continue _
            (measure-Measured turn clock (rate interval) interval count 0 start s3 s3 safe
              (min_pos count h) (no_turn s3))
            (λ ms s4 got.
              let got' =
                subst (λ x. Measured turn clock (rate interval) interval x start ms s3 s4)
                  {y = count} (omega arith) got in
              let whole =
                Measured-length turn clock (rate interval) interval count start ms s3 s4
                  (min_pos count h) got' in
              let ahead : 0 < length ms = omega (arith, whole, some_measured count h) in
              Safe-map (median ms (clock.now s4).1 ahead)
                (λ v w m. (s2, ms, s4, ap warmup (sym same) ∙ warmed, got', whole, m)))))

  -- For a count that is not 0 and a receiver whose methods do not end the program, `test_bw_recv`
  -- does not end it either: it returns a status, or a median of the rates that it has measured
  -- since its warmup, one from each reading of the clock to the next, which it takes after every
  -- interval of turns.
  pub test_bw_recv-IsMedian :
      (rcv : AnyReceiver S) (clock : Clock S) (rate : ℕ → ℕ → ℕ) (count : ℕ)
      → IsSafe rcv
      → 0 < count
      → (s : S)
      → Safe
          (λ v w.
            Median
              (wraps
                (test_warmup_receive rcv (count / 16))
                (text "error during receive warmup" ∷ []))
              (receive_and_free rcv (text "error receiving buffer" ∷ []))
              clock
              rate
              count
              s
              v
              w)
          (test_bw_recv rcv clock rate count s)
  unfolding test_bw_recv
  test_bw_recv-IsMedian rcv clock rate count safe h s =
      bw_recv-Median _ _ clock rate count
        (λ s1.
          Safe-wrapping (text "error during receive warmup" ∷ [])
            (test_warmup_receive-Safe rcv safe (count / 16) s1))
        (receive_and_free-Safe rcv safe (text "error receiving buffer" ∷ [])) h s
