-- ===== src/Bench/Bandwidth/Total.antt =====
-- src/bench/bench.cpp: how the bandwidth functions of the senders end.
use native.Mathlib.Nat.{mod-lt}
use know_your_memory.Common.{
  ℕ, zero, suc, ◌≡◌, refl, ap, ◌<◌, ◌+◌, List, [], ◌∷◌, length, get_elem?, drop-get, ◌%◌, ◌≤◌, ◌/◌,
  arith, set, ◌-◌, length-set, ◌∙◌,
}
use know_your_memory.Error.{Status, StatusOr, value, status, Piece, text}
use know_your_memory.Write.{SendRegion}
use know_your_memory.Effects.{
  ⊤, Run, Outcome, Safe, safe_return, safe_fail, Safe-continue, returns, fails, aborts, continue,
  ◌>>=◌,
}
use know_your_memory.Bench.{
  AnySender, Clock, attempted, wraps, or_clean, ignoring, then_fails, quotient-Safe, Safe-wrapping,
  busy_until, element,
}
use know_your_memory.Bench.Warmup.{test_warmup_send, warmup_sends}
use know_your_memory.Bench.Bandwidth.{allocate, free_all, drain, fill, slide, bw_send, test_bw_send}

-- A sender whose methods do not end the program.
pub record IsSafe {S : Type 0} (snd : AnySender S) : Type 0 where
  pub get_safe : (n : ℕ) (s : S) → Safe (λ _ _. Unit {0}) (snd.get_memory_region n s)
  pub free_safe : (reg : SendRegion) (s : S) → Safe (λ _ _. Unit {0}) (snd.free reg s)
  pub send_safe : (reg : SendRegion) (s : S) → Safe (λ _ _. Unit {0}) (snd.send reg s)
  pub send_async_safe : (reg : SendRegion) (s : S) → Safe (λ _ _. Unit {0}) (snd.send_async reg s)
  pub wait_safe : (id : ℕ) (s : S) → Safe (λ _ _. Unit {0}) (snd.wait id s)

module _ {S : Type 0} where
  Safe-attempted :
      {A : Type 0} {r : Outcome A × S}
      → Safe (λ _ _. Unit {0}) r
      → Safe (λ _ _. Unit {0}) (attempted r)
  Safe-attempted (safe_return a w p) = safe_return _ w tt
  Safe-attempted (safe_fail s w) = safe_return _ w tt

  Safe-ignoring :
      {A : Type 0} {r : Outcome A × S}
      → Safe (λ _ _. Unit {0}) r
      → Safe (λ _ _. Unit {0}) (ignoring r)
  Safe-ignoring (safe_return a w p) = safe_return _ w tt
  Safe-ignoring (safe_fail s w) = safe_return _ w tt

  Safe-then_fails :
      {A : Type 0} (st : Status) {r : Outcome ⊤ × S}
      → Safe (λ _ _. Unit {0}) r
      → Safe {A = A} (λ _ _. Unit {0}) (then_fails st r)
  Safe-then_fails st (safe_return a w p) = safe_fail st w
  Safe-then_fails st (safe_fail s w) = safe_fail st w

  Safe-or_clean :
      {A : Type 0} (cleanup : Run S ⊤) (m : List Piece) (r : StatusOr A)
      → ((s : S) → Safe (λ _ _. Unit {0}) (cleanup s))
      → (s : S) → Safe (λ _ _. Unit {0}) (or_clean cleanup m r s)
  Safe-or_clean cleanup m (value a) h s = safe_return a s tt
  Safe-or_clean cleanup m (status st) h s = Safe-then_fails _ (h s)

  warmup_sends-Safe :
      (snd : AnySender S) (clock : Clock S) (d start : ℕ) (buf : SendRegion)
      → IsSafe snd
      → (n i : ℕ) (s : S) → Safe (λ _ _. Unit {0}) (warmup_sends snd clock d start buf n i s)
  unfolding warmup_sends busy_until
  warmup_sends-Safe snd clock d start buf h zero i s = safe_return _ s tt
  warmup_sends-Safe snd clock d start buf h (suc n) i s =
      Safe-continue _ (Safe-wrapping (text "error sending buffer" ∷ []) (h.send_safe buf s))
        (λ _ s1 _. warmup_sends-Safe snd clock d start buf h n (i + 1) _)

  test_warmup_send-Safe :
      (snd : AnySender S) (clock : Clock S) (count : ℕ) (buf : SendRegion)
      → IsSafe snd
      → 0 < count
      → (s : S) → Safe (λ _ _. Unit {0}) (test_warmup_send snd clock count buf s)
  unfolding test_warmup_send
  test_warmup_send-Safe snd clock count buf h pos s =
      Safe-continue _ (quotient-Safe 5000000000 count s pos)
        (λ d s1 _. warmup_sends-Safe snd clock d (clock.now s1).0 buf h count 0 (clock.now s1).1)

  allocate-Safe :
      (snd : AnySender S) (size : ℕ)
      → IsSafe snd
      → (n i : ℕ) (s : S)
      → Safe (λ bufs _. length bufs ≡ n) (allocate snd.get_memory_region snd.store_int size n i s)
  unfolding allocate
  allocate-Safe snd size h zero i s = safe_return _ s refl
  allocate-Safe snd size h (suc n) i s =
      Safe-continue _ (Safe-wrapping (text "error allocating send region" ∷ []) (h.get_safe size s))
        (λ buf s1 _.
          Safe-continue _ (allocate-Safe snd size h n (i + 1) (snd.store_int buf.addr i s1))
            (λ bufs s2 e. safe_return _ s2 (ap suc e)))

  free_all-Safe :
      (snd : AnySender S)
      → IsSafe snd
      → (bufs : List SendRegion) (s : S) → Safe (λ _ _. Unit {0}) (free_all snd.free bufs s)
  unfolding free_all
  free_all-Safe snd h [] s = safe_return _ s tt
  free_all-Safe snd h (b ∷ bs) s =
      Safe-continue _ (Safe-ignoring (h.free_safe b s)) (λ _ s1 _. free_all-Safe snd h bs s1)

  drain-Safe :
      (snd : AnySender S)
      → IsSafe snd
      → (ids : List ℕ) (bufs : List SendRegion) (s : S)
      → Safe (λ _ _. Unit {0}) (drain snd ids bufs s)
  unfolding drain
  drain-Safe snd h [] bufs s = safe_return _ s tt
  drain-Safe snd h (x ∷ ids) [] s = safe_return _ s tt
  drain-Safe snd h (x ∷ ids) (b ∷ bs) s =
      Safe-continue _ (Safe-ignoring (h.wait_safe x s)) (λ _ s1 _.
        Safe-continue _ (Safe-ignoring (h.free_safe b s1)) (λ _ s2 _. drain-Safe snd h ids bs s2))

  fill-Safe :
      (snd : AnySender S) (cleanup : Run S ⊤)
      → IsSafe snd
      → ((s : S) → Safe (λ _ _. Unit {0}) (cleanup s))
      → (bufs : List SendRegion) (s : S)
      → Safe (λ ids _. length ids ≡ length bufs) (fill snd.send_async snd.wait cleanup bufs s)
  unfolding fill
  fill-Safe snd cleanup h c [] s = safe_return _ s refl
  fill-Safe snd cleanup h c (b ∷ bs) s =
      Safe-continue _ (Safe-attempted (h.send_async_safe b s)) (λ r s1 _.
        Safe-continue _ (Safe-or_clean cleanup (text "error sending buffer" ∷ []) r c s1) (λ x s2 _.
          Safe-continue _ (fill-Safe snd cleanup h c bs s2)
            (λ ids s3 e. safe_return _ s3 (ap suc e))))

  -- An element that is there.
  element-Safe :
      {A : Type 0} (xs : List A) (i : ℕ) (s : S)
      → i < length xs
      → Safe (λ _ _. Unit {0}) (element (get_elem? xs i) s)
  element-Safe xs i s h = let (x, e, _) = drop-get xs i h in rw e (safe_return x s tt)

  slide-Safe :
      (snd : AnySender S) (cleanup : Run S ⊤) (pace : ℕ → Run S ⊤) (w : ℕ) (bufs : List SendRegion)
      → IsSafe snd
      → ((s : S) → Safe (λ _ _. Unit {0}) (cleanup s))
      → ((i : ℕ) (s : S) → Safe (λ _ _. Unit {0}) (pace i s))
      → 0 < w
      → length bufs ≡ w
      → (n i : ℕ) (ids : List ℕ) (s : S) → length ids ≡ w
      → Safe (λ _ _. Unit {0}) (slide snd.send_async snd.wait cleanup pace w bufs n i ids s)
  unfolding slide
  slide-Safe snd cleanup pace w bufs h c p pos b zero i ids s e = safe_return _ s tt
  slide-Safe snd cleanup pace w bufs h c p pos b (suc n) i ids s e =
      let in_ids : i % w < length ids = omega (arith, e, mod-lt i pos) in
      let in_bufs : i % w < length bufs = omega (arith, b, mod-lt i pos) in
      Safe-continue _ (element-Safe ids (i % w) s in_ids) (λ x s1 _.
        Safe-continue _ (Safe-attempted (h.wait_safe x s1)) (λ r s2 _.
          Safe-continue _
            (Safe-or_clean cleanup (text "error waiting for buffer to be sent" ∷ []) r c s2)
            (λ _ s3 _. Safe-continue _ (p i s3) (λ _ s4 _.
              Safe-continue _ (element-Safe bufs (i % w) s4 in_bufs) (λ buf s5 _.
                Safe-continue _ (Safe-attempted (h.send_async_safe buf s5)) (λ r' s6 _.
                  Safe-continue _ (Safe-or_clean cleanup (text "error sending buffer" ∷ []) r' c s6)
                    (λ x' s7 _.
                      slide-Safe snd cleanup pace w bufs h c p pos b n (i + 1) (set ids (i % w) x')
                        s7 (length-set ids (i % w) x' ∙ e))))))))

  bw_send-Safe :
      (snd : AnySender S) (clock : Clock S) (pace : ℕ → ℕ → Run S ⊤) (rate : ℕ → ℕ → ℕ → ℕ)
      (count size unack : ℕ)
      → IsSafe snd
      → ((start i : ℕ) (s : S) → Safe (λ _ _. Unit {0}) (pace start i s))
      → 16 ≤ count
      → 0 < unack
      → (s : S)
      → Safe
          (λ v _. (d : ℕ) × (v ≡ rate size count d))
          (bw_send snd clock pace rate count size unack s)
  unfolding bw_send
  bw_send-Safe snd clock pace rate count size unack h p many pos s =
      Safe-continue _ (allocate-Safe snd size h unack 0 s) (λ bufs s1 b.
        Safe-continue _ (element-Safe bufs 0 s1 (omega (arith, b))) (λ first s2 _.
          Safe-continue _
            (Safe-wrapping (text "error during send warmup" ∷ [])
              (test_warmup_send-Safe snd clock (count / 16) first h (omega arith) s2))
            (λ _ s3 _.
              let c = free_all-Safe snd h bufs in
              let cleanup = free_all snd.free bufs in
              Safe-continue _ (fill-Safe snd cleanup h c bufs (clock.now s3).1) (λ ids s4 e.
                Safe-continue _
                  (slide-Safe snd cleanup (pace (clock.now s3).0) unack bufs h c
                    (p (clock.now s3).0) pos b (count - unack) unack ids s4 (e ∙ b))
                  (λ ids' s5 _.
                    Safe-continue _ (drain-Safe snd h ids' bufs (clock.now s5).1)
                      (λ _ s6 _. safe_return _ s6 (_, refl)))))))

  -- For at least 16 messages, a window that is not empty and a sender whose methods do not end the
  -- program, `test_bw_send` does not end it either: it returns a status, or the rate of the
  -- messages for some time, and never reads past its arrays.
  pub test_bw_send-Safe :
      (snd : AnySender S) (clock : Clock S) (rate : ℕ → ℕ → ℕ → ℕ) (count size unack : ℕ)
      → IsSafe snd
      → 16 ≤ count
      → 0 < unack
      → (s : S)
      → Safe
          (λ v _. (d : ℕ) × (v ≡ rate size count d))
          (test_bw_send snd clock rate count size unack s)
  unfolding test_bw_send
  test_bw_send-Safe snd clock rate count size unack h many pos s =
      bw_send-Safe snd clock _ rate count size unack h (λ start i s1. safe_return _ s1 tt) many pos
        s

  continue-ext :
      {A B : Type 0} {f g : A → Run S B}
      → ((a : A) (s : S) → f a s ≡ g a s)
      → (r : Outcome A × S) → continue f r ≡ continue g r
  continue-ext same (returns a, s) = same a s
  continue-ext same (fails st, s) = refl
  continue-ext same (aborts, s) = refl

  -- With fewer than 16 messages, whatever the sender does, a run of `test_bw_send` is that of its
  -- allocations, and where these succeed it then ends the program, by a division by zero in the
  -- warmup or, for an empty window, by a read past the end of its buffers; nothing is sent.
  pub test_bw_send_never :
      (snd : AnySender S) (clock : Clock S) (rate : ℕ → ℕ → ℕ → ℕ) (count size unack : ℕ)
      → count < 16
      → (s : S)
      → test_bw_send snd clock rate count size unack s
        ≡ continue
            (λ bufs s1. (aborts, s1))
            (allocate snd.get_memory_region snd.store_int size unack 0 s)
  unfolding test_bw_send bw_send test_warmup_send
  test_bw_send_never snd clock rate count size unack few s =
      continue-ext (λ bufs s1. stops _ bufs s1)
        (allocate snd.get_memory_region snd.store_int size unack 0 s)
    where
      none_left : count / 16 ≡ 0
      none_left = omega (arith, few)

      stops :
          (k : ⊤ → Run S ℕ) (bufs : List SendRegion) (s1 : S)
          → continue
              (λ first.
                wraps
                  (test_warmup_send snd clock (count / 16) first)
                  (text "error during send warmup" ∷ [])
                >>= k)
              (element (get_elem? bufs 0) s1)
            ≡ (aborts, s1)
      stops k [] s1 = refl
      stops k (b ∷ bufs) s1 = rw none_left refl
