-- ===== src/Bench/Bandwidth/Window.antt =====
-- src/bench/bench.cpp: the arrays of the sending loops, which are indexed modulo the window, as a
-- queue.
use mathlib.Core.List.{append_assoc, append-nil}
use mathlib.Core.Path.{subst}
use native.Mathlib.Nat.{mod-eq_of_lt, mod-lt, mod_self}
use know_your_memory.Common.{
  arith, ℕ, zero, suc, ◌≡◌, refl, sym, ap, ◌∙◌, ◌<◌, ◌+◌, ◌%◌, List, [], ◌∷◌, ◌++◌, length, some,
  Option, get_elem?, set, take, drop, drop-length, length-set, dec_lt,
}
use know_your_memory.Common.Modular.{mod-advance}
use know_your_memory.Error.{Status, text}
use know_your_memory.Effects.{⊤, Run, Outcome, returns, fails, aborts, continue, pure, ◌>>=◌, ◌>>◌}
use know_your_memory.Bench.{attempt, or_clean, element}
use know_your_memory.Bench.Bandwidth.{slide}

module _ {B : Type 0} where
  abbrev pub pairs : List B → List ℕ → List (B × ℕ)
  pairs (b ∷ bs) (x ∷ xs) = (b, x) ∷ pairs bs xs
  pairs _ _ = []

  -- The queue of the sends under way, if place `k` holds the oldest.
  abbrev pub from_place : ℕ → List (B × ℕ) → List (B × ℕ)
  from_place k xs = drop k xs ++ take k xs

  length-pairs :
      (bs : List B) (xs : List ℕ) → length bs ≡ length xs → length (pairs bs xs) ≡ length xs
  length-pairs [] [] h = refl
  length-pairs [] (x ∷ xs) h = absurd (omega arith)
  length-pairs (b ∷ bs) [] h = absurd (omega arith)
  length-pairs (b ∷ bs) (x ∷ xs) h = ap suc (length-pairs bs xs (omega arith))

  -- A place of both lists, what it holds, and what a new id there makes of the lists.
  place :
      (bs : List B) (xs : List ℕ) (k : ℕ)
      → length bs ≡ length xs
      → k < length xs
      → (b : B) × (x : ℕ) × (get_elem? bs k ≡ some b)
        × (get_elem? xs k ≡ some x)
        × (drop k (pairs bs xs) ≡ (b, x) ∷ drop (suc k) (pairs bs xs))
        × ((x' : ℕ)
            → (drop (suc k) (pairs bs (set xs k x')) ≡ drop (suc k) (pairs bs xs))
              × (take (suc k) (pairs bs (set xs k x')) ≡ take k (pairs bs xs) ++ (b, x') ∷ []))
  place [] xs k h g = absurd (omega arith)
  place (b ∷ bs) [] k h g = absurd (omega arith)
  place (b ∷ bs) (x ∷ xs) zero h g = (b, x, refl, refl, refl, λ x'. (refl, refl))
  place (b ∷ bs) (x ∷ xs) (suc k) h g =
      let (b1, x1, e1, e2, d, u) = place bs xs k (omega arith) (omega arith) in
      (b1, x1, e1, e2, d, λ x'. ((u x').0, ap (λ l. (b, x) ∷ l) (u x').1))

  -- The rest of a queue behind its oldest send.
  abbrev pub behind : ℕ → List (B × ℕ) → List (B × ℕ)
  behind k xs = drop (suc k) xs ++ take k xs

  take-length : (xs : List (B × ℕ)) (n : ℕ) → n ≡ length xs → take n xs ≡ xs
  take-length [] zero h = refl
  take-length [] (suc n) h = refl
  take-length (x ∷ xs) zero h = absurd (omega arith)
  take-length (x ∷ xs) (suc n) h = ap (λ l. x ∷ l) (take-length xs n (omega arith))

  -- The place behind the last one is the first.
  from_place-wrap :
      (xs : List (B × ℕ)) (i w : ℕ)
      → 0 < w
      → length xs ≡ w
      → from_place (suc (i % w)) xs ≡ from_place ((i + 1) % w) xs
  from_place-wrap xs i w h e = elim (dec_lt (suc (i % w)) w) [
    | yes lt ↦
        let here : suc (i % w) ≡ i % w + 1 = omega arith in
        let small : i % w + 1 < w = omega (arith, lt) in
        let next : suc (i % w) ≡ (i + 1) % w =
          here ∙ sym (mod-eq_of_lt small) ∙ mod-advance i 1 w in
        ap (λ k. from_place k xs) next
    | no ge ↦
        let last : suc (i % w) ≡ w = omega (arith, ge, mod-lt i {m = w} h) in
        let full : i % w + 1 ≡ w = omega (arith, last) in
        let first : (i + 1) % w ≡ 0 = sym (mod-advance i 1 w) ∙ ap (λ x. x % w) full ∙ mod_self w in
        ap (λ k. from_place k xs) last
        ∙ ap (λ l. l ++ take w xs) (drop-length xs w (sym e))
        ∙ take-length xs w (sym e)
        ∙ sym (append-nil xs)
        ∙ ap (λ k. from_place k xs) (sym first)
  ]

  -- The queue after the buffer of the oldest send has been sent again.
  sent_again :
      (bufs : List B) (ids : List ℕ) (i w id' : ℕ) (buf : B)
      → 0 < w
      → length bufs ≡ w
      → length ids ≡ w
      → let k = i % w in
        drop (suc k) (pairs bufs (set ids k id')) ≡ drop (suc k) (pairs bufs ids)
        → take (suc k) (pairs bufs (set ids k id')) ≡ take k (pairs bufs ids) ++ (buf, id') ∷ []
        → behind k (pairs bufs ids) ++ (buf, id') ∷ []
          ≡ from_place ((i + 1) % w) (pairs bufs (set ids k id'))
  sent_again bufs ids i w id' buf h b e d t =
      let k = i % w in
      let z = pairs bufs ids in
      let z' = pairs bufs (set ids k id') in
      append_assoc (drop (suc k) z) (take k z) ((buf, id') ∷ [])
      ∙ ap (λ l. l ++ (take k z ++ (buf, id') ∷ [])) (sym d)
      ∙ ap (λ l. drop (suc k) z' ++ l) (sym t)
      ∙ from_place-wrap z' i w h (
          length-pairs bufs (set ids k id') (omega (arith, b, e, length-set ids k id'))
          ∙ length-set ids k id'
          ∙ e)

-- Two runs from one state that end alike, with results that are related.
pub data Alike {S A A' : Type 0} (R : A → A' → Type 0)
    : Outcome A × S → Outcome A' × S → Type 0 where
  both_return : (a : A) (a' : A') (s : S) → R a a' → Alike R (returns a, s) (returns a', s)
  both_fail : (st : Status) (s : S) → Alike R (fails st, s) (fails st, s)
  both_abort : (s : S) → Alike R (aborts, s) (aborts, s)

-- Two runs with the same first part.
Alike-continue :
    {S A B B' : Type 0} {R : B → B' → Type 0} (k : A → Run S B) (k' : A → Run S B')
    (r : Outcome A × S)
    → ((a : A) (s : S) → Alike R (k a s) (k' a s))
    → Alike R (continue k r) (continue k' r)
Alike-continue k k' (returns a, s) h = h a s
Alike-continue k k' (fails st, s) h = both_fail st s
Alike-continue k k' (aborts, s) h = both_abort s

Alike-element :
    {S A B B' : Type 0} {R : B → B' → Type 0} (k : A → Run S B) (o : Option A) (a : A) (s : S)
    (r : Outcome B' × S)
    → o ≡ some a
    → Alike R (k a s) r
    → Alike R (continue k (element o s)) r
Alike-element k o a s r e h = rw e h

module _ {S B : Type 0} (send : B → Run S ℕ) (wait : ℕ → Run S ⊤) (cleanup : Run S ⊤) where
  -- `slide` with a queue: the oldest send is waited for, and its buffer is sent again.
  unfoldable pub slide_queue : (ℕ → Run S ⊤) → ℕ → ℕ → List (B × ℕ) → Run S (List (B × ℕ))
  slide_queue pace zero i queue = pure queue
  slide_queue pace (suc n) i [] = λ s. (aborts, s)
  slide_queue pace (suc n) i ((buf, id) ∷ rest) = do
    stat ← attempt (wait id)
    or_clean cleanup (text "error waiting for buffer to be sent" ∷ []) stat
    pace i
    send_s ← attempt (send buf)
    id' ← or_clean cleanup (text "error sending buffer" ∷ []) send_s
    slide_queue pace n (i + 1) (rest ++ (buf, id') ∷ [])

  -- On arrays of as many buffers as ids, the loop that indexes them modulo their length does what the
  -- queue does, from the same state, with the same failures: the buffer that is sent again is that
  -- of the oldest send, which has been waited for. It never indexes past the arrays.
  pub slide-queued :
      (pace : ℕ → Run S ⊤) (w : ℕ) (bufs : List B) (n i : ℕ) (ids : List ℕ) (queue : List (B × ℕ))
      (s : S)
      → 0 < w
      → length bufs ≡ w
      → length ids ≡ w
      → queue ≡ from_place (i % w) (pairs bufs ids)
      → Alike
          (λ ids' queue'. (length ids' ≡ w) × (queue' ≡ from_place ((i + n) % w) (pairs bufs ids')))
          (slide send wait cleanup pace w bufs n i ids s)
          (slide_queue pace n i queue s)
  unfolding slide slide_queue
  slide-queued pace w bufs zero i ids queue s h b e q =
      both_return ids queue s (e, q ∙ ap (λ k. from_place (k % w) (pairs bufs ids)) (omega arith))
  slide-queued pace w bufs (suc n) i ids queue s h b e q =
      let k = i % w in
      let inside : k < length ids = omega (arith, e, mod-lt i h) in
      let (buf, id, e1, e2, d, u) = place bufs ids k (b ∙ sym e) inside in
      let z = pairs bufs ids in
      let again : (id' : ℕ) (s5 : S)
          → Alike
              (λ ids' queue'.
                (length ids' ≡ w) × (queue' ≡ from_place ((i + suc n) % w) (pairs bufs ids')))
              (slide send wait cleanup pace w bufs n (i + 1) (set ids k id') s5)
              (slide_queue pace n (i + 1) (behind k z ++ (buf, id') ∷ []) s5) =
        λ id' s5.
          subst
            (λ m.
              Alike
                (λ ids' queue'. (length ids' ≡ w) × (queue' ≡ from_place (m % w) (pairs bufs ids')))
                (slide send wait cleanup pace w bufs n (i + 1) (set ids k id') s5)
                (slide_queue pace n (i + 1) (behind k z ++ (buf, id') ∷ []) s5))
            (omega arith)
            (slide-queued pace w bufs n (i + 1) (set ids k id') _ s5 h b (length-set ids k id' ∙ e)
              (sent_again bufs ids i w id' buf h b e (u id').0 (u id').1)) in
      let oldest : queue ≡ (buf, id) ∷ behind k z = q ∙ ap (λ l. l ++ take k z) d in
      rw oldest (
        Alike-element _ (get_elem? ids k) id s _ e2 (
          Alike-continue _ _ (attempt (wait id) s) (λ stat s1.
            Alike-continue _ _
              (or_clean cleanup (text "error waiting for buffer to be sent" ∷ []) stat s1)
              (λ _ s2. Alike-continue _ _ (pace i s2) (λ _ s3.
                Alike-element _ (get_elem? bufs k) buf s3 _ e1 (
                  Alike-continue _ _ (attempt (send buf) s3) (λ send_s s4.
                    Alike-continue _ _
                      (or_clean cleanup (text "error sending buffer" ∷ []) send_s s4)
                      (λ id' s5. again id' s5))))))))
