-- ===== src/Bench/Bandwidth/Limit.antt =====
-- src/bench/bench.cpp: `test_bw_limit_send` over a sender that notes the time of each send.
use native.Mathlib.Nat.{mod-lt}
use mathlib.Core.List.{append_assoc, append-nil}
use know_your_memory.Common.{
  arith, ℕ, zero, suc, ◌≡◌, refl, sym, ap, ◌∙◌, inl, inr, ◌<◌, ◌≤◌, ◌+◌, ◌-◌, ◌%◌, ◌/◌, ◌*◌, List,
  [], ◌∷◌, ◌++◌, length, get_elem?, set, drop-get, length-set, Bool-cases, ◌==◌,
}
use know_your_memory.Error.{text}
use know_your_memory.Write.{SendRegion}
use know_your_memory.Effects.{⊤, Run, continue, Post, returned, Post-continue, Post-map}
use know_your_memory.Bench.{element, busy_until, quotient}
use know_your_memory.Bench.Warmup.{test_warmup_send}
use know_your_memory.Bench.Bandwidth.{slide, free_all, bw_send, test_bw_limit_send}
use know_your_memory.Bench.Bandwidth.Pace.{
  Quiet, Watch, noted, noting_sender, read_watch, watch_clock, no_more, paced, busy_until_lem,
  warmup_sends-sends, allocate-sends, fill-sends, drain-sends, Paced, Succeeds-wrapping,
}

-- An element that is there.
element-there :
    {A B : Type 0} {Q : B → Watch → Type 0} (k : A → Run Watch B) (xs : List A) (i : ℕ) (w : Watch)
    → i < length xs
    → ((a : A) → Post Q (λ _. ⊥) (k a w))
    → Post Q (λ _. ⊥) (continue k (element (get_elem? xs i) w))
element-there k xs i w h next = let (x, e, _) = drop-get xs i h in rw e (next x)

slide-Paced :
    (cleanup : Run Watch ⊤) (d start v : ℕ) (bufs : List SendRegion)
    → 0 < v
    → length bufs ≡ v
    → (n i : ℕ) (ids : List ℕ) (w : Watch) → length ids ≡ v
    → Post
        (λ _ w'. (ts : List ℕ) × (length ts ≡ n) × Paced d start i ts × (w'.sends ≡ w.sends ++ ts))
        (λ _. ⊥)
        (slide noting_sender.send_async noting_sender.wait cleanup
          (λ j. busy_until watch_clock (start + d * j))
          v
          bufs
          n
          i
          ids
          w)
unfolding slide
slide-Paced cleanup d start v bufs pos b zero i ids w e =
    returned _ w ([], refl, no_more i, sym (append-nil w.sends))
slide-Paced cleanup d start v bufs pos b (suc n) i ids w e =
    element-there _ ids (i % v) w (omega (arith, e, mod-lt i pos)) (λ id.
      Post-continue _ (busy_until_lem (start + d * i) w) (λ _ w1 ((same, _), late).
        element-there _ bufs (i % v) w1 (omega (arith, b, mod-lt i pos)) (λ buf.
          Post-map
            (slide-Paced cleanup d start v bufs pos b n (i + 1) (set ids (i % v) 0) (noted w1)
              (length-set ids (i % v) 0 ∙ e))
            (λ _ w2 (ts, l, p, s). (
              w1.time ∷ ts,
              ap suc l,
              paced i w1.time ts late p,
              s ∙ append_assoc w1.sends (w1.time ∷ []) ts ∙ ap (λ x. x ++ w1.time ∷ ts) same,
            ))
            (λ _ l. l))))

-- A division by a number that is not 0.
quotient-there :
    {B : Type 0} {Q : B → Watch → Type 0} (k : ℕ → Run Watch B) (a n : ℕ) (w : Watch)
    → 0 < n
    → Post Q (λ _. ⊥) (k (a / n) w)
    → Post Q (λ _. ⊥) (continue k (quotient a n w))
quotient-there k a n w h next = elim (Bool-cases (n == 0)) [
  | inl t ↦ absurd (ground (arith, t, h))
  | inr f ↦ rw f next
]

test_warmup_send-sends :
    (n : ℕ) (buf : SendRegion) (w : Watch)
    → 0 < n
    → Post (λ _ w'. Quiet w w') (λ _. ⊥) (test_warmup_send noting_sender watch_clock n buf w)
unfolding test_warmup_send read_watch
test_warmup_send-sends n buf w h = quotient-there _ 5000000000 n w h (
    Post-map (warmup_sends-sends (5000000000 / n) w.time buf n 0 (record w { time = w.time + 1 }))
      (λ _ w2 (same, later). (same, omega (arith, later))) (λ _ l. l))

Paced-earlier : (s s' i : ℕ) (ts : List ℕ) → s ≤ s' → Paced 0 s' i ts → Paced 0 s i ts
Paced-earlier s s' i [] le (no_more _) = no_more i
Paced-earlier s s' i (t ∷ ts) le (paced _ _ _ late p) =
    paced i t ts (omega (arith, late, le)) (Paced-earlier s s' (i + 1) ts le p)

-- What the sends of a whole run from the time `earliest` on are: from some start on those that fill
-- the window, and the others, each at its time.
abbrev pub Limited : ℕ → ℕ → ℕ → ℕ → List ℕ → List ℕ → Type 0
Limited d count unack earliest before sends =
    (start : ℕ) × (ts : List ℕ) × (ts' : List ℕ) × (earliest ≤ start)
    × (sends ≡ (before ++ ts) ++ ts')
    × (length ts ≡ unack)
    × (length ts' ≡ count - unack)
    × Paced 0 start 0 ts
    × Paced d start unack ts'

-- For at least 16 messages and a window and a rate that are not 0, over such a sender,
-- `test_bw_limit_send` succeeds; from some time on, not before the call, it sends one message for
-- each place of the window and then each other message of its count: the one with the number i,
-- from 0 on, not before i times the delay of the rate has gone by since that time.
pub test_bw_limit_send-Paced :
    (rate : ℕ → ℕ → ℕ → ℕ) (count size unack max_msgps : ℕ) (w : Watch)
    → 16 ≤ count
    → 0 < unack
    → 0 < max_msgps
    → Post
        (λ _ w'. Limited (1000000000 / max_msgps) count unack w.time w.sends w'.sends)
        (λ _. ⊥)
        (test_bw_limit_send noting_sender watch_clock rate count size unack max_msgps w)
unfolding test_bw_limit_send bw_send read_watch
test_bw_limit_send-Paced rate count size unack max_msgps w many pos some_rate =
    let d = 1000000000 / max_msgps in
    quotient-there _ 1000000000 max_msgps w some_rate (
      Post-continue _ (allocate-sends size unack 0 w) (λ bufs w1 (b, (s1, t1)).
        element-there _ bufs 0 w1 (omega (arith, b, pos)) (λ first.
          Post-continue _
            (Succeeds-wrapping (text "error during send warmup" ∷ [])
              (test_warmup_send-sends (count / 16) first w1 (omega (arith, many))))
            (λ _ w2 (s2, t2).
              let cleanup = free_all noting_sender.free bufs in
              Post-continue _ (fill-sends cleanup bufs 0 (record w2 { time = w2.time + 1 }))
                (λ ids w3 (l, (ts, n, first_sends, s3)).
                  Post-continue _
                    (slide-Paced cleanup d w2.time unack bufs pos b (count - unack) unack ids w3
                      (l ∙ b))
                    (λ ids' w4 (ts', n', p, s4).
                      Post-continue _ (drain-sends ids' bufs _) (λ _ w5 s5. returned _ w5 (
                        w2.time,
                        ts,
                        ts',
                        omega (arith, t1, t2),
                        s5 ∙ s4 ∙ ap (λ x. x ++ ts') (s3 ∙ ap (λ x. x ++ ts) (s2 ∙ s1)),
                        n ∙ b,
                        n',
                        Paced-earlier w2.time (w2.time + 1) 0 ts (omega arith) first_sends,
                        p,
                      ))))))))
