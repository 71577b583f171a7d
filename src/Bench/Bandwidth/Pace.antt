-- ===== src/Bench/Bandwidth/Pace.antt =====
-- src/bench/bench.cpp: the parts of the bandwidth loops over a sender that never fails and notes the
-- time of each send.
use mathlib.Core.List.{append_assoc, append-nil}
use know_your_memory.Common.{
  arith, ℕ, zero, suc, ◌≡◌, refl, sym, ap, ◌∙◌, ◌≤◌, ◌+◌, ◌-◌, ◌*◌, List, [], ◌∷◌, ◌++◌, length,
}
use know_your_memory.Error.{Piece}
use know_your_memory.Write.{SendRegion}
use know_your_memory.Effects.{
  ⊤, Run, Outcome, returns, Post, returned, failed, aborted, Post-continue, Post-map,
}
use know_your_memory.Bench.{
  AnySender, Clock, after_readings, spin, busy_until, busy_until_ends, wrapping,
}
use know_your_memory.Bench.Warmup.{warmup_sends}
use know_your_memory.Bench.Bandwidth.{fill, allocate, drain}

-- The time, and the times of the asynchronous sends.
pub record Watch : Type 0 where
  pub time : ℕ
  pub sends : List ℕ

abbrev pub noted : Watch → Watch
noted w = record w { sends = w.sends ++ w.time ∷ [] }

abbrev pub noting_sender : AnySender Watch
noting_sender = record {
  get_memory_region = λ n w. (returns (record { context = 0; addr = 0; length = 8; lkey = 0 }), w);
  free = λ reg w. (returns tt, w);
  send = λ reg w. (returns tt, w);
  send_async = λ reg w. (returns 0, noted w);
  wait = λ id w. (returns tt, w);
  store_int = λ a v w. w;
}

unfoldable pub read_watch : Watch → ℕ × Watch
read_watch w = (w.time, record w { time = w.time + 1 })

pub time_after : (n : ℕ) (w : Watch) → (after_readings read_watch n w).time ≡ w.time + n
unfolding read_watch
time_after zero w = omega arith
time_after (suc n) w = omega (arith, time_after n (record w { time = w.time + 1 }))

pub reached : (t : ℕ) (w : Watch) → t ≤ (read_watch (after_readings read_watch (t - w.time) w)).0
unfolding read_watch
reached t w = omega (arith, time_after (t - w.time) w)

abbrev pub watch_clock : Clock Watch
watch_clock = record { now = read_watch; patience = λ t w. t - w.time; advances = reached }

-- The k-th of these times is not before `start + d * (i + k)`.
pub data Paced (d start : ℕ) : ℕ → List ℕ → Type 0 where
  no_more : (i : ℕ) → Paced d start i []
  paced :
      (i t : ℕ) (ts : List ℕ)
      → start + d * i ≤ t
      → Paced d start (i + 1) ts
      → Paced d start i (t ∷ ts)

-- A run that succeeds does so with the text of its errors replaced.
pub Succeeds-wrapping :
    {A : Type 0} {Q : A → Watch → Type 0} (m : List Piece) {r : Outcome A × Watch}
    → Post Q (λ _. ⊥) r
    → Post Q (λ _. ⊥) (wrapping m r)
Succeeds-wrapping m (returned a w p) = returned a w p
Succeeds-wrapping m (failed s w p) = absurd p
Succeeds-wrapping m (aborted w p) = absurd p

-- No send, and the time goes on.
abbrev pub Quiet : Watch → Watch → Type 0
Quiet w w' = (w'.sends ≡ w.sends) × (w.time ≤ w'.time)

Quiet-trans : (w w1 w2 : Watch) → Quiet w w1 → Quiet w1 w2 → Quiet w w2
Quiet-trans w w1 w2 (a, b) (c, d) = (c ∙ a, omega (arith, b, d))

-- A busy loop changes the time only, and ends one reading after the time that it returns.
pub spin_lem :
    (n t : ℕ) (w : Watch) → let (r, w') = spin watch_clock n t w in Quiet w w' × (w'.time ≡ r + 1)
unfolding spin read_watch
spin_lem zero t w = ((refl, omega arith), refl)
spin_lem (suc n) t w = ground (arith, spin_lem n t (record w { time = w.time + 1 }))

pub busy_until_lem :
    (t : ℕ) (w : Watch)
    → Post (λ _ w'. Quiet w w' × (t ≤ w'.time)) (λ _. ⊥) (busy_until watch_clock t w)
unfolding busy_until
busy_until_lem t w =
    let (same, next) = spin_lem (t - w.time) t w in
    returned _ _ (same, omega (arith, next, busy_until_ends watch_clock t w))

pub warmup_sends-sends :
    (d start : ℕ) (buf : SendRegion) (n i : ℕ) (w : Watch)
    → Post (λ _ w'. Quiet w w') (λ _. ⊥) (warmup_sends noting_sender watch_clock d start buf n i w)
unfolding warmup_sends
warmup_sends-sends d start buf zero i w = returned _ w (refl, omega arith)
warmup_sends-sends d start buf (suc n) i w =
    Post-continue _ (busy_until_lem (start + d * i) w) (λ _ w1 (first, _).
      Post-map (warmup_sends-sends d start buf n (i + 1) w1)
        (λ _ w2 rest. Quiet-trans w w1 w2 first rest) (λ _ l. l))

pub allocate-sends :
    (size n i : ℕ) (w : Watch)
    → Post
        (λ bufs w'. (length bufs ≡ n) × Quiet w w')
        (λ _. ⊥)
        (allocate noting_sender.get_memory_region noting_sender.store_int size n i w)
unfolding allocate
allocate-sends size zero i w = returned _ w (refl, (refl, omega arith))
allocate-sends size (suc n) i w =
    Post-continue _ (allocate-sends size n (i + 1) w)
      (λ bufs w1 (l, e). returned _ w1 (ap suc l, e))

-- The sends that fill the window are none of them before it is filled.
pub fill-sends :
    (cleanup : Run Watch ⊤) (bufs : List SendRegion) (i : ℕ) (w : Watch)
    → Post
        (λ ids w'.
          (length ids ≡ length bufs)
          × ((ts : List ℕ) × (length ts ≡ length bufs)
              × Paced 0 w.time i ts
              × (w'.sends ≡ w.sends ++ ts)))
        (λ _. ⊥)
        (fill noting_sender.send_async noting_sender.wait cleanup bufs w)
unfolding fill
fill-sends cleanup [] i w = returned _ w (refl, ([], refl, no_more i, sym (append-nil w.sends)))
fill-sends cleanup (b ∷ bs) i w =
    Post-continue _ (fill-sends cleanup bs (i + 1) (noted w)) (λ ids w1 (l, (ts, n, p, e)).
      returned _ w1 (
        ap suc l,
        (
          w.time ∷ ts,
          ap suc n,
          paced i w.time ts (omega arith) p,
          e ∙ append_assoc w.sends (w.time ∷ []) ts,
        ),
      ))

pub drain-sends :
    (ids : List ℕ) (bufs : List SendRegion) (w : Watch)
    → Post (λ _ w'. w'.sends ≡ w.sends) (λ _. ⊥) (drain noting_sender ids bufs w)
unfolding drain
drain-sends [] bufs w = returned _ w refl
drain-sends (x ∷ ids) [] w = returned _ w refl
drain-sends (x ∷ ids) (b ∷ bs) w = drain-sends ids bs w
