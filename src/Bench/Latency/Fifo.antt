-- ===== src/Bench/Latency/Fifo.antt =====
-- src/bench/bench.cpp: `test_lat_send` and `test_lat_recv` are made for each other: over a connection
-- that loses nothing and keeps the order, the receiver accepts what the sender sends.
use mathlib.Core.Path.{subst}
use mathlib.Core.List.{append_assoc, append-nil}
use know_your_memory.Common.{
  arith, ℕ, zero, suc, ◌≡◌, refl, sym, ap, ◌∙◌, ◌<◌, ◌≤◌, ◌+◌, ◌-◌, ◌/◌, ◌*◌, List, [], ◌∷◌, ◌++◌,
  ==_refl, length, replicate, Bool-cases, inl, inr, ◌==◌, length-replicate, none,
}
use know_your_memory.Error.{failure, not_found, text, Piece}
use know_your_memory.Write.{SendRegion, ReceiveRegion}
use know_your_memory.Effects.{
  ⊤, Outcome, returns, fails, ◌>>◌, Post, returned, failed, aborted, Post-continue, Post-map,
}
use know_your_memory.Bench.{
  AnySender, AnyReceiver, Clock, after_readings, busy_until, spin, wrapping,
}
use know_your_memory.Bench.Warmup.{
  test_warmup_send, warmup_sends, test_warmup_receive, receive_and_free,
}
use know_your_memory.Bench.Latency.{test_lat_send, lat_sends, test_lat_recv, lat_receives}

-- The number in the send buffer, the messages on their way, the number in the last message that was
-- received, the time, and the
-- times that were measured.
pub record Wire : Type 0 where
  pub cell : ℕ
  pub sent : List ℕ
  pub loaded : ℕ
  pub time : ℕ
  pub lat_us : List ℕ

abbrev pub buffer : SendRegion
buffer = record { context = 0; addr = 0; length = 8; lkey = 0 }

abbrev pub take_first : List ℕ → Wire → Outcome ReceiveRegion × Wire
take_first [] w = (fails (failure not_found (text "nothing sent" ∷ [])), w)
take_first (x ∷ xs) w = (
  returns (record { context = 0; addr = 0; length = 8; lkey = none }),
  record w { sent = xs; loaded = x },
)

abbrev pub wire_sender : AnySender Wire
wire_sender = record {
  get_memory_region = λ n w. (returns buffer, w);
  free = λ reg w. (returns tt, w);
  send = λ reg w. (returns tt, record w { sent = w.sent ++ w.cell ∷ [] });
  send_async = λ reg w. (returns 0, record w { sent = w.sent ++ w.cell ∷ [] });
  wait = λ id w. (returns tt, w);
  store_int = λ a v w. record w { cell = v };
}

abbrev pub wire_receiver : AnyReceiver Wire
wire_receiver = record {
  receive = λ w. take_first w.sent w;
  free = λ reg w. (returns tt, w);
  load_int = λ a w. w.loaded;
}

-- A clock that goes on by one with every reading.
unfoldable pub read_clock : Wire → ℕ × Wire
read_clock w = (w.time, record w { time = w.time + 1 })

pub time_after : (n : ℕ) (w : Wire) → (after_readings read_clock n w).time ≡ w.time + n
unfolding read_clock
time_after zero w = omega arith
time_after (suc n) w = omega (arith, time_after n (record w { time = w.time + 1 }))

pub reached : (t : ℕ) (w : Wire) → t ≤ (read_clock (after_readings read_clock (t - w.time) w)).0
unfolding read_clock
reached t w = omega (arith, time_after (t - w.time) w)

abbrev pub wire_clock : Clock Wire
wire_clock = record { now = read_clock; patience = λ t w. t - w.time; advances = reached }

-- The numbers from `i` on.
abbrev pub numbers : ℕ → ℕ → List ℕ
numbers zero i = []
numbers (suc n) i = i ∷ numbers n (i + 1)

-- `push_back` of the measured times.
abbrev pub push_back : ℕ → Wire → Wire
push_back t w = record w { lat_us = w.lat_us ++ t ∷ [] }

-- A run that succeeds.
abbrev pub Succeeds : (Wire → Type 0) → Outcome ⊤ × Wire → Type 0
Succeeds Q r = Post (λ _. Q) (λ _. ⊥) r

Succeeds-wrapping :
    {Q : Wire → Type 0} (m : List Piece) {r : Outcome ⊤ × Wire}
    → Succeeds Q r
    → Succeeds Q (wrapping m r)
Succeeds-wrapping m (returned a w p) = returned a w p
Succeeds-wrapping m (failed s w p) = absurd p
Succeeds-wrapping m (aborted w p) = absurd p

-- Waiting sends nothing.
spin_keeps :
    (n t : ℕ) (w : Wire)
    → let w' = (spin wire_clock n t w).1 in (w'.sent ≡ w.sent) × (w'.cell ≡ w.cell)
unfolding spin read_clock
spin_keeps zero t w = (refl, refl)
spin_keeps (suc n) t w = ground (arith, spin_keeps n t (record w { time = w.time + 1 }))

-- The warmup sends the buffer as it is.
warmup_sends-Succeeds :
    (d start n i : ℕ) (w : Wire)
    → Succeeds
        (λ w'. w'.sent ≡ w.sent ++ replicate n w.cell)
        (warmup_sends wire_sender wire_clock d start buffer n i w)
unfolding warmup_sends busy_until
warmup_sends-Succeeds d start zero i w = returned _ w (sym (append-nil w.sent))
warmup_sends-Succeeds d start (suc n) i w =
    let t = start + d * i in
    let w1 : Wire = record w { sent = w.sent ++ w.cell ∷ [] } in
    let k = spin_keeps (t - w1.time) t w1 in
    Post-map (warmup_sends-Succeeds d start n (i + 1) (spin wire_clock (t - w1.time) t w1).1)
      (λ _ w' e.
        e
        ∙ ap (λ x. x ++ replicate n (spin wire_clock (t - w1.time) t w1).1.cell) k.0
        ∙ ap (λ c. (w.sent ++ w.cell ∷ []) ++ replicate n c) k.1
        ∙ append_assoc w.sent (w.cell ∷ []) (replicate n w.cell))
      (λ _ l. l)

-- The measuring loop sends the numbers.
lat_sends-Succeeds :
    (n i : ℕ) (w : Wire)
    → Succeeds
        (λ w'. w'.sent ≡ w.sent ++ numbers n i)
        (lat_sends wire_sender wire_clock push_back buffer n i w)
unfolding lat_sends read_clock
lat_sends-Succeeds zero i w = returned _ w (sym (append-nil w.sent))
lat_sends-Succeeds (suc n) i w =
    Post-map (lat_sends-Succeeds n (i + 1) _)
      (λ _ w' e. e ∙ append_assoc w.sent (i ∷ []) (numbers n (i + 1))) (λ _ l. l)

-- The receiver's warmup takes as many messages as it counts.
test_warmup_receive-Succeeds :
    (xs rest : List ℕ) (w : Wire)
    → w.sent ≡ xs ++ rest
    → Succeeds (λ w'. w'.sent ≡ rest) (test_warmup_receive wire_receiver (length xs) w)
unfolding test_warmup_receive receive_and_free
test_warmup_receive-Succeeds [] rest w e = returned _ w e
test_warmup_receive-Succeeds (x ∷ xs) rest w e = rw e (test_warmup_receive-Succeeds xs rest _ refl)

-- The checking loop accepts the numbers.
lat_receives-Succeeds :
    (n i : ℕ) (w : Wire)
    → w.sent ≡ numbers n i
    → Succeeds (λ w'. w'.sent ≡ []) (lat_receives wire_receiver n i w)
unfolding lat_receives
lat_receives-Succeeds zero i w e = returned _ w e
lat_receives-Succeeds (suc n) i w e = rw (e, ==_refl i) (lat_receives-Succeeds n (i + 1) _ refl)

test_warmup_send-Succeeds :
    (n : ℕ) (w : Wire)
    → 0 < n
    → Succeeds
        (λ w'. w'.sent ≡ w.sent ++ replicate n w.cell)
        (test_warmup_send wire_sender wire_clock n buffer w)
unfolding test_warmup_send read_clock
test_warmup_send-Succeeds n w h = elim (Bool-cases (n == 0)) [
  | inl t ↦ absurd (ground (arith, t, h))
  | inr f ↦ rw f (warmup_sends-Succeeds (5000000000 / n) w.time n 0 _)
]

test_lat_send-Succeeds :
    (count size : ℕ) (w : Wire)
    → 4 ≤ count
    → Succeeds
        (λ w'. w'.sent ≡ (w.sent ++ replicate (count / 4) w.cell) ++ numbers count 0)
        (test_lat_send wire_sender wire_clock push_back count size w)
unfolding test_lat_send
test_lat_send-Succeeds count size w many =
    Post-continue _
      (Succeeds-wrapping (text "error during send warmup" ∷ [])
        (test_warmup_send-Succeeds (count / 4) w (omega (arith, many))))
      (λ _ w1 k.
        Post-continue _ (lat_sends-Succeeds count 0 w1)
          (λ _ w2 k'. returned _ w2 (k' ∙ ap (λ x. x ++ numbers count 0) k)))

test_lat_recv-Succeeds :
    (count x : ℕ) (w : Wire)
    → w.sent ≡ replicate (count / 4) x ++ numbers count 0
    → Succeeds (λ w'. w'.sent ≡ []) (test_lat_recv wire_receiver count w)
unfolding test_lat_recv
test_lat_recv-Succeeds count x w e =
    Post-continue _
      (Succeeds-wrapping (text "error during receive warmup" ∷ []) (
        subst
          (λ n. Succeeds (λ w'. w'.sent ≡ numbers count 0) (test_warmup_receive wire_receiver n w))
          (length-replicate (count / 4) x)
          (test_warmup_receive-Succeeds (replicate (count / 4) x) (numbers count 0) w e)))
      (λ _ w1 k. lat_receives-Succeeds count 0 w1 k)

-- Over such a connection, for at least four messages, `test_lat_send` and then `test_lat_recv` of the
-- same count both succeed: the warmup of the receiver takes exactly the messages of the sender's
-- warmup, every message that is checked carries the number that is expected, and none is left.
pub test_lat_recv-test_lat_send :
    (count size : ℕ) (w : Wire)
    → 4 ≤ count
    → w.sent ≡ []
    → Post
        (λ _ w'. w'.sent ≡ [])
        (λ _. ⊥)
        ((test_lat_send wire_sender wire_clock push_back count size
            >> test_lat_recv wire_receiver count)
          w)
test_lat_recv-test_lat_send count size w many e =
    Post-continue _ (test_lat_send-Succeeds count size w many) (λ _ w1 k.
      test_lat_recv-Succeeds count w.cell w1
        (k ∙ ap (λ x. (x ++ replicate (count / 4) w.cell) ++ numbers count 0) e))
