-- ===== src/Tests/Benches.antt =====
-- The measuring loops over a connection that counts its calls.
use know_your_memory.Common.{
  ℕ, ◌+◌, ◌-◌, ◌/◌, ◌*◌, ◌%◌, ◌≤◌, ◌≡◌, refl, zero, suc, arith, List, [], ◌∷◌, length, none,
}
use know_your_memory.Error.{text}
use know_your_memory.Bench.Warmup.{test_warmup_receive, receive_and_free}
use know_your_memory.Write.{SendRegion, ReceiveRegion}
use know_your_memory.Effects.{returns, aborts, continue, pure, Safe, safe_return, Post, ◌>>◌}
use know_your_memory.Bench.{wraps, AnySender, AnyReceiver, Clock, after_readings}
use know_your_memory.Bench.Latency.{test_lat_send, test_lat_recv}
use know_your_memory.Bench.Latency.Fifo.{
  Wire, wire_sender, wire_receiver, wire_clock, push_back, test_lat_recv-test_lat_send,
}
use know_your_memory.Bench.Bandwidth.{allocate, slide, test_bw_send, test_bw_limit_send}
use know_your_memory.Bench.Bandwidth.Pace.{Watch, noting_sender, watch_clock}
use know_your_memory.Bench.Bandwidth.Limit.{Limited, test_bw_limit_send-Paced}
use know_your_memory.Bench.Bandwidth.Window.{Alike, slide_queue, from_place, pairs, slide-queued}
use know_your_memory.Bench.Bandwidth.Total
use know_your_memory.Bench.Bandwidth.Total.{test_bw_send-Safe, test_bw_send_never}
use know_your_memory.Bench.Receiving.{test_bw_recv}
use know_your_memory.Bench.Receiving.Total.{Median, test_bw_recv-IsMedian}

-- The state is the number of the calls, which is also the time.
abbrev a_region : SendRegion
a_region = record { context = 0; addr = 64; length = 8; lkey = 1 }

abbrev a_message : ReceiveRegion
a_message = record { context = 0; addr = 64; length = 8; lkey = none }

abbrev counting : AnySender ℕ
counting = record {
  get_memory_region = λ n s. (returns a_region, s + 1);
  free = λ reg s. (returns tt, s + 1);
  send = λ reg s. (returns tt, s + 1);
  send_async = λ reg s. (returns s, s + 1);
  wait = λ id s. (returns tt, s + 1);
  store_int = λ a v s. s;
}

abbrev counting_receiver : AnyReceiver ℕ
counting_receiver = record {
  receive = λ s. (returns a_message, s + 1);
  free = λ reg s. (returns tt, s + 1);
  load_int = λ a s. s;
}

tick : ℕ → ℕ × ℕ
tick s = (s, s + 1)

ticks : (n s : ℕ) → (after_readings tick n s) ≡ s + n
unfolding tick
ticks zero s = omega arith
ticks (suc n) s = omega (arith, ticks n (s + 1))

reached : (t s : ℕ) → t ≤ (tick (after_readings tick (t - s) s)).0
unfolding tick
reached t s = omega (arith, ticks (t - s) s)

abbrev a_clock : Clock ℕ
a_clock = record { now = tick; patience = λ t s. t - s; advances = reached }

counting-IsSafe : Total.IsSafe counting
counting-IsSafe = record {
  get_safe = λ n s. safe_return _ _ tt;
  free_safe = λ reg s. safe_return _ _ tt;
  send_safe = λ reg s. safe_return _ _ tt;
  send_async_safe = λ reg s. safe_return _ _ tt;
  wait_safe = λ id s. safe_return _ _ tt;
}

abbrev a_rate : ℕ → ℕ → ℕ → ℕ
a_rate size count time = size * count

test_bw_send-Safe_example :
    Safe (λ v _. (d : ℕ) × (v ≡ a_rate 8 32 d)) (test_bw_send counting a_clock a_rate 32 8 4 0)
test_bw_send-Safe_example =
    test_bw_send-Safe counting a_clock a_rate 32 8 4 counting-IsSafe (omega arith) (omega arith) 0

test_bw_send_never_example :
    test_bw_send counting a_clock a_rate 10 8 4 0
    ≡ continue
        (λ bufs s1. (aborts, s1))
        (allocate counting.get_memory_region counting.store_int 8 4 0 0)
test_bw_send_never_example = test_bw_send_never counting a_clock a_rate 10 8 4 (omega arith) 0

-- Three buffers, sent seven more times from the fourth send on.
abbrev three : List SendRegion
three = a_region ∷ record a_region { addr = 72 } ∷ record a_region { addr = 80 } ∷ []

slide-queued_example :
    Alike
      (λ ids' queue'. (length ids' ≡ 3) × (queue' ≡ from_place ((4 + 7) % 3) (pairs three ids')))
      (slide counting.send_async counting.wait
        (pure tt)
        (λ i. pure tt)
        3
        three
        7
        4
        (10 ∷ 11 ∷ 12 ∷ [])
        0)
      (slide_queue counting.send_async counting.wait
        (pure tt)
        (λ i. pure tt)
        7
        4
        (from_place (4 % 3) (pairs three (10 ∷ 11 ∷ 12 ∷ [])))
        0)
slide-queued_example =
    slide-queued counting.send_async counting.wait (pure tt) (λ i. pure tt) 3 three 7 4
      (10 ∷ 11 ∷ 12 ∷ []) (from_place (4 % 3) (pairs three (10 ∷ 11 ∷ 12 ∷ []))) 0 (omega arith)
      refl refl refl

test_bw_recv-IsMedian_example :
    Safe
      (λ v w.
        Median
          (wraps
            (test_warmup_receive counting_receiver (40 / 16))
            (text "error during receive warmup" ∷ []))
          (receive_and_free counting_receiver (text "error receiving buffer" ∷ []))
          a_clock
          (λ n t. n + t)
          40
          0
          v
          w)
      (test_bw_recv counting_receiver a_clock (λ n t. n + t) 40 0)
test_bw_recv-IsMedian_example =
    test_bw_recv-IsMedian counting_receiver a_clock (λ n t. n + t) 40
      (record { receive_safe = λ s. safe_return _ _ tt; free_safe = λ reg s. safe_return _ _ tt })
      (omega arith) 0

abbrev a_wire : Wire
a_wire = record { cell = 9; sent = []; loaded = 0; time = 0; lat_us = [] }

test_lat_recv-test_lat_send_example :
    Post
      (λ _ w'. w'.sent ≡ [])
      (λ _. ⊥)
      ((test_lat_send wire_sender wire_clock push_back 8 16 >> test_lat_recv wire_receiver 8)
        a_wire)
test_lat_recv-test_lat_send_example = test_lat_recv-test_lat_send 8 16 a_wire (omega arith) refl

abbrev a_watch : Watch
a_watch = record { time = 5; sends = [] }

test_bw_limit_send-Paced_example :
    Post
      (λ _ w'. Limited (1000000000 / 10000000) 24 4 5 [] w'.sends)
      (λ _. ⊥)
      (test_bw_limit_send noting_sender watch_clock a_rate 24 8 4 10000000 a_watch)
test_bw_limit_send-Paced_example =
    test_bw_limit_send-Paced a_rate 24 8 4 10000000 a_watch (omega arith) (omega arith)
      (omega arith)
