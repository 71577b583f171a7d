-- ===== src/Bench/Latency.antt =====
-- src/bench/bench.cpp: the latency loops. A measured time goes to the caller's vector, in
-- nanoseconds, by `push_back`; the code stores it as microseconds in a float.
pub mod Fifo
use know_your_memory.Common.{ℕ, not, zero, suc, ◌==◌, ◌+◌, ◌-◌, ◌/◌, [], ◌∷◌}
use know_your_memory.Error.{text, number, failure, internal}
use know_your_memory.Write.{SendRegion}
use know_your_memory.Effects.{⊤, Run, pure, gets, raise_if, modify, ◌>>=◌, ◌>>◌}
use know_your_memory.Bench.{AnySender, AnyReceiver, Clock, wraps, attempt, or_clean, ignores, now}
use know_your_memory.Bench.Warmup.{test_warmup_send, test_warmup_receive}

module _ {S : Type 0} where
  -- The loop of `test_lat_send`; a time goes to `lat_us` by `push_back`.
  unfoldable pub lat_sends : AnySender S → Clock S → (ℕ → S → S) → SendRegion → ℕ → ℕ → Run S ⊤
  lat_sends snd clock push_back buf zero i = pure tt
  lat_sends snd clock push_back buf (suc n) i = do
    modify (snd.store_int buf.addr i)
    start ← now clock
    send_s ← attempt (snd.send buf)
    finish ← now clock
    or_clean (ignores (snd.free buf)) (text "error sending buffer" ∷ []) send_s
    modify (push_back (finish - start))
    lat_sends snd clock push_back buf n (i + 1)

  -- `test_lat_send`
  unfoldable pub test_lat_send : AnySender S → Clock S → (ℕ → S → S) → ℕ → ℕ → Run S ⊤
  unfolding test_warmup_send lat_sends
  test_lat_send snd clock push_back count size = do
    buf ← wraps (snd.get_memory_region size) (text "error allocating send region" ∷ [])
    wraps (test_warmup_send snd clock (count / 4) buf) (text "error during send warmup" ∷ [])
    lat_sends snd clock push_back buf count 0
    snd.free buf

  -- The loop of `test_lat_ping`.
  unfoldable pub pings :
      AnySender S → AnyReceiver S → Clock S → (ℕ → S → S) → SendRegion → ℕ → ℕ → Run S ⊤
  pings snd rcv clock push_back buf zero i = pure tt
  pings snd rcv clock push_back buf (suc n) i = do
    modify (snd.store_int buf.addr i)
    start ← now clock
    send_s ← attempt (snd.send buf)
    or_clean (ignores (snd.free buf)) (text "error sending buffer" ∷ []) send_s
    rcv_s ← attempt rcv.receive
    finish ← now clock
    reg ← or_clean (ignores (snd.free buf)) (text "error receiving buffer" ∷ []) rcv_s
    wraps (rcv.free reg) (text "error freeing receive buffer" ∷ [])
    modify (push_back (finish - start))
    pings snd rcv clock push_back buf n (i + 1)

  -- `test_lat_ping`
  unfoldable pub test_lat_ping :
      AnySender S → AnyReceiver S → Clock S → (ℕ → S → S) → ℕ → ℕ → Run S ⊤
  unfolding test_warmup_send test_warmup_receive pings
  test_lat_ping snd rcv clock push_back count size = do
    buf ← wraps (snd.get_memory_region size) (text "error allocating send region" ∷ [])
    wraps (test_warmup_send snd clock (count / 4) buf) (text "error during send warmup" ∷ [])
    wraps (test_warmup_receive rcv (count / 4)) (text "error during receive warmup" ∷ [])
    pings snd rcv clock push_back buf count 0
    snd.free buf

  -- The loop of `test_lat_pong`, which sends before it looks whether it has received.
  unfoldable pub pongs : AnySender S → AnyReceiver S → SendRegion → ℕ → ℕ → Run S ⊤
  pongs snd rcv buf zero i = pure tt
  pongs snd rcv buf (suc n) i = do
    modify (snd.store_int buf.addr i)
    rcv_s ← attempt rcv.receive
    send_s ← attempt (snd.send buf)
    reg ← or_clean (ignores (snd.free buf)) (text "error receiving buffer" ∷ []) rcv_s
    or_clean (ignores (snd.free buf)) (text "error sending buffer" ∷ []) send_s
    wraps (rcv.free reg) (text "error freeing receive buffer" ∷ [])
    pongs snd rcv buf n (i + 1)

  -- `test_lat_pong`
  unfoldable pub test_lat_pong : AnySender S → AnyReceiver S → Clock S → ℕ → ℕ → Run S ⊤
  unfolding test_warmup_send test_warmup_receive pongs
  test_lat_pong snd rcv clock count size = do
    buf ← wraps (snd.get_memory_region size) (text "error allocating send region" ∷ [])
    wraps (test_warmup_receive rcv (count / 4)) (text "error during receive warmup" ∷ [])
    wraps (test_warmup_send snd clock (count / 4) buf) (text "error during send warmup" ∷ [])
    pongs snd rcv buf count 0
    snd.free buf

  -- The loop of `test_lat_recv`: the i-th message must begin with the number i.
  unfoldable pub lat_receives : AnyReceiver S → ℕ → ℕ → Run S ⊤
  lat_receives rcv zero i = pure tt
  lat_receives rcv (suc n) i = do
    buf ← wraps rcv.receive (text "error receiving buffer" ∷ [])
    got ← gets (rcv.load_int buf.addr)
    raise_if (not (got == i)) (
        failure internal
          (text "transmission error exepected " ∷ number i ∷ text " got " ∷ number got ∷ []))
    wraps (rcv.free buf) (text "error receiving buffer" ∷ [])
    lat_receives rcv n (i + 1)

  -- `test_lat_recv`
  unfoldable pub test_lat_recv : AnyReceiver S → ℕ → Run S ⊤
  unfolding test_warmup_receive lat_receives
  test_lat_recv rcv count = do
    wraps (test_warmup_receive rcv (count / 4)) (text "error during receive warmup" ∷ [])
    lat_receives rcv count 0
