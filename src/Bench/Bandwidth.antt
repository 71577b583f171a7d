-- ===== src/Bench/Bandwidth.antt =====
-- src/bench/bench.cpp: the bandwidth loops of the senders, which keep a number of sends under way.
-- The rate is computed from integers in floating point: `rate` stands for that arithmetic.
pub mod Window
pub mod Total
pub mod Pace
pub mod Limit
use know_your_memory.Common.{
  ℕ, zero, suc, ◌+◌, ◌-◌, ◌*◌, ◌/◌, ◌%◌, List, [], ◌∷◌, get_elem?, set, ltb,
}
use know_your_memory.Error.{text, failure, invalid_argument}
use know_your_memory.Write.{SendRegion}
use know_your_memory.Effects.{⊤, Run, pure, raise_if, modify, ◌>>=◌, ◌>>◌}
use know_your_memory.Bench.{
  AnySender, AnyBatchSender, Clock, wraps, attempt, or_clean, ignores, element, quotient, now,
  busy_until,
}
use know_your_memory.Bench.Warmup.{test_warmup_send, test_warmup_batch_send}

module _ {S B : Type 0} (send : B → Run S ℕ) (wait : ℕ → Run S ⊤) (cleanup : Run S ⊤) where
  -- The loop that fills the window: one send of each buffer, and their ids.
  unfoldable pub fill : List B → Run S (List ℕ)
  fill [] = pure []
  fill (b ∷ bs) = do
    send_s ← attempt (send b)
    id ← or_clean cleanup (text "error sending buffer" ∷ []) send_s
    ids ← fill bs
    pure (id ∷ ids)

  -- The loop that keeps the window full, from its turn `i` on: the buffer `i % w` is sent again when
  -- its last send has been waited for and `pace` has passed.
  unfoldable pub slide : (ℕ → Run S ⊤) → ℕ → List B → ℕ → ℕ → List ℕ → Run S (List ℕ)
  slide pace w bufs zero i ids = pure ids
  slide pace w bufs (suc n) i ids = do
    id ← element (get_elem? ids (i % w))
    stat ← attempt (wait id)
    or_clean cleanup (text "error waiting for buffer to be sent" ∷ []) stat
    pace i
    buf ← element (get_elem? bufs (i % w))
    send_s ← attempt (send buf)
    id' ← or_clean cleanup (text "error sending buffer" ∷ []) send_s
    slide pace w bufs n (i + 1) (set ids (i % w) id')

module _ {S : Type 0} where
  -- The loop that allocates `n` buffers, numbered from `i` on.
  unfoldable pub allocate :
      (ℕ → Run S SendRegion) → (ℕ → ℕ → S → S) → ℕ → ℕ → ℕ → Run S (List SendRegion)
  allocate get store size zero i = pure []
  allocate get store size (suc n) i = do
    buf ← wraps (get size) (text "error allocating send region" ∷ [])
    modify (store buf.addr i)
    bufs ← allocate get store size n (i + 1)
    pure (buf ∷ bufs)

  -- `for (auto buf : bufs) snd->Free(buf);`
  unfoldable pub free_all : (SendRegion → Run S ⊤) → List SendRegion → Run S ⊤
  free_all free [] = pure tt
  free_all free (b ∷ bs) = do ignores (free b); free_all free bs

  -- The last loop: every send is waited for, and its buffer is freed.
  unfoldable pub drain : AnySender S → List ℕ → List SendRegion → Run S ⊤
  drain snd (id ∷ ids) (b ∷ bs) = do ignores (snd.wait id); ignores (snd.free b); drain snd ids bs
  drain snd _ _ = pure tt

  -- `test_bw_send` and `test_bw_limit_send`, which differ in what they do before a send.
  unfoldable pub bw_send :
      AnySender S → Clock S → (ℕ → ℕ → Run S ⊤) → (ℕ → ℕ → ℕ → ℕ) → ℕ → ℕ → ℕ → Run S ℕ
  unfolding allocate test_warmup_send fill slide drain free_all
  bw_send snd clock pace rate count size unack = do
    bufs ← allocate snd.get_memory_region snd.store_int size unack 0
    first ← element (get_elem? bufs 0)
    wraps (test_warmup_send snd clock (count / 16) first) (text "error during send warmup" ∷ [])
    start ← now clock
    ids ← fill snd.send_async snd.wait (free_all snd.free bufs) bufs
    ids' ←
        slide snd.send_async snd.wait (free_all snd.free bufs) (pace start) unack bufs
          (count - unack) unack ids
    end ← now clock
    drain snd ids' bufs
    pure (rate size count (end - start))

  -- `test_bw_send`
  unfoldable pub test_bw_send : AnySender S → Clock S → (ℕ → ℕ → ℕ → ℕ) → ℕ → ℕ → ℕ → Run S ℕ
  unfolding bw_send
  test_bw_send snd clock rate count size unack =
      bw_send snd clock (λ start i. pure tt) rate count size unack

  -- `test_bw_limit_send`
  unfoldable pub test_bw_limit_send :
      AnySender S → Clock S → (ℕ → ℕ → ℕ → ℕ) → ℕ → ℕ → ℕ → ℕ → Run S ℕ
  unfolding bw_send busy_until
  test_bw_limit_send snd clock rate count size unack max_msgps = do
    nanodelay ← quotient 1000000000 max_msgps
    bw_send snd clock (λ start i. busy_until clock (start + nanodelay * i)) rate count size unack

  -- The batches of `test_bw_batch_send`.
  unfoldable pub allocate_batches : AnyBatchSender S → ℕ → ℕ → ℕ → Run S (List (List SendRegion))
  unfolding allocate
  allocate_batches snd size batch zero = pure []
  allocate_batches snd size batch (suc n) = do
    b ← allocate snd.get_memory_region snd.store_int size batch 0
    bs ← allocate_batches snd size batch n
    pure (b ∷ bs)

  -- The two nested loops that free the batches.
  unfoldable pub free_batches : AnyBatchSender S → List (List SendRegion) → Run S ⊤
  unfolding free_all
  free_batches snd [] = pure tt
  free_batches snd (b ∷ bs) = do free_all snd.free b; free_batches snd bs

  -- `test_bw_batch_send`, whose rate is of `batch * count_batch` messages.
  unfoldable pub test_bw_batch_send :
      AnyBatchSender S → Clock S → (ℕ → ℕ → ℕ → ℕ) → ℕ → ℕ → ℕ → ℕ → Run S ℕ
  unfolding allocate_batches test_warmup_batch_send fill slide free_batches
  test_bw_batch_send snd clock rate count size batch unack = do
    raise_if (ltb unack batch)
        (failure invalid_argument (text "batch cannot be larger than unack" ∷ []))
    raise_if (ltb count unack)
        (failure invalid_argument (text "unack cannot be larger than count" ∷ []))
    unack_batch ← quotient unack batch
    count_batch ← quotient count batch
    batches ← allocate_batches snd size batch unack_batch
    first ← element (get_elem? batches 0)
    wraps (test_warmup_batch_send snd first (count / 16) 0) (text "error during send warmup" ∷ [])
    start ← now clock
    ids ← fill snd.send_async snd.wait (free_batches snd batches) batches
    slide snd.send_async snd.wait (free_batches snd batches) (λ i. pure tt) unack_batch batches
        (count_batch - unack_batch) unack_batch ids
    end ← now clock
    pure (rate size (batch * count_batch) (end - start))
