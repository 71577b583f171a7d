-- ===== src/Bench/Warmup.antt =====
-- src/bench/bench.cpp: the warmup of senders and receivers.
use know_your_memory.Common.{
  ℕ, Bool, true, false, zero, suc, ◌+◌, ◌*◌, ◌%◌, List, [], ◌∷◌, length, get_elem?,
}
use know_your_memory.Error.{Piece, text}
use know_your_memory.Write.{SendRegion}
use know_your_memory.Effects.{⊤, Run, pure, assert, ◌>>=◌, ◌>>◌}
use know_your_memory.Bench.{
  AnySender, AnyBatchSender, AnyReceiver, Clock, wraps, element, quotient, now, busy_until,
}

module _ {S : Type 0} where
  -- The loop of `test_warmup_send`, from its turn `i` on.
  unfoldable pub warmup_sends : AnySender S → Clock S → ℕ → ℕ → SendRegion → ℕ → ℕ → Run S ⊤
  unfolding busy_until
  warmup_sends snd clock nanodelay start buf zero i = pure tt
  warmup_sends snd clock nanodelay start buf (suc n) i = do
    wraps (snd.send buf) (text "error sending buffer" ∷ [])
    busy_until clock (start + nanodelay * i)
    warmup_sends snd clock nanodelay start buf n (i + 1)

  -- `test_warmup_send` of a `Sender`: for a count of 0 it divides by it.
  unfoldable pub test_warmup_send : AnySender S → Clock S → ℕ → SendRegion → Run S ⊤
  unfolding warmup_sends
  test_warmup_send snd clock count buf = do
    nanodelay ← quotient 5000000000 count
    start ← now clock
    warmup_sends snd clock nanodelay start buf count 0

  -- `test_warmup_send` of a `BatchSender`, from its turn `i` on.
  unfoldable pub test_warmup_batch_send : AnyBatchSender S → List SendRegion → ℕ → ℕ → Run S ⊤
  test_warmup_batch_send snd bufs zero i = pure tt
  test_warmup_batch_send snd bufs (suc n) i = do
    assert (nonempty bufs)
    buf ← element (get_elem? bufs (i % length bufs))
    wraps (snd.send (buf ∷ [])) (text "error sending buffer" ∷ [])
    test_warmup_batch_send snd bufs n (i + 1)
    where
      nonempty : List SendRegion → Bool
      nonempty [] = false
      nonempty (_ ∷ _) = true

  -- One turn of the receiving loops: a message is received and freed, with a message of its own for
  -- a failing Free.
  unfoldable pub receive_and_free : AnyReceiver S → List Piece → Run S ⊤
  receive_and_free rcv m = do
    buf ← wraps rcv.receive (text "error receiving buffer" ∷ [])
    wraps (rcv.free buf) m

  -- `test_warmup_receive`
  unfoldable pub test_warmup_receive : AnyReceiver S → ℕ → Run S ⊤
  unfolding receive_and_free
  test_warmup_receive rcv zero = pure tt
  test_warmup_receive rcv (suc n) = do
    receive_and_free rcv (text "error freeing receive buffer" ∷ [])
    test_warmup_receive rcv n
