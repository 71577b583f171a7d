-- ===== src/Bench/Receiving.antt =====
-- src/bench/bench.cpp: the bandwidth loops of the receivers, which answer with the median of their
-- measurements. `rate` stands for the arithmetic in floating point.
pub mod Median
pub mod Measured
pub mod Total
use know_your_memory.Common.{
  ℕ, Bool, true, false, not, zero, suc, ◌==◌, ◌+◌, ◌-◌, ◌*◌, ◌/◌, ◌%◌, if◌then◌else◌, List, [], ◌∷◌,
  ◌++◌, get_elem?, leb, length,
}
use know_your_memory.Error.{text}
use know_your_memory.Effects.{⊤, Run, pure, ◌>>=◌, ◌>>◌}
use know_your_memory.Bench.{AnyReceiver, Clock, wraps, element, quotient, now}
use know_your_memory.Bench.Warmup.{receive_and_free, test_warmup_receive}

-- `std::min`
abbrev pub min : ℕ → ℕ → ℕ
min a b = if leb a b then a else b

-- `std::sort`, as an insertion sort.
abbrev pub insert : ℕ → List ℕ → List ℕ
insert x [] = x ∷ []
insert x (y ∷ ys) = if leb x y then x ∷ y ∷ ys else y ∷ insert x ys

abbrev pub sort : List ℕ → List ℕ
sort [] = []
sort (x ∷ xs) = insert x (sort xs)

module _ {S : Type 0} where
  -- The measuring loop, for `n` more turns, of which `j` have been made since the clock was read.
  unfoldable pub measure : Run S ⊤ → Clock S → (ℕ → ℕ) → ℕ → ℕ → ℕ → ℕ → Run S (List ℕ)
  measure turn clock rate interval zero j start = pure []
  measure turn clock rate interval (suc n) j start = do
    turn
    if j + 1 == interval
        then (do
          t ← now clock
          rest ← measure turn clock rate interval n 0 t
          pure (rate (t - start) ∷ rest))
        else measure turn clock rate interval n (j + 1) start

  -- One turn over several receivers.
  unfoldable pub receive_from_all : List (AnyReceiver S) → Run S ⊤
  unfolding receive_and_free
  receive_from_all [] = pure tt
  receive_from_all (rcv ∷ rcvers) = do
    receive_and_free rcv (text "error receiving buffer" ∷ [])
    receive_from_all rcvers

  -- The nested warmup loops over several receivers.
  unfoldable pub warmup_all : List (AnyReceiver S) → ℕ → Run S ⊤
  warmup_all rcvers zero = pure tt
  warmup_all rcvers (suc n) = do each rcvers; warmup_all rcvers n
    where
      each : List (AnyReceiver S) → Run S ⊤
      each [] = pure tt
      each (rcv ∷ rest) = do
        receive_and_free rcv (text "error freeing receive buffer" ∷ [])
        each rest

  -- What both functions do around their warmup and their turn: for a count of 0 they divide by it.
  unfoldable pub bw_recv : Run S ⊤ → Run S ⊤ → Clock S → (ℕ → ℕ → ℕ) → ℕ → Run S ℕ
  unfolding measure
  bw_recv warmup turn clock rate count = do
    quotient count (min count 5000)
    warmup
    start ← now clock
    measurements ← measure turn clock (rate (min count 5000)) (min count 5000) count 0 start
    now clock
    element (get_elem? (sort measurements) (length measurements / 2))

  -- `test_bw_recv` of one receiver.
  unfoldable pub test_bw_recv : AnyReceiver S → Clock S → (ℕ → ℕ → ℕ) → ℕ → Run S ℕ
  unfolding bw_recv receive_and_free test_warmup_receive
  test_bw_recv rcv clock rate count =
      bw_recv
        (wraps (test_warmup_receive rcv (count / 16)) (text "error during receive warmup" ∷ []))
        (receive_and_free rcv (text "error receiving buffer" ∷ [])) clock rate count

  -- `test_bw_recv` of several receivers.
  unfoldable pub test_bw_recv_all : List (AnyReceiver S) → Clock S → (ℕ → ℕ → ℕ) → ℕ → Run S ℕ
  unfolding bw_recv receive_from_all warmup_all
  test_bw_recv_all rcvers clock rate count =
      bw_recv (warmup_all rcvers (count / 16)) (receive_from_all rcvers) clock rate count
