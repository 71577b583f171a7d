-- ===== src/Tests/Acks.antt =====
-- Acknowledgements, messages by send and receive, and the shared queue at concrete inputs.
use know_your_memory.Common.{
  ℕ, ◌≡◌, refl, Option, none, some, List, [], ◌∷◌, ◌++◌, map, arith, inl, true,
}
use know_your_memory.Error.{Status, is_ok, value, failure, not_found}
use know_your_memory.Endpoint.Requests
use know_your_memory.Endpoint.Requests.{SendRequest}
use know_your_memory.Endpoint.Completions.{Completion}
use know_your_memory.Queue.{ReceiveQueue, Entry, Answer, nothing_given, get_mr}
use know_your_memory.Queue.Batch.{IsValid}
use know_your_memory.Queue.Shared.Fetching
use know_your_memory.Queue.Shared.Threads
use know_your_memory.Queue.Shared.Rounds
use know_your_memory.Queue.Shared.{Spsc, run_round}
use know_your_memory.Write.{SendRegion, ReceiveRegion}
use know_your_memory.Write.Space.{none-some}
use know_your_memory.Write.Memory.{Memory, store32, load32}
use know_your_memory.Ack.{get, offset_in}
use know_your_memory.Ack.Heads
use know_your_memory.Ack.Heads.{polled, nothing}
use know_your_memory.SendReceive
use know_your_memory.SendReceive.{Connection, Listener, wait_last, listener_region, listener_free}
use know_your_memory.SendReceive.Batches
use know_your_memory.SendReceive.Contexts

abbrev done : ℕ → Completion
done n = record { wr_id = n; wc_error = 0; byte_len = 4; imm_data = 0; qp_num = 9 }

-- Buffers of four bytes at 1000, in batches of two; those of 0 and 1 hold the heads 7 and 8.
abbrev heads : ReceiveQueue
heads = record {
  mr_addr = 1000;
  lkey = 5;
  transfer_size = 4;
  current_rcv_mr = 2;
  max_rcv_mr = 2;
  entries = record { wr_id = 0; addr = 0 } ∷ record { wr_id = 1; addr = 0 } ∷ [];
}

heads-IsValid : IsValid heads
heads-IsValid = record { some_left = omega arith; in_batch = omega arith; whole = refl }

abbrev two_heads : Memory
two_heads = store32 (store32 (λ x. 0) 1000 7) 1004 8

abbrev no_more : Status
no_more = failure not_found []

get-stale_example :
    (q' : ReceiveQueue) × (get heads
        (polled two_heads (done 0))
        (map (polled two_heads) (done 1 ∷ []) ++ nothing two_heads no_more ∷ [])
      ≡ some (value (offset_in heads two_heads (done 0)), q'))
get-stale_example = Heads.get-stale two_heads heads (done 0) (done 1 ∷ []) no_more

-- The newer head is 8.
newer_head : load32 two_heads 1004 ≡ 8
newer_head = refl

abbrev accepts : SendRequest → ℕ
accepts wr = 0

abbrev region : ℕ → SendRegion
region addr = record { context = 0; addr = addr; length = 4; lkey = 5 }

abbrev connection : Connection
connection = record { ackd_id = 0; next_id = 3 }

abbrev posts : List SendRequest → ℕ
posts wrs = 0

abbrev chained : List SendRequest
chained = SendReceive.chain 3 (region 1000 ∷ region 2000 ∷ [])

abbrev listener : Listener
listener = record { srq = none; rqs = λ n. some heads }

abbrev taken_all : List Entry → Answer
taken_all b = record { ret = 0; bad = 0 }

listener_free-listener_region_example :
    (reg : ReceiveRegion) × (listener_region listener (done 1) ≡ some reg)
    × (reg.addr ≡ (get_mr heads 1).addr)
    × (reg.length ≡ 4)
    × (listener_free taken_all taken_all listener reg
        ≡ some (Contexts.own_post_mr taken_all taken_all listener heads 1))
listener_free-listener_region_example =
    Contexts.listener_free-listener_region taken_all taken_all listener (done 1) heads (omega arith)
      (omega arith) refl

-- A queue that is a list.
abbrev dequeue : List ℕ → Option (ℕ × List ℕ)
dequeue [] = none
dequeue (x ∷ q) = some (x, q)

dequeue_law : (q q' : List ℕ) (x : ℕ) → dequeue q ≡ some (x, q') → q ≡ x ∷ q'
dequeue_law [] q' x e = elim (none-some e) [ ]
dequeue_law (y ∷ q) q' x e = let a : y ≡ x = cc in let b : q ≡ q' = cc in rw (a, b) refl

enqueue_law : (q q' : List ℕ) (x : ℕ) → some (q ++ x ∷ []) ≡ some q' → q' ≡ q ++ x ∷ []
enqueue_law q q' x e = cc

abbrev list_queue : Spsc (List ℕ)
list_queue = record {
  contents = λ q. q;
  try_enqueue = λ q x. some (q ++ x ∷ []);
  try_dequeue = dequeue;
  contents-try_enqueue = enqueue_law;
  contents-try_dequeue = dequeue_law;
}

-- A device that refuses a batch from its second entry on.
abbrev refuses : List Entry → Answer
refuses b = record { ret = 12; bad = 1 }

run_round-Rounded_example :
    Fetching.Rounded list_queue heads nothing_given
      ((1 ∷ []) ∷ [] ∷ (0 ∷ 1 ∷ []) ∷ [])
      (run_round list_queue refuses heads nothing_given ((1 ∷ []) ∷ [] ∷ (0 ∷ 1 ∷ []) ∷ []))
run_round-Rounded_example =
    Fetching.run_round-Rounded list_queue refuses heads nothing_given
      ((1 ∷ []) ∷ [] ∷ (0 ∷ 1 ∷ []) ∷ []) heads-IsValid

-- Two connections with a buffer under way each, and one that holds a message.
abbrev running : Threads.System (List ℕ)
running = Rounds.around list_queue heads nothing_given ((1 ∷ []) ∷ (0 ∷ []) ∷ []) (2 ∷ []) true

abbrev after_round : Threads.System (List ℕ)
after_round =
    let (stat, s', qs', g') =
      run_round list_queue refuses heads nothing_given ((1 ∷ []) ∷ (0 ∷ []) ∷ []) in
    Rounds.around list_queue s' g' qs' (2 ∷ []) (is_ok stat)

a_round : Threads.Reach list_queue running after_round
a_round =
    Rounds.run_round-Reach list_queue refuses heads nothing_given [] ((1 ∷ []) ∷ (0 ∷ []) ∷ [])
      (2 ∷ [])

everywhere-Reach_example :
    (Threads.everywhere list_queue 1 after_round ≡ Threads.everywhere list_queue 1 running)
    × Threads.Loss list_queue after_round
    × IsValid after_round.queue
everywhere-Reach_example =
    Threads.everywhere-Reach list_queue 1 running after_round a_round heads-IsValid
      (inl (refl, refl))
