-- ===== src/Tests/Queues.antt =====
-- `ReceiveQueue` at concrete inputs.
use know_your_memory.Common.{
  ℕ, ◌<◌, ◌≡◌, refl, some, List, [], ◌∷◌, arith, length, get_elem?, false,
}
use know_your_memory.Error.{Status, success, value}
use know_your_memory.Queue.{
  ReceiveQueue, Entry, Answer, nothing_given, Posted, get_mr, post_mr, post_recv_raw,
  get_receive_queue,
}
use know_your_memory.Queue
use know_your_memory.Queue.Batch.{IsValid, pending, entry}
use know_your_memory.Queue.History
use know_your_memory.Queue.History.{post_each}
use know_your_memory.Queue.Setup

-- A queue with batches of two, whose buffers have 16 bytes.
abbrev pairs : ReceiveQueue
pairs = record {
  mr_addr = 1000;
  lkey = 5;
  transfer_size = 16;
  current_rcv_mr = 2;
  max_rcv_mr = 2;
  entries = record { wr_id = 0; addr = 0 } ∷ record { wr_id = 1; addr = 0 } ∷ [];
}

-- The same with one buffer waiting.
abbrev half : ReceiveQueue
half = record pairs {
  current_rcv_mr = 1;
  entries = record { wr_id = 0; addr = 0 } ∷ record { wr_id = 3; addr = 1048 } ∷ [];
}

half-IsValid : IsValid half
half-IsValid = record { some_left = omega arith; in_batch = omega arith; whole = refl }

-- The second batch is refused from its second entry on.
abbrev calls : List (ℕ × Answer)
calls =
    (3, record { ret = 0; bad = 0 })
    ∷ (4, record { ret = 0; bad = 0 })
    ∷ (1, record { ret = 0; bad = 0 })
    ∷ (2, record { ret = 12; bad = 1 })
    ∷ []

second_refused :
    (post_each pairs calls).1
    ≡ (success, nothing_given)
      ∷ (success, record { posted = entry pairs 4 ∷ entry pairs 3 ∷ []; refused = [] })
      ∷ (success, nothing_given)
      ∷ (post_recv_raw 12, record { posted = entry pairs 2 ∷ []; refused = entry pairs 1 ∷ [] })
      ∷ []
unfolding post_each post_mr Queue.context_to_addr post_recv_raw
second_refused = refl

abbrev accept : Posted → Status
accept b = success

-- A queue of three buffers, from a device that accepts them.
abbrev three : ReceiveQueue
three = record {
  mr_addr = 1000;
  lkey = 5;
  transfer_size = 16;
  current_rcv_mr = 64;
  max_rcv_mr = 64;
  entries = Queue.fresh_entries 64 0;
}

abbrev three_posted : List Posted
three_posted = Setup.slot 1000 5 16 0 ∷ Setup.slot 1000 5 16 1 ∷ Setup.slot 1000 5 16 2 ∷ []

three_runs : get_receive_queue accept 1000 5 16 3 ≡ (value three, three_posted, false)
unfolding get_receive_queue Queue.post_all
three_runs = refl

get_receive_queue-posts_example :
    (length three_posted ≡ 3)
    × (false ≡ false)
    × IsValid three
    × (pending three ≡ [])
    × ((k : ℕ)
        → k < 3
        → get_elem? three_posted k
          ≡ some (record {
            wr_id = k;
            lkey = 5;
            addr = (get_mr three k).addr;
            size = (get_mr three k).length;
          }))
get_receive_queue-posts_example =
    Setup.get_receive_queue-posts accept 1000 5 16 3 three three_posted false three_runs
