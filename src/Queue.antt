-- ===== src/Queue.antt =====
-- src/receive_queue.cpp: `ReceiveQueue`, which hands receive buffers back to the queue pair in
-- batches. The verbs are parameters: the answer of each call of theirs is an argument.
pub mod Batch
pub mod History
pub mod Setup
pub mod Shared
pub mod SharedSetup
use know_your_memory.Common.{
  ℕ, zero, suc, ◌-◌, ◌*◌, ◌+◌, ◌==◌, if◌then◌else◌, Option, none, some, List, [], ◌∷◌, set, true,
  take, drop, false, Bool, replicate,
}
use know_your_memory.Common.Words.{add64, mul64, to_u32}
use know_your_memory.Error.{
  Status, StatusOr, value, status, code_ok, failure, success, wrap, internal, text, number,
}

-- One entry of the chain of `recv_mr_wrs_` with its `recv_mr_sge_`: `wr_id` and `addr`. Their
-- length and key never change: they are those of the queue.
pub record Entry : Type 0 where
  pub wr_id : ℕ
  pub addr : ℕ

-- The fields of `ReceiveQueue`. `mr_addr` and `lkey` are those of `mr_`.
pub record ReceiveQueue : Type 0 where
  pub mr_addr : ℕ
  pub lkey : ℕ
  pub transfer_size : ℕ
  pub current_rcv_mr : ℕ
  pub max_rcv_mr : ℕ
  pub entries : List Entry

-- `struct mr`
pub record MemoryRegion : Type 0 where
  pub addr : ℕ
  pub length : ℕ

-- `ContextToAddr`
unfoldable pub context_to_addr : ReceiveQueue → ℕ → ℕ
context_to_addr q wr_id = add64 q.mr_addr (mul64 wr_id q.transfer_size)

-- `ReceiveQueue::GetMR`
unfoldable pub get_mr : ReceiveQueue → ℕ → MemoryRegion
unfolding context_to_addr
get_mr q wr_id = record { addr = context_to_addr q wr_id; length = q.transfer_size }

-- The answer of a verb that posts a chain: its result and, unless it is 0, how many entries stand
-- before `*bad_wr`. These are posted, the others are not.
pub record Answer : Type 0 where
  pub ret : ℕ
  pub bad : ℕ

-- What became of the entries that were given to the verb, in the order in which it gets them.
pub record Given : Type 0 where
  pub posted : List Entry
  pub refused : List Entry

abbrev pub nothing_given : Given
nothing_given = record { posted = []; refused = [] }

abbrev pub given : Answer → List Entry → Given
given a batch =
    if a.ret == 0
    then record { posted = batch; refused = [] }
    else record { posted = take a.bad batch; refused = drop a.bad batch }

-- The chain with the buffer in the next entry, from the end on.
abbrev pub filled : ReceiveQueue → ℕ → List Entry
filled q wr_id =
    set q.entries (q.current_rcv_mr - 1) (record { wr_id = wr_id; addr = context_to_addr q wr_id })

-- `Endpoint::PostRecvRaw`, for the result of `ibv_post_recv`
unfoldable pub post_recv_raw : ℕ → Status
post_recv_raw ret =
    if ret == 0 then success else failure internal (text "error posting raw receive buffer" ∷ [])

-- `ReceiveQueue::PostMR`: the status, the queue, and what is posted. `post` is `ibv_post_recv`; what
-- it refuses is in no batch any more.
unfoldable pub post_mr : (List Entry → Answer) → ReceiveQueue → ℕ → Status × ReceiveQueue × Given
unfolding context_to_addr post_recv_raw
post_mr post q wr_id =
    let i = q.current_rcv_mr - 1 in
    let batch = filled q wr_id in
    if i == 0
    then (
      post_recv_raw (post batch).ret,
      record q { current_rcv_mr = q.max_rcv_mr; entries = batch },
      given (post batch) batch,
    )
    else (success, record q { current_rcv_mr = i; entries = batch }, nothing_given)

-- `ReceiveQueue::Close`, for the result of `ibv_dereg_mr`: the status, and whether the region's
-- memory is freed.
unfoldable pub close : ℕ → Status × Bool
close ret =
    if ret == 0
    then (success, true)
    else (failure internal (text "error  " ∷ number ret ∷ text " deregistering mr" ∷ []), false)

-- A buffer that is posted while the queue is set up: `ep->PostRecv(i, lkey, addr, transfer_size)`.
pub record Posted : Type 0 where
  pub wr_id : ℕ
  pub lkey : ℕ
  pub addr : ℕ
  pub size : ℕ

-- The chain of `GetReceiveQueue`: entries numbered from `i` on, with no address.
unfoldable pub fresh_entries : ℕ → ℕ → List Entry
fresh_entries zero i = []
fresh_entries (suc n) i = record { wr_id = i; addr = 0 } ∷ fresh_entries n (i + 1)

abbrev pub batch_size : ℕ
batch_size = 64

-- The loop of `GetReceiveQueue` over the buffers `i` to `i + n - 1`. `post` is `Endpoint::PostRecv`.
unfoldable pub post_all : (Posted → Status) → ℕ → ℕ → ℕ → ℕ → ℕ → Status × List Posted
post_all post mr_addr lkey transfer_size zero i = (success, [])
post_all post mr_addr lkey transfer_size (suc n) i =
    let b : Posted = record {
      wr_id = i;
      lkey = lkey;
      addr = add64 mr_addr (mul64 i transfer_size);
      size = transfer_size;
    } in
    let rest = post_all post mr_addr lkey transfer_size n (i + 1) in
    elim (code_ok (post b).code) [
      | true ↦ (rest.0, b ∷ rest.1)
      | false ↦ (wrap (text "error setting up receive queue" ∷ []) (post b), [])
    ]

-- `GetReceiveQueue`, for the memory region of `ibv_reg_mr`: its result, the buffers that are posted,
-- and whether the region is given back, as it is after an error.
unfoldable pub get_receive_queue :
    (Posted → Status) → ℕ → ℕ → ℕ → ℕ → StatusOr ReceiveQueue × List Posted × Bool
unfolding post_all fresh_entries
get_receive_queue post mr_addr lkey transfer_size inflight =
    let (s, posted) = post_all post mr_addr lkey transfer_size inflight 0 in
    if code_ok s.code
    then (
      value (record {
        mr_addr = mr_addr;
        lkey = lkey;
        transfer_size = transfer_size;
        current_rcv_mr = batch_size;
        max_rcv_mr = batch_size;
        entries = fresh_entries batch_size 0;
      }),
      posted,
      false,
    )
    else (status s, posted, true)
