-- ===== src/Ack.antt =====
-- tests/write/acknowledge.cpp: how the receiver's head gets back to the sender, by a message to it
-- (`SendAcknowledger`, `SendAckReceiver`) or by a read of it (`ReadAcknowledger`, `ReadAckReceiver`).
pub mod Heads
use know_your_memory.Common.{
  ℕ, ◌==◌, if◌then◌else◌, Option, none, some, List, [], ◌∷◌, Bool, true, false,
}
use know_your_memory.Common.Words.{to_u32, low32, high32, join32}
use know_your_memory.Error.{
  Status, StatusOr, value, status, success, failure, internal, text, number, wrap, is_ok,
}
use know_your_memory.Endpoint.Requests.{SendRequest, inline_request, read_request, post_send_raw}
use know_your_memory.Endpoint.Completions.{Completion}
use know_your_memory.Queue.{ReceiveQueue, Answer, Posted, get_mr, post_mr, get_receive_queue}
use know_your_memory.Write.Memory.{Memory, load32}

-- `AcknowledgerContext`: four 32-bit cells.
pub record AcknowledgerContext : Type 0 where
  pub data0 : ℕ
  pub data1 : ℕ
  pub data2 : ℕ
  pub data3 : ℕ

-- `SendAcknowledger::Ack`: `curr_offset_` is its one field that changes.
abbrev pub ack : ℕ → ℕ → ℕ
ack curr_offset off = to_u32 off

-- `SendAcknowledger::Flush`, for the address of `curr_offset_` and what `PollSendCq` returns.
unfoldable pub flush : (SendRequest → ℕ) → ℕ → StatusOr Completion → Status
unfolding post_send_raw
flush post at completion =
    let stat = post_send_raw post (inline_request 0 at 4) in
    if is_ok stat then (elim completion [ value wc ↦ success | status s ↦ s ]) else stat

-- `GetSendAckReceiver`, for the memory region of its queue.
unfoldable pub get_send_ack_receiver :
    (Posted → Status) → ℕ → ℕ → StatusOr ReceiveQueue × List Posted × Bool
unfolding get_receive_queue
get_send_ack_receiver post mr_addr lkey =
    let (res, posted, back) = get_receive_queue post mr_addr lkey 4 100 in
    let res' : StatusOr ReceiveQueue = elim res [
      | value q ↦ value q
      | status s ↦ status (wrap (text "Error setting up receive queue" ∷ []) s)
    ] in
    (res', posted, back)

-- One round of `SendAckReceiver::Get`: what the poll returns, the memory that is read then, and the
-- result of the verb by which the buffer is handed back.
pub record Round : Type 0 where
  pub completion : StatusOr Completion
  pub memory : Memory
  pub answer : Answer

-- The buffer of a completion; its number is passed as a `uint32_t`.
abbrev pub offset_in : ReceiveQueue → Memory → Completion → ℕ
offset_in q m wc = load32 m (get_mr q (to_u32 wc.wr_id)).addr

-- The loop of `SendAckReceiver::Get` by `PollRecvCqOnce`. It reads the completion `first` of
-- `PollRecvCq` again in every round, not the one that the round has polled. `none`: the rounds run out.
unfoldable pub get_more :
    Completion → ℕ → ReceiveQueue → List Round → Option (StatusOr ℕ × ReceiveQueue)
unfolding get_mr post_mr
get_more first offset q [] = none
get_more first offset q (r ∷ rs) =
    let (stat, q', batch) = post_mr (λ b. r.answer) q (to_u32 first.wr_id) in
    let again = get_more first (offset_in q r.memory first) q' rs in
    elim r.completion [
      | value wc ↦ if is_ok stat then again else some (status stat, q')
      | status s ↦ some (value offset, q)
    ]

-- `SendAckReceiver::Get`, for the round of `PollRecvCq` and those of the loop.
unfoldable pub get : ReceiveQueue → Round → List Round → Option (StatusOr ℕ × ReceiveQueue)
unfolding get_mr post_mr get_more
get q r rs = elim r.completion [
  | value wc ↦
      let (stat, q', batch) = post_mr (λ b. r.answer) q (to_u32 wc.wr_id) in
      if is_ok stat then get_more wc (offset_in q r.memory wc) q' rs else some (status stat, q')
  | status s ↦ some (status (wrap (text "error while polling recieve queue for receive" ∷ []) s), q)
]

-- `ReadAcknowledger::GetContext`, for the address and the key of its memory region.
unfoldable pub get_context : ℕ → ℕ → AcknowledgerContext
get_context addr lkey = record { data0 = low32 addr; data1 = high32 addr; data2 = lkey; data3 = 0 }

-- The fields of `ReadAckReceiver`: `addr` and `key` are remote, the `mr` is local.
pub record ReadAckReceiver : Type 0 where
  pub mr_addr : ℕ
  pub mr_lkey : ℕ
  pub key : ℕ
  pub addr : ℕ

-- `GetReadAckReceiver`, for the memory region of `ibv_reg_mr`. Where that or `calloc` fails, the code
-- goes on with a null pointer; that is not modelled.
unfoldable pub get_read_ack_receiver : ℕ → ℕ → AcknowledgerContext → ReadAckReceiver
get_read_ack_receiver mr_addr mr_lkey ctx = record {
  mr_addr = mr_addr;
  mr_lkey = mr_lkey;
  key = ctx.data2;
  addr = join32 ctx.data0 ctx.data1;
}

-- The loop of `ReadAckReceiver::Get`: it polls until the completion of its read, whose id is 0, and
-- drops the others. The id is kept in an `int`.
unfoldable pub await_read :
    ReadAckReceiver
    → Memory
    → List (StatusOr Completion)
    → Option (StatusOr ℕ × List (StatusOr Completion))
await_read r m [] = none
await_read r m (value wc ∷ cs) =
    let again = await_read r m cs in
    if to_u32 wc.wr_id == 0 then some (value (load32 m r.mr_addr), cs) else again
await_read r m (status s ∷ cs) = some (status s, cs)

-- The read that `ReadAckReceiver::Get` posts.
abbrev pub head_request : ReadAckReceiver → SendRequest
head_request r = read_request 0 r.mr_lkey r.mr_addr 4 r.addr r.key

-- `ReadAckReceiver::Get`, for the memory at its end and the completions of `PollSendCq`.
unfoldable pub read_get :
    (SendRequest → ℕ)
    → ReadAckReceiver
    → Memory
    → List (StatusOr Completion)
    → Option (StatusOr ℕ × List (StatusOr Completion))
unfolding await_read post_send_raw
read_get post r m cs =
    let stat = post_send_raw post (head_request r) in
    if is_ok stat then await_read r m cs else some (status stat, cs)

-- `Close` of the two classes that own a memory region, for the result of `ibv_dereg_mr`: the status,
-- and whether the memory is freed. `ReadAckReceiver` closes its endpoint then, by `close_ep`.
unfoldable pub close_acknowledger : ℕ → Status × Bool
close_acknowledger ret =
    if ret == 0
    then (success, true)
    else (failure internal (text "Error deregistering mr " ∷ number ret ∷ []), false)

unfoldable pub close_receiver : Status → ℕ → Status × Bool
close_receiver close_ep ret =
    if ret == 0
    then (close_ep, true)
    else (failure internal (text "Error deregistering mr " ∷ number ret ∷ []), false)
