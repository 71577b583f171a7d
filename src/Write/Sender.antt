-- ===== src/Write/Sender.antt =====
-- tests/write/write.cpp: `WriteSender`, whose messages carry their length and a checksum in front.
pub mod Posting
pub mod Wire
pub mod Waiting
pub mod Placing
use know_your_memory.Common.{
  ℕ, ◌%◌, ltb, if◌then◌else◌, Option, none, some, List, [], ◌∷◌, ◌++◌, true, false,
}
use know_your_memory.Common.Words.{add32, sub32, add64, sub64, to_u32}
use know_your_memory.Error.{Status, StatusOr, value, status, success, is_ok, code_ok}
use know_your_memory.Endpoint.Requests.{SendRequest, write_request, post_send_raw}
use know_your_memory.Endpoint.Completions.{Completion}
use know_your_memory.Write.{RemoteRing, SendRegion, wait_for_space}
use know_your_memory.Write.Memory.{Memory, store32, bytes}

-- `WriteSender::GetMemoryRegion`. `alloc` is `Allocator::Alloc`.
unfoldable pub get_memory_region :
    (ℕ → StatusOr SendRegion) → Memory → ℕ → StatusOr SendRegion × Memory
get_memory_region alloc m size = elim (alloc (add64 size 8)) [
  | value buf ↦ (
    value (record buf { addr = add64 buf.addr 8; length = to_u32 size }),
    store32 m buf.addr buf.length,
  )
  | status s ↦ (status s, m)
]

-- `WriteSender::Free`. `dealloc` is `Allocator::Free`.
unfoldable pub free : (SendRegion → Status) → SendRegion → Status
free dealloc reg = dealloc (record reg { addr = sub64 reg.addr 8; length = add32 reg.length 8 })

-- The fields of `WriteSender` that change. `rbuf` is the state of the ring.
pub record Sender (S : Type 0) : Type 0 where
  pub ackd_id : ℕ
  pub next_id : ℕ
  pub rbuf : S

-- What a call of `SendAsync` does: its result, the state, the memory, the answers that are left,
-- and the request that it posts, if it does.
pub record Sent (S : Type 0) : Type 0 where
  pub result : StatusOr ℕ
  pub sender : Sender S
  pub memory : Memory
  pub acks : List (StatusOr ℕ)
  pub posted : Option SendRequest

-- `crc` is `boost::crc_32_type`: the checksum of the bytes that it has processed.
module _ {S : Type 0} (ring : RemoteRing S) (crc : List ℕ → ℕ) (post : SendRequest → ℕ) where
  abbrev pub message_start : SendRegion → ℕ
  message_start reg = sub64 reg.addr 8

  abbrev pub sealed : Memory → SendRegion → Memory
  sealed m reg =
      store32 m (sub64 reg.addr 4)
        (to_u32 (crc (bytes m (message_start reg) 4 ++ bytes m reg.addr reg.length)))

  -- The request for the address `at` of a ring.
  abbrev pub request : ℕ → SendRegion → ℕ → S → SendRequest
  request id reg at r =
      write_request id reg.lkey (message_start reg) (add32 reg.length 8) at (ring.get_key r)

  -- The end of `SendAsync`, with an address.
  abbrev pub send_at : Sender S → Memory → SendRegion → S → List (StatusOr ℕ) → ℕ → Sent S
  send_at s m reg r acks at =
      let stat = post_send_raw post (request s.next_id reg at r) in
      record {
        result = if is_ok stat then value s.next_id else status stat;
        sender = record s {
          next_id = add64 s.next_id 1;
          rbuf = if is_ok stat then (ring.write r (add32 reg.length 8)).1 else r;
        };
        memory = sealed m reg;
        acks = acks;
        posted = some (request s.next_id reg at r);
      }

  abbrev pub give_up : Sender S → Memory → S → List (StatusOr ℕ) → Status → Sent S
  give_up s m r acks e = record {
    result = status e;
    sender = record s { next_id = add64 s.next_id 1; rbuf = r };
    memory = m;
    acks = acks;
    posted = none;
  }

  abbrev pub after_wait :
      Sender S → Memory → SendRegion → Option (StatusOr ℕ × S × List (StatusOr ℕ)) → Option (Sent S)
  after_wait s m reg none = none
  after_wait s m reg (some (value at, r, acks)) = some (send_at s m reg r acks at)
  after_wait s m reg (some (status e, r, acks)) = some (give_up s m r acks e)

  -- `WriteSender::SendAsync` for one region; `none` where the answers run out while it waits.
  unfoldable pub send_async : Sender S → Memory → List (StatusOr ℕ) → SendRegion → Option (Sent S)
  unfolding wait_for_space post_send_raw
  send_async s m acks reg =
      after_wait s m reg (wait_for_space ring s.rbuf acks (add32 reg.length 8))

-- `WriteSender::Wait`, for the completions that `PollSendCq` returns: the status, the highest id
-- that is acknowledged, and the completions that are left.
unfoldable pub wait :
    ℕ → ℕ → List (StatusOr Completion) → Option (Status × ℕ × List (StatusOr Completion))
wait ackd_id id [] = if ltb ackd_id id then none else some (success, ackd_id, [])
wait ackd_id id (value wc ∷ cs) =
    let again = wait (if ltb ackd_id wc.wr_id then wc.wr_id else ackd_id) id cs in
    if ltb ackd_id id then again else some (success, ackd_id, value wc ∷ cs)
wait ackd_id id (status s ∷ cs) =
    if ltb ackd_id id then some (s, ackd_id, cs) else some (success, ackd_id, status s ∷ cs)
