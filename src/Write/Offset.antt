-- ===== src/Write/Offset.antt =====
-- tests/write/write.cpp: `WriteOffsetSender` and `WriteOffsetReceiver`. Behind each message the sender
-- writes the ring's new tail into a cell of the receiver, which waits for that cell to change.
pub mod Tails
use know_your_memory.Common.{
  ℕ, ◌+◌, ◌==◌, if◌then◌else◌, Option, none, some, List, [], ◌∷◌, ◌++◌, true, false,
}
use know_your_memory.Common.Words.{add32, sub32, add64, sub64, to_u32}
use know_your_memory.Error.{Status, StatusOr, value, status, success, wrap, text, is_ok}
use know_your_memory.Endpoint.Requests.{
  SendRequest, write_request, write_inline_request, post_send_raw, send_request,
}
use know_your_memory.Write.{RemoteRing, LocalRing, SendRegion, ReceiveRegion, get_write_addr_or_die}
use know_your_memory.Write.Memory.{Memory, store32, load32}
use know_your_memory.Write.Receiver.{Receiver, flush_due, told}

-- `WriteOffsetSender::GetMemoryRegion`
unfoldable pub get_offset_region :
    (ℕ → StatusOr SendRegion) → Memory → ℕ → StatusOr SendRegion × Memory
get_offset_region alloc m size = elim (alloc (add64 size 4)) [
  | value buf ↦ (
    value (record buf { addr = add64 buf.addr 4; length = to_u32 size }),
    store32 m buf.addr buf.length,
  )
  | status s ↦ (status s, m)
]

-- `WriteOffsetSender::Free`
unfoldable pub free_offset_region : (SendRegion → Status) → SendRegion → Status
free_offset_region dealloc reg =
    dealloc (record reg { addr = sub64 reg.addr 4; length = add32 reg.length 4 })

-- The fields of `WriteOffsetSender` that its sends use.
pub record OffsetSender (S : Type 0) : Type 0 where
  pub next_id : ℕ
  pub rbuf : S
  pub tail_addr : ℕ
  pub tail_key : ℕ

-- What a call of `SendAsync` does: its result, the state, the answers that are left, the chain that
-- it posts, and the word that the last request of the chain writes.
pub record OffsetSent (S : Type 0) : Type 0 where
  pub result : StatusOr ℕ
  pub sender : OffsetSender S
  pub acks : List (StatusOr ℕ)
  pub posted : List SendRequest
  pub tail : Option ℕ

-- `tail_at` is the address of the local variable that holds the tail; `post` is `ibv_post_send`.
module _ {S : Type 0} (ring : RemoteRing S) (tail_at : ℕ) (post : List SendRequest → ℕ) where
  abbrev pub data_request : ℕ → SendRegion → ℕ → S → SendRequest
  data_request id reg at r =
      record (write_request id reg.lkey (sub64 reg.addr 4) (add32 reg.length 4) at
        (ring.get_key r)) { signaled = false }

  abbrev pub tail_request : ℕ → OffsetSender S → SendRequest
  tail_request id s = record (write_inline_request id tail_at 4 s.tail_addr s.tail_key) {
    lkey = none;
  }

  abbrev pub stopped : OffsetSender S → S → List (StatusOr ℕ) → Status → OffsetSent S
  stopped s r acks e = record {
    result = status e;
    sender = record s { next_id = add64 s.next_id 1; rbuf = r };
    acks = acks;
    posted = [];
    tail = none;
  }

  -- The end of `SendAsync` for one region, with an address and the next tail.
  abbrev pub post_pair : OffsetSender S → SendRegion → S → List (StatusOr ℕ) → ℕ → ℕ → OffsetSent S
  post_pair s reg r acks at t =
      let wrs = data_request s.next_id reg at r ∷ tail_request s.next_id s ∷ [] in
      let stat = post_send_raw (λ wr. post wrs) (data_request s.next_id reg at r) in
      record {
        result = if is_ok stat then value s.next_id else status stat;
        sender = record s {
          next_id = add64 s.next_id 1;
          rbuf = if is_ok stat then (ring.write r (add32 reg.length 4)).1 else r;
        };
        acks = acks;
        posted = wrs;
        tail = some t;
      }

  abbrev pub with_tail :
      OffsetSender S → SendRegion → S → List (StatusOr ℕ) → ℕ → StatusOr ℕ → OffsetSent S
  with_tail s reg r acks at (value t) = post_pair s reg r acks at t
  with_tail s reg r acks at (status e) = stopped s r acks e

  abbrev pub with_room :
      OffsetSender S
      → SendRegion
      → Option (StatusOr ℕ × S × List (StatusOr ℕ))
      → Option (OffsetSent S)
  with_room s reg none = none
  with_room s reg (some (value at, r, acks)) =
      some (with_tail s reg r acks at (ring.get_next_tail r (add32 reg.length 4)))
  with_room s reg (some (status e, r, acks)) = some (stopped s r acks e)

  -- `WriteOffsetSender::SendAsync` for one region; `none` where the answers run out while it waits.
  unfoldable pub send_offset :
      OffsetSender S → List (StatusOr ℕ) → SendRegion → Option (OffsetSent S)
  unfolding get_write_addr_or_die post_send_raw
  send_offset s acks reg =
      with_room s reg (get_write_addr_or_die ring s.rbuf acks (add32 reg.length 4))

  abbrev pub prepend :
      SendRequest
      → Option (StatusOr (List SendRequest) × S × List (StatusOr ℕ))
      → Option (StatusOr (List SendRequest) × S × List (StatusOr ℕ))
  prepend wr none = none
  prepend wr (some (status e, r, acks)) = some (status e, r, acks)
  prepend wr (some (value wrs, r, acks)) = some (value (wr ∷ wrs), r, acks)

  -- The loop of `SendAsync` for a list of regions: the requests, numbered from `i`, the ring and the
  -- answers that are left. The ring moves behind each region before the next one waits for room.
  unfoldable pub reserve :
      S
      → List (StatusOr ℕ)
      → ℕ
      → List SendRegion
      → Option (StatusOr (List SendRequest) × S × List (StatusOr ℕ))
  unfolding get_write_addr_or_die
  reserve r acks i [] = some (value [], r, acks)
  reserve r acks i (reg ∷ regs) = elim (get_write_addr_or_die ring r acks (add32 reg.length 4)) [
    | none ↦ none
    | some p ↦ elim p.0 [
      | status e ↦ some (
        status (wrap (text "error sending batch. Might be in inconsistent state" ∷ []) e),
        p.1,
        p.2,
      )
      | value at ↦
          prepend (data_request (i + 101) reg at p.1)
            (reserve (ring.write p.1 (add32 reg.length 4)).1 p.2 (i + 1) regs)
    ]
  ]

  abbrev pub post_chain :
      OffsetSender S
      → Option (StatusOr (List SendRequest) × S × List (StatusOr ℕ))
      → Option (OffsetSent S)
  post_chain s none = none
  post_chain s (some (status e, r, acks)) = some (stopped s r acks e)
  post_chain s (some (value messages, r, acks)) =
      let wrs = messages ++ tail_request s.next_id s ∷ [] in
      let stat = post_send_raw (λ wr. post wrs) (tail_request s.next_id s) in
      some (record {
        result = if is_ok stat then value s.next_id else status stat;
        sender = record s { next_id = add64 s.next_id 1; rbuf = r };
        acks = acks;
        posted = wrs;
        tail = some (ring.get_tail r);
      })

  -- `WriteOffsetSender::SendAsync` for a list of regions.
  unfoldable pub send_offsets :
      OffsetSender S → List (StatusOr ℕ) → List SendRegion → Option (OffsetSent S)
  unfolding reserve post_send_raw
  send_offsets s acks regs = post_chain s (reserve s.rbuf acks 0 regs)

module _ {L : Type 0} (ring : LocalRing L) where
  -- `WriteOffsetReceiver::Receive`: `tails` is what the tail's cell holds in each round of its loop,
  -- `m` the memory behind the loop. `none`: the rounds run out.
  unfoldable pub receive_offset : L → List ℕ → Memory → Option (ReceiveRegion × L × List ℕ)
  receive_offset b [] m = none
  receive_offset b (t ∷ tails) m =
      let again = receive_offset b tails m in
      let head = ring.get_read_ptr b in
      let length = load32 m head in
      if t == ring.get_read_off b
      then again
      else some (
        record { context = 0; addr = add64 head 4; length = sub32 length 4; lkey = none },
        (ring.read b length).1,
        tails,
      )

  -- `WriteOffsetReceiver::Free`, which leaves the memory as it is.
  unfoldable pub free_offset :
      (ℕ → Status) → Receiver L → ReceiveRegion → Option (Status × Receiver L)
  unfolding flush_due
  free_offset flush r reg = elim (ring.free r.rbuf (sub64 reg.addr 4)) [
    | none ↦ none
    | some (head, b) ↦
        if flush_due r.acked r.length r.max_unacked head
        then (if is_ok (flush head)
            then some (success, record (told ring flush r b head) { acked = head })
            else some (flush head, told ring flush r b head))
        else some (success, told ring flush r b head)
  ]
