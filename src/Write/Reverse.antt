-- ===== src/Write/Reverse.antt =====
-- tests/write/reverse.cpp: `WriteReverseSender` and `WriteReverseReceiver`. The frame is behind the
-- message: its length and a byte that is not 0; a byte in front of it is 0 for the next message,
-- which will end there.
pub mod Frame
pub mod Delivery
pub mod Roundtrip
use know_your_memory.Common.{ℕ, ◌==◌, if◌then◌else◌, Option, none, some, List, [], ◌∷◌}
use know_your_memory.Common.Words.{add32, sub32, add64, sub64, to_u32}
use know_your_memory.Error.{Status, StatusOr, value, status, success, is_ok, wrap, text}
use know_your_memory.Endpoint.Requests.{SendRequest, write_request, post_send_raw}
use know_your_memory.Write.{LocalRing, RemoteRing, SendRegion, ReceiveRegion}
use know_your_memory.Write.Memory.{Memory, store8, store32, load32}
use know_your_memory.Write.Sender.{Sender, Sent}
use know_your_memory.Write.Receiver.{Receiver, flush_due}

-- What `GetMemoryRegion` writes to the buffer that it has got, for a message of `size` bytes.
abbrev pub reverse_frame : Memory → SendRegion → ℕ → Memory
reverse_frame m buf size =
    let last = sub64 (add64 buf.addr buf.length) 1 in
    store32 (store8 (store8 m buf.addr 0) last 1) (sub64 last 4) (to_u32 (add64 size 5))

-- `WriteReverseSender::GetMemoryRegion`. `alloc` is `Allocator::Alloc`.
unfoldable pub get_reverse_region :
    (ℕ → StatusOr SendRegion) → Memory → ℕ → StatusOr SendRegion × Memory
get_reverse_region alloc m size = elim (alloc (add64 size 6)) [
  | value buf ↦ (
    value (record buf { addr = add64 buf.addr 1; length = to_u32 size }),
    reverse_frame m buf size,
  )
  | status s ↦ (status s, m)
]

-- `WriteReverseSender::Free`. `dealloc` is `Allocator::Free`.
unfoldable pub free_reverse_region : (SendRegion → Status) → SendRegion → Status
free_reverse_region dealloc reg =
    dealloc (record reg { addr = sub64 reg.addr 1; length = add32 reg.length 6 })

module _ {S : Type 0} (ring : RemoteRing S) where
  -- The loop of `SendAsync` that asks for a new head until there is room. `acks` is what
  -- `AckReceiver::Get` returns, call by call. `none`: the answers run out.
  unfoldable pub retry : S → List (StatusOr ℕ) → ℕ → Option (StatusOr ℕ × S × List (StatusOr ℕ))
  retry r [] len = elim (ring.get_write_addr r len) [
    | value a ↦ some (value a, r, [])
    | status s ↦ none
  ]
  retry r (value h ∷ acks) len =
      let again = retry (ring.update_head r h) acks len in
      elim (ring.get_write_addr r len) [
        | value a ↦ some (value a, r, value h ∷ acks)
        | status s ↦ again
      ]
  retry r (status e ∷ acks) len = elim (ring.get_write_addr r len) [
    | value a ↦ some (value a, r, status e ∷ acks)
    | status s ↦ some (status (wrap (text "error getting head in RNR" ∷ []) s), r, acks)
  ]

  abbrev pub first_try : S → List (StatusOr ℕ) → ℕ → Option (StatusOr ℕ × S × List (StatusOr ℕ))
  first_try r [] len = none
  first_try r (value h ∷ acks) len = retry (ring.update_head r h) acks len
  first_try r (status e ∷ acks) len =
      some (status (wrap (text "error getting new head" ∷ []) e), r, acks)

  -- `SendAsync` after the first request for an address.
  abbrev pub addressed :
      S → List (StatusOr ℕ) → ℕ → StatusOr ℕ → Option (StatusOr ℕ × S × List (StatusOr ℕ))
  addressed r acks len (value a) = some (value a, r, acks)
  addressed r acks len (status s) = first_try r acks len

  module _ (post : SendRequest → ℕ) where
    abbrev pub reverse_request : ℕ → SendRegion → ℕ → S → SendRequest
    reverse_request id reg at r =
        write_request id reg.lkey (sub64 reg.addr 1) (add32 reg.length 6) at (ring.get_key r)

    -- The end of `SendAsync`, with an address. The ring moves by a byte less than it wrote.
    abbrev pub send_reverse_at : Sender S → Memory → SendRegion → S → List (StatusOr ℕ) → ℕ → Sent S
    send_reverse_at s m reg r acks at =
        let stat = post_send_raw post (reverse_request s.next_id reg at r) in
        record {
          result = if is_ok stat then value s.next_id else status stat;
          sender = record s {
            next_id = add64 s.next_id 1;
            rbuf = if is_ok stat then (ring.write r (sub32 (add32 reg.length 6) 1)).1 else r;
          };
          memory = m;
          acks = acks;
          posted = some (reverse_request s.next_id reg at r);
        }

    abbrev pub refused : Sender S → Memory → S → List (StatusOr ℕ) → Status → Sent S
    refused s m r acks e = record {
      result = status e;
      sender = record s { next_id = add64 s.next_id 1; rbuf = r };
      memory = m;
      acks = acks;
      posted = none;
    }

    abbrev pub sent_reverse :
        Sender S
        → Memory
        → SendRegion
        → Option (StatusOr ℕ × S × List (StatusOr ℕ))
        → Option (Sent S)
    sent_reverse s m reg none = none
    sent_reverse s m reg (some (value at, r, acks)) = some (send_reverse_at s m reg r acks at)
    sent_reverse s m reg (some (status e, r, acks)) = some (refused s m r acks e)

    -- `WriteReverseSender::SendAsync` for one region.
    unfoldable pub send_reverse :
        Sender S → Memory → List (StatusOr ℕ) → SendRegion → Option (Sent S)
    unfolding retry post_send_raw
    send_reverse s m acks reg =
        let len = add32 reg.length 6 in
        sent_reverse s m reg (addressed s.rbuf acks len (ring.get_write_addr s.rbuf len))

-- The loop of `Receive`. The memory is what each read of a volatile cell sees.
unfoldable pub await_indicator : List Memory → ℕ → Option (List Memory)
await_indicator [] next = none
await_indicator (m ∷ ms) next =
    let again = await_indicator ms next in if m next == 0 then again else some ms

module _ {L : Type 0} (ring : LocalRing L) where
  -- The cell that `Receive` waits for: the last byte of the message, in the mirror.
  abbrev pub indicator : Receiver L → ℕ
  indicator r = add64 (ring.get_read_ptr r.rbuf) r.length

  -- `Receive` for the length of a message.
  abbrev pub received_at : Receiver L → ℕ → ReceiveRegion × Receiver L
  received_at r len = (
    record { context = 0; addr = (ring.read r.rbuf len).0; length = sub32 len 5; lkey = some 0 },
    record r { rbuf = (ring.read r.rbuf len).1 },
  )

  abbrev pub read_length :
      Receiver L → Option (List Memory) → Option ((ReceiveRegion × Receiver L) × List Memory)
  read_length r none = none
  read_length r (some []) = none
  read_length r (some (m ∷ ms)) = some (received_at r (load32 m (sub64 (indicator r) 4)), ms)

  -- `WriteReverseReceiver::Receive`
  unfoldable pub receive_reverse :
      Receiver L → List Memory → Option ((ReceiveRegion × Receiver L) × List Memory)
  unfolding await_indicator
  receive_reverse r ms = read_length r (await_indicator ms (indicator r))

  -- `WriteReverseReceiver::Free`: `Free` of the plain receiver with the directions swapped, and
  -- without clearing the memory.
  unfoldable pub free_reverse :
      (ℕ → Status) → Receiver L → ReceiveRegion → Option (Status × Receiver L)
  unfolding flush_due
  free_reverse flush r reg = elim (ring.free r.rbuf reg.addr) [
    | none ↦ none
    | some (head, b) ↦
        let told = record r { rbuf = b; curr_offset = head } in
        if flush_due head r.length r.max_unacked r.acked
        then (if is_ok (flush head)
            then some (success, record told { acked = head })
            else some (flush head, told))
        else some (success, told)
  ]
