-- ===== src/Write.antt =====
-- tests/write/write.cpp and tests/write/write.hpp: sending by RDMA writes into the receiver's ring.
-- A ring is a record of operations, as the code's classes `Buffer` and `RemoteBuffer` are abstract.
pub mod Space
pub mod Memory
pub mod Rings
pub mod Sender
pub mod Receiver
pub mod Offset
pub mod Reverse
use know_your_memory.Common.{ℕ, Option, none, some, List, [], ◌∷◌, ◌≡◌}
use know_your_memory.Error.{Status, StatusOr, value, status, wrap, text}

-- `RemoteBuffer` over a state `S`. The law: `Write` answers as `GetWriteAddr` does.
pub record RemoteRing (S : Type 0) : Type 0 where
  pub update_head : S → ℕ → S
  pub get_key : S → ℕ
  pub get_tail : S → ℕ
  pub get_write_addr : S → ℕ → StatusOr ℕ
  pub get_next_tail : S → ℕ → StatusOr ℕ
  pub write : S → ℕ → StatusOr ℕ × S
  pub write-get_write_addr : (r : S) (len : ℕ) → (write r len).0 ≡ get_write_addr r len

-- `Buffer` over a state `S`.
pub record LocalRing (S : Type 0) : Type 0 where
  pub get_read_ptr : S → ℕ
  pub get_read_off : S → ℕ
  pub read : S → ℕ → ℕ × S
  pub free : S → ℕ → Option (ℕ × S)

-- `SendRegion`, and `memory::Region` of src/mm.hpp, which has the same fields.
pub record SendRegion : Type 0 where
  pub context : ℕ
  pub addr : ℕ
  pub length : ℕ
  pub lkey : ℕ

-- `ReceiveRegion`. Its `lkey` is `none` where the code leaves it uninitialised.
pub record ReceiveRegion : Type 0 where
  pub context : ℕ
  pub addr : ℕ
  pub length : ℕ
  pub lkey : Option ℕ

module _ {S : Type 0} (ring : RemoteRing S) where
  -- The loop of `get_write_addr_or_die` and of `WriteSender::SendAsync`: while the ring has no
  -- room, it asks the acknowledgement receiver for a new head. `acks` is what `AckReceiver::Get`
  -- returns, call by call; the answers that are left are returned. `none`: they run out.
  unfoldable pub wait_for_space :
      S → List (StatusOr ℕ) → ℕ → Option (StatusOr ℕ × S × List (StatusOr ℕ))
  wait_for_space r [] len = elim (ring.get_write_addr r len) [
    | value a ↦ some (value a, r, [])
    | status s ↦ none
  ]
  wait_for_space r (value h ∷ acks) len =
      let again = wait_for_space (ring.update_head r h) acks len in
      elim (ring.get_write_addr r len) [
        | value a ↦ some (value a, r, value h ∷ acks)
        | status s ↦ again
      ]
  wait_for_space r (status e ∷ acks) len = elim (ring.get_write_addr r len) [
    | value a ↦ some (value a, r, status e ∷ acks)
    | status s ↦ some (status (wrap e.message s), r, acks)
  ]

  -- The first round of `get_write_addr_or_die`, whose error is another one.
  abbrev pub first_ack : S → List (StatusOr ℕ) → ℕ → Option (StatusOr ℕ × S × List (StatusOr ℕ))
  first_ack r [] len = none
  first_ack r (value h ∷ acks) len = wait_for_space (ring.update_head r h) acks len
  first_ack r (status e ∷ acks) len =
      some (status (wrap (text "error getting new head" ∷ []) e), r, acks)

  -- `get_write_addr_or_die`
  unfoldable pub get_write_addr_or_die :
      S → List (StatusOr ℕ) → ℕ → Option (StatusOr ℕ × S × List (StatusOr ℕ))
  unfolding wait_for_space
  get_write_addr_or_die r acks len = elim (ring.get_write_addr r len) [
    | value a ↦ some (value a, r, acks)
    | status s ↦ first_ack r acks len
  ]
