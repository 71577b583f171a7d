-- ===== src/Write/Receiver.antt =====
-- tests/write/write.cpp: `WriteReceiver`, which waits for a message to be complete, and tells the
-- sender of freed space when enough of it has come together.
pub mod Framing
pub mod Flushing
pub mod Progress
use know_your_memory.Common.{
  ℕ, ◌+◌, ltb, ◌==◌, if◌then◌else◌, Bool, ◌&&◌, ◌||◌, Option, none, some, List, [], ◌∷◌, ◌++◌,
}
use know_your_memory.Common.Words.{add32, sub32, add64, sub64}
use know_your_memory.Error.{Status, success, is_ok}
use know_your_memory.Write.{LocalRing, ReceiveRegion}
use know_your_memory.Write.Memory.{Memory, load32, bytes, clear}

-- The fields of `WriteReceiver`. `curr_offset` is what its acknowledger was last told.
pub record Receiver (L : Type 0) : Type 0 where
  pub rbuf : L
  pub curr_offset : ℕ
  pub acked : ℕ
  pub length : ℕ
  pub max_unacked : ℕ

-- The condition under which `Free` flushes the acknowledger.
unfoldable pub flush_due : ℕ → ℕ → ℕ → ℕ → Bool
flush_due acked length max head =
    ltb acked head && ltb max (sub32 head acked)
    || ltb head acked && ltb max (add32 head (sub32 length acked))

-- The first loop of `Receive`: it waits for a length. The memory is what each round of a loop
-- sees; the device writes to it in between. `none`: it runs out.
unfoldable pub await_length : List Memory → ℕ → Option (ℕ × List Memory)
await_length [] head = none
await_length (m ∷ ms) head =
    let again = await_length ms head in
    if load32 m head == 0 then again else some (load32 m head, ms)

module _ (crc : List ℕ → ℕ) where
  -- What a round computes for the next one: `head` is the start of the message.
  abbrev pub contents : Memory → ℕ → ℕ → List ℕ
  contents m head len = bytes m head 4 ++ bytes m (add64 head 8) len

  -- The second loop: it compares the checksum's cell to the checksum that it computed in the round
  -- before.
  unfoldable pub await_checksum : ℕ → List Memory → ℕ → ℕ → Option (List Memory)
  await_checksum result [] head len = none
  await_checksum result (m ∷ ms) head len =
      let again = await_checksum (crc (contents m head len)) ms head len in
      if load32 m (add64 head 4) == result then some ms else again

  abbrev pub region : ℕ → ℕ → ReceiveRegion
  region head len = record { context = 0; addr = add64 head 8; length = sub32 len 8; lkey = none }

  module _ {L : Type 0} (ring : LocalRing L) where
    -- The end of `Receive`.
    abbrev pub accept : L → ℕ → Option (List Memory) → Option (ReceiveRegion × L × List Memory)
    accept b len none = none
    accept b len (some rest) = some (region (ring.get_read_ptr b) len, (ring.read b len).1, rest)

    abbrev pub check : L → Option (ℕ × List Memory) → Option (ReceiveRegion × L × List Memory)
    check b none = none
    check b (some (len, ms)) =
        accept b len (await_checksum (crc []) ms (ring.get_read_ptr b) (sub32 len 8))

    -- `WriteReceiver::Receive`
    unfoldable pub receive : L → List Memory → Option (ReceiveRegion × L × List Memory)
    receive b ms = check b (await_length ms (ring.get_read_ptr b))

module _ {L : Type 0} (ring : LocalRing L) (flush : ℕ → Status) where
  abbrev pub told : Receiver L → L → ℕ → Receiver L
  told r b head = record r { rbuf = b; curr_offset = head }

  -- `WriteReceiver::Free`: the status, the state, and the memory. `flush` is `Acknowledger::Flush`
  -- for the offset that it sends.
  unfoldable pub free : Receiver L → Memory → ReceiveRegion → Option (Status × Receiver L × Memory)
  unfolding flush_due
  free r m reg = elim (ring.free r.rbuf (sub64 reg.addr 8)) [
    | none ↦ none
    | some (head, b) ↦
        let zeroed = clear m (sub64 reg.addr 8) (reg.length + 8) in
        if flush_due r.acked r.length r.max_unacked head
        then (if is_ok (flush head)
            then some (success, record (told r b head) { acked = head }, zeroed)
            else some (flush head, told r b head, zeroed))
        else some (success, told r b head, zeroed)
  ]
