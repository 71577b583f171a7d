-- ===== src/Write/Reverse/Delivery.antt =====
-- tests/write/reverse.cpp: where `WriteReverseReceiver` looks for a message, and where it lies.
use know_your_memory.Common.{
  inl, inr, sym, ap, ◌∙◌, ℕ, ◌+◌, ◌≤◌, ◌≡◌, ◌≢◌, ◌⊎◌, refl, some, List, ◌∷◌, arith, ==_ne, ◌<◌, ◌-◌,
}
use know_your_memory.Common.Words.{two64, sub64}
use know_your_memory.Write.Reverse.{read_length}
use know_your_memory.Ring.Types.{RemoteBuffer, Buffer}
use know_your_memory.Ring.Reverse.{read, get_read_off, get_read_ptr, get_write_addr, get_next_tail}
use know_your_memory.Ring.Reverse.Remote.{IsValid, down}
use know_your_memory.Write.Memory.{Memory, Copied, Copied-part, load32}
use know_your_memory.Write.Receiver.{Receiver}
use know_your_memory.Write.Rings.{reverse_local}
use know_your_memory.Write.Reverse.{await_indicator, indicator, value, receive_reverse, received_at}
use know_your_memory.Write.Reverse.Frame.{Mirrored, Copied-Mirrored, Mirrored-Copied}
use know_your_memory.Write.Memory.{load32-Copied}

await_indicator-found :
    (m : Memory) (ms : List Memory) (next : ℕ)
    → m next ≢ 0
    → await_indicator (m ∷ ms) next ≡ some ms
unfolding await_indicator
await_indicator-found m ms next ne = rw (==_ne (m next) 0 ne) refl

-- A receiver whose read pointer is the sender's tail.
pub record InStep (r : RemoteBuffer) (rec : Receiver Buffer) : Type 0 where
  pub same_addr : rec.rbuf.addr ≡ r.addr
  pub same_length : rec.rbuf.length ≡ r.length
  pub same_place : rec.rbuf.read_ptr ≡ r.tail
  pub whole_length : rec.length ≡ r.length

module _ (r : RemoteBuffer) (rec : Receiver Buffer) (v : IsValid r) (s : InStep r rec) where
  -- Where the receiver looks, and where it reads.
  abbrev last_cell : ℕ → ℕ
  last_cell n = down r.length r.tail (n + 5) + (n + 4)

  indicator_at :
      (n : ℕ)
      → n + 6 ≤ r.length
      → (indicator reverse_local rec ≡ r.addr + last_cell n)
        ⊎ ((indicator reverse_local rec ≡ r.addr + r.length + last_cell n)
            × (last_cell n < r.length))
  unfolding get_read_ptr get_read_off
  indicator_at n fits = ground (arith, v, s)

  indicator_small : (n : ℕ) → n + 6 ≤ r.length → indicator reverse_local rec < two64
  unfolding get_read_ptr get_read_off
  indicator_small n fits = ground (arith, v, s)

  pub read_at :
      (n : ℕ)
      → n + 6 ≤ r.length
      → ((read rec.rbuf (n + 5)).0 ≡ r.addr + down r.length r.tail (n + 5))
        × ((read rec.rbuf (n + 5)).1.read_ptr ≡ down r.length r.tail (n + 5))
  unfolding read
  read_at n fits = ground (arith, v, s)

  pub written_at :
      (n at : ℕ)
      → get_write_addr r (n + 6) ≡ value at
      → (n + 6 ≤ r.length)
        × ((at + 1 ≡ r.addr + down r.length r.tail (n + 5))
            ⊎ ((at + 1 ≡ r.addr + r.length + down r.length r.tail (n + 5))
                × (down r.length r.tail (n + 5) + (n + 5) ≤ r.length)))
  unfolding get_write_addr get_next_tail
  written_at n at e = ground (arith, v)

  -- The bytes behind the leading one lie where the receiver reads.
  pub written-Copied :
      (n at : ℕ) (m w : Memory) (a : ℕ)
      → get_write_addr r (n + 6) ≡ value at
      → Mirrored w r.addr r.length
      → Copied m a w at (n + 6)
      → Copied m (a + 1) w (r.addr + down r.length r.tail (n + 5)) (n + 5)
  written-Copied n at m w a e mir c =
      let (fits, place) = written_at n at e in
      let c' = Copied-part m a w at (n + 6) 1 (n + 5) c (omega arith) in
      elim place [
        | inl p ↦ rw (sym p) c'
        | inr (p, low) ↦
            Copied-Mirrored m (a + 1) w r.addr r.length (down r.length r.tail (n + 5)) (at + 1)
              (n + 5) mir c' p low
      ]

  -- The frame lies where the receiver looks.
  pub frame_there :
      (n : ℕ) (m w : Memory) (a : ℕ)
      → n + 6 ≤ r.length
      → Mirrored w r.addr r.length
      → Copied m (a + 1) w (r.addr + down r.length r.tail (n + 5)) (n + 5)
      → Copied m (a + 1 + n) w (indicator reverse_local rec - 4) 5
  frame_there n m w a fits mir c =
      let d = down r.length r.tail (n + 5) in
      let near : r.addr + d + n ≡ r.addr + (d + n) = omega arith in
      let c' = Copied-part m (a + 1) w (r.addr + d) (n + 5) n 5 c (omega arith) in
      elim (indicator_at n fits) [
        | inl p ↦
            let e : indicator reverse_local rec - 4 ≡ r.addr + d + n = omega (arith, p) in rw e c'
        | inr (p, low) ↦
            Mirrored-Copied m (a + 1 + n) w r.addr r.length (d + n)
              (indicator reverse_local rec - 4) 5 mir (rw near at c') (omega (arith, p))
              (omega (arith, low))
      ]

  -- A frame that lies there is received_at at once.
  pub received :
      (n : ℕ) (m w : Memory) (a : ℕ) (ms : List Memory)
      → n + 6 ≤ r.length
      → load32 m (a + 1 + n) ≡ n + 5
      → m (a + 1 + n + 4) ≢ 0
      → Copied m (a + 1 + n) w (indicator reverse_local rec - 4) 5
      → receive_reverse reverse_local rec (w ∷ w ∷ ms)
        ≡ some (received_at reverse_local rec (n + 5), ms)
  unfolding receive_reverse
  received n m w a ms fits size marked c =
      let i = indicator reverse_local rec in
      let big : 4 ≤ i = elim (indicator_at n fits) [
        | inl p ↦ omega (arith, p)
        | inr (p, _) ↦ omega (arith, p)
      ] in
      let at4 : i - 4 + 4 ≡ i = omega (arith, big) in
      let there : w i ≡ m (a + 1 + n + 4) = ap w (sym at4) ∙ c 4 (omega arith) in
      let small : i < two64 = indicator_small n fits in
      let word : sub64 i 4 ≡ i - 4 = omega (arith, big, small) in
      let len : load32 w (sub64 i 4) ≡ n + 5 =
        ap (load32 w) word
        ∙ load32-Copied m (a + 1 + n) w (i - 4) (λ j h. c j (omega (arith, h)))
        ∙ size in
      ap (read_length reverse_local rec)
        (await_indicator-found w (w ∷ ms) i (λ z. marked (sym there ∙ z)))
      ∙ ap (λ l. some (received_at reverse_local rec l, ms)) len
