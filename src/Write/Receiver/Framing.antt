-- ===== src/Write/Receiver/Framing.antt =====
-- The frame of a message: its length and its checksum are in front of it, and the receiver finds it
-- by them.
use mathlib.Core.Path.{subst}
use native.Mathlib.Nat.{mod-eq_of_lt}
use know_your_memory.Common.{
  ℕ, ◌+◌, ◌-◌, ◌≤◌, ◌<◌, ◌≡◌, ◌≢◌, refl, sym, ap, ◌∙◌, ◌==◌, true, some, List, [], ◌∷◌, ◌++◌, arith,
  Bool-cases, inl, inr, ==_ne, none,
}
use know_your_memory.Common.Words.{sub32, add64, sub64, to_u32, two32, two64}
use know_your_memory.Write.{LocalRing, SendRegion, ReceiveRegion, RemoteRing}
use know_your_memory.Write.Memory.{Memory, load32, store32, bytes, Copied, framed}
use know_your_memory.Write.Sender.{sealed}
use know_your_memory.Endpoint.Requests.{SendRequest}
use know_your_memory.Write.Receiver.{
  receive, await_length, await_checksum, contents, region, accept, check,
}

await_length-found :
    (m : Memory) (ms : List Memory) (head len : ℕ)
    → load32 m head ≡ len
    → len ≢ 0
    → await_length (m ∷ ms) head ≡ some (len, ms)
unfolding await_length
await_length-found m ms head len e ne =
    rw (==_ne (load32 m head) 0 (λ z. ne (sym e ∙ z))) (ap (λ l. some (l, ms)) e)

module _ (crc : List ℕ → ℕ) where
  -- A whole message of `len` bytes, header and all, lies at `head`.
  pub record Whole (m : Memory) (head len : ℕ) : Type 0 where
    pub header : 8 ≤ len
    pub inside : head + len < two64
    pub length_cell : load32 m head ≡ len
    pub checksum_cell : load32 m (head + 4) ≡ crc (bytes m head 4 ++ bytes m (head + 8) (len - 8))

  region-eq :
      (head len at n : ℕ)
      → add64 head 8 ≡ at
      → sub32 len 8 ≡ n
      → region crc head len ≡ record { context = 0; addr = at; length = n; lkey = none }
  region-eq head len at n p q = rw (p, q) refl

  contents-eq :
      (m : Memory) (head len at n : ℕ)
      → add64 head 8 ≡ at
      → len ≡ n
      → contents crc m head len ≡ bytes m head 4 ++ bytes m at n
  contents-eq m head len at n p q = rw (p, q) refl

  await_checksum-at_once :
      (result : ℕ) (m : Memory) (ms : List Memory) (head len : ℕ)
      → load32 m (add64 head 4) ≡ result
      → await_checksum crc result (m ∷ ms) head len ≡ some ms
  unfolding await_checksum
  await_checksum-at_once result m ms head len e =
      let same : (load32 m (add64 head 4) == result) ≡ true = ground arith in rw same refl

  await_checksum-stable :
      (result : ℕ) (m : Memory) (ms : List Memory) (head len : ℕ)
      → load32 m (add64 head 4) ≡ crc (contents crc m head len)
      → (rest : List Memory) × (await_checksum crc result (m ∷ m ∷ ms) head len ≡ some rest)
  unfolding await_checksum
  await_checksum-stable result m ms head len e =
      elim (Bool-cases (load32 m (add64 head 4) == result)) [
        | inl t ↦ (m ∷ ms, rw t refl)
        | inr f ↦ (ms, rw f (rw (again e) refl))
      ]
    where
      again :
          load32 m (add64 head 4) ≡ crc (contents crc m head len)
          → (load32 m (add64 head 4) == crc (contents crc m head len)) ≡ true
      again h = ground arith

  module _ {L : Type 0} (ring : LocalRing L) (b : L) where
    -- A message that lies whole at the read pointer for three rounds is received: the region is
    -- that of the bytes behind its header, and the ring has read the message with its header.
    pub receive-Whole :
        (m : Memory) (len : ℕ) (ms : List Memory)
        → len < two32
        → Whole m (ring.get_read_ptr b) len
        → (rest : List Memory) × (receive crc ring b (m ∷ m ∷ m ∷ ms)
            ≡ some (
              record { context = 0; addr = ring.get_read_ptr b + 8; length = len - 8; lkey = none },
              (ring.read b len).1,
              rest,
            ))
    unfolding receive
    receive-Whole m len ms small w =
        let (rest, got) = await_checksum-stable (crc []) m ms head (sub32 len 8) cell in
        (
          rest,
          ap (check crc ring b) (
                await_length-found m (m ∷ m ∷ ms) head len w.length_cell
                  (λ e. omega (arith, w.header)))
              ∙ ap (accept crc ring b len) got
              ∙ ap (λ g. some (g, (ring.read b len).1, rest))
                  (region-eq head len (head + 8) (len - 8) behind past),
        )
      where
        head : ℕ
        head = ring.get_read_ptr b

        past : sub32 len 8 ≡ len - 8
        past = omega (arith, w)

        behind : add64 head 8 ≡ head + 8
        behind = omega (arith, w)

        cell_at : add64 head 4 ≡ head + 4
        cell_at = omega (arith, w)

        cell : load32 m (add64 head 4) ≡ crc (contents crc m head (sub32 len 8))
        cell =
            ap (load32 m) cell_at
            ∙ w.checksum_cell
            ∙ ap crc (sym (contents-eq m head (sub32 len 8) (head + 8) (len - 8) behind past))

    -- Where the checksum of no bytes is 0, as it is for CRC-32, a message whose length has arrived
    -- and whose checksum's cell is still 0 is received at once, whatever its bytes are.
    pub receive-unchecked :
        (m m' : Memory) (len : ℕ) (ms : List Memory)
        → crc [] ≡ 0
        → load32 m (ring.get_read_ptr b) ≡ len
        → len ≢ 0
        → load32 m' (add64 (ring.get_read_ptr b) 4) ≡ 0
        → receive crc ring b (m ∷ m' ∷ ms)
          ≡ some (region crc (ring.get_read_ptr b) len, (ring.read b len).1, ms)
    unfolding receive
    receive-unchecked m m' len ms none_zero e ne zero_cell =
        ap (check crc ring b) (await_length-found m (m' ∷ ms) (ring.get_read_ptr b) len e ne)
        ∙ ap (accept crc ring b len) (
            await_checksum-at_once (crc []) m' ms (ring.get_read_ptr b) (sub32 len 8)
              (zero_cell ∙ sym none_zero))

sealed-eq :
    {S : Type 0} (ring : RemoteRing S) (crc : List ℕ → ℕ) (post : SendRequest → ℕ) (m : Memory)
    (reg : SendRegion) (at start v : ℕ)
    → sub64 reg.addr 4 ≡ at
    → sub64 reg.addr 8 ≡ start
    → to_u32 (crc (bytes m start 4 ++ bytes m reg.addr reg.length)) ≡ v
    → sealed ring crc post m reg ≡ store32 m at v
sealed-eq ring crc post m reg at start v p q r = rw (p, q, r) refl

pub sealed-store32 :
    {S : Type 0} (ring : RemoteRing S) (crc : List ℕ → ℕ) (post : SendRequest → ℕ) (m : Memory)
    (reg : SendRegion)
    → ((bs : List ℕ) → crc bs < two32)
    → 8 ≤ reg.addr
    → reg.addr + reg.length < two64
    → sealed ring crc post m reg
      ≡ store32 m (reg.addr - 8 + 4) (crc (bytes m (reg.addr - 8) 4 ++ bytes m reg.addr reg.length))
sealed-store32 ring crc post m reg bound low high =
    let whole = bound (bytes m (reg.addr - 8) 4 ++ bytes m reg.addr reg.length) in
    sealed-eq ring crc post m reg (reg.addr - 8 + 4) (reg.addr - 8)
      (crc (bytes m (reg.addr - 8) 4 ++ bytes m reg.addr reg.length)) (omega arith) (omega arith)
      (mod-eq_of_lt whole)

-- What `SendAsync` has sealed is a whole message wherever it is copied to.
Whole-sealed :
    {S : Type 0} (ring : RemoteRing S) (crc : List ℕ → ℕ) (post : SendRequest → ℕ) (m : Memory)
    (reg : SendRegion) (w : Memory) (head : ℕ)
    → ((bs : List ℕ) → crc bs < two32)
    → 8 ≤ reg.addr
    → reg.addr + reg.length < two64
    → head + (reg.length + 8) < two64
    → load32 m (reg.addr - 8) ≡ reg.length + 8
    → Copied (sealed ring crc post m reg) (reg.addr - 8) w head (reg.length + 8)
    → Whole crc w head (reg.length + 8)
      × (bytes w (head + 8) reg.length ≡ bytes m reg.addr reg.length)
Whole-sealed ring crc post m reg w head bound low high room long c =
    let (size, sum, front, rest) = framed m start reg.length w head v (bound content) copied in
    let payload : bytes w (head + 8) reg.length ≡ bytes m reg.addr reg.length =
      rest ∙ ap (λ a. bytes m a reg.length) back in
    (
      record {
        header = omega arith;
        inside = room;
        length_cell = size ∙ long;
        checksum_cell = sum ∙ ap crc (join front payload);
      },
      payload,
    )
  where
    start : ℕ
    start = reg.addr - 8

    content : List ℕ
    content = bytes m start 4 ++ bytes m reg.addr reg.length

    v : ℕ
    v = crc content

    back : start + 8 ≡ reg.addr
    back = omega arith

    copied : Copied (store32 m (start + 4) v) start w head (reg.length + 8)
    copied =
        subst (λ x. Copied x start w head (reg.length + 8))
          (sealed-store32 ring crc post m reg bound low high) c

    join :
        bytes w head 4 ≡ bytes m start 4
        → bytes w (head + 8) reg.length ≡ bytes m reg.addr reg.length
        → content ≡ bytes w head 4 ++ bytes w (head + 8) (reg.length + 8 - 8)
    join p q = let n : reg.length + 8 - 8 ≡ reg.length = omega arith in rw (n, p, q) refl

-- A message that `SendAsync` has sealed, and that lies copied at the receiver's read pointer for
-- three rounds, is received: the region holds the bytes of the sender's region. The length cell
-- must hold what `GetMemoryRegion` writes, the checksums have 32 bits, and neither copy runs over
-- the end of the address space.
pub receive-sealed :
    {S L : Type 0} (ring : RemoteRing S) (local : LocalRing L) (crc : List ℕ → ℕ)
    (post : SendRequest → ℕ) (m : Memory) (reg : SendRegion) (w : Memory) (b : L) (ms : List Memory)
    → ((bs : List ℕ) → crc bs < two32)
    → 8 ≤ reg.addr
    → reg.addr + reg.length < two64
    → reg.length + 8 < two32
    → local.get_read_ptr b + (reg.length + 8) < two64
    → load32 m (reg.addr - 8) ≡ reg.length + 8
    → Copied (sealed ring crc post m reg) (reg.addr - 8) w (local.get_read_ptr b) (reg.length + 8)
    → (got : ReceiveRegion) × (rest : List Memory) × (receive crc local b (w ∷ w ∷ w ∷ ms)
        ≡ some (got, (local.read b (reg.length + 8)).1, rest))
      × (got.length ≡ reg.length)
      × (bytes w got.addr got.length ≡ bytes m reg.addr reg.length)
receive-sealed ring local crc post m reg w b ms bound low high small room long c =
    let (whole, payload) =
      Whole-sealed ring crc post m reg w (local.get_read_ptr b) bound low high room long c in
    let (rest, got) = receive-Whole crc local b w (reg.length + 8) ms small whole in
    let n : reg.length + 8 - 8 ≡ reg.length = omega arith in
    (
      record {
        context = 0;
        addr = local.get_read_ptr b + 8;
        length = reg.length + 8 - 8;
        lkey = none;
      },
      rest,
      got,
      n,
      ap (bytes w (local.get_read_ptr b + 8)) n ∙ payload,
    )
