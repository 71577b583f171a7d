-- ===== src/Write/Sender/Wire.antt =====
-- tests/write/write.cpp: what a message of `WriteSender::SendAsync` is on the wire.
use native.Mathlib.Nat.{mod-eq_of_lt}
use mathlib.Core.Path.{subst}
use know_your_memory.Common.{
  ℕ, ◌+◌, ◌-◌, ◌<◌, ◌≤◌, ◌≡◌, ◌⊎◌, inl, inr, refl, sym, ap, ◌∙◌, none, some, List, ◌++◌, true,
  false, arith,
}
use know_your_memory.Common.Words.{add32, add64, sub64, to_u32, two32, two64}
use know_your_memory.Error.{StatusOr, value}
use know_your_memory.Endpoint.Requests.{SendRequest, rdma_write}
use know_your_memory.Write.{RemoteRing, SendRegion}
use know_your_memory.Write.Space.{Granted}
use know_your_memory.Write.Memory.{Memory, store32, load32, bytes, load32-store32, store32-apart}
use know_your_memory.Write.Sender.{Sender, Sent, send_async, request, sealed}
use know_your_memory.Write.Sender.Posting.{send_async-Posted}
use know_your_memory.Write.Receiver.Framing.{sealed-store32}

-- An RDMA write of a region with the eight bytes in front of it, which completes.
abbrev pub wire_request : ℕ → SendRegion → ℕ → ℕ → SendRequest
wire_request id reg at key = record {
  wr_id = id;
  addr = reg.addr - 8;
  length = reg.length + 8;
  lkey = some reg.lkey;
  opcode = rdma_write;
  signaled = true;
  inlined = false;
  remote_addr = some at;
  rkey = some key;
  imm_data = none;
  compare_add = none;
}

-- A region of 32 bits of length behind eight bytes, that ends below the end of the address space.
pub record IsFramed (reg : SendRegion) : Type 0 where
  pub header : 8 ≤ reg.addr
  pub inside : reg.addr + reg.length < two64
  pub small : reg.length + 8 < two32

request-wire_request :
    {S : Type 0} (ring : RemoteRing S) (crc : List ℕ → ℕ) (post : SendRequest → ℕ) (id : ℕ)
    (reg : SendRegion) (at : ℕ) (r : S)
    → IsFramed reg
    → request ring crc post id reg at r ≡ wire_request id reg at (ring.get_key r)
request-wire_request ring crc post id reg at r f =
    let start : sub64 reg.addr 8 ≡ reg.addr - 8 = omega (arith, f) in
    let len : to_u32 (add32 reg.length 8) ≡ reg.length + 8 = omega (arith, f) in
    rw (start, len) refl

-- The checksum's cell holds the checksum of the length cell and of the data, and nothing else in
-- the memory has changed.
abbrev pub Sealed : (List ℕ → ℕ) → SendRegion → Memory → Memory → Type 0
Sealed crc reg m m' =
    (load32 m' (reg.addr - 4) ≡ crc (bytes m (reg.addr - 8) 4 ++ bytes m reg.addr reg.length))
    × ((x : ℕ) → (x < reg.addr - 4) ⊎ (reg.addr ≤ x) → m' x ≡ m x)

sealed-Sealed :
    {S : Type 0} (ring : RemoteRing S) (crc : List ℕ → ℕ) (post : SendRequest → ℕ) (m : Memory)
    (reg : SendRegion)
    → ((bs : List ℕ) → crc bs < two32)
    → IsFramed reg
    → Sealed crc reg m (sealed ring crc post m reg)
sealed-Sealed ring crc post m reg bound f =
    let sum = crc (bytes m (reg.addr - 8) 4 ++ bytes m reg.addr reg.length) in
    let cell : reg.addr - 8 + 4 ≡ reg.addr - 4 = omega (arith, f) in
    let same = sealed-store32 ring crc post m reg bound f.header f.inside in
    subst (λ m'. Sealed crc reg m m') {x = store32 m (reg.addr - 4) sum}
      (sym (same ∙ ap (λ a. store32 m a sum) cell))
      (
        load32-store32 m (reg.addr - 4) sum
            (bound (bytes m (reg.addr - 8) 4 ++ bytes m reg.addr reg.length)),
        λ x h.
            store32-apart m (reg.addr - 4) sum x
              (elim h [ inl l ↦ inl l | inr l ↦ inr (omega (arith, l, f)) ]),
      )

module _ {S : Type 0} (ring : RemoteRing S) (crc : List ℕ → ℕ) (post : SendRequest → ℕ)
    (s : Sender S) (m : Memory) (reg : SendRegion) where
  -- What a call that posts has done, with the address that it has waited for and the ring that gave
  -- it.
  abbrev pub Wired : List (StatusOr ℕ) → Sent S → ℕ → ℕ → S → Type 0
  Wired acks sent id at r =
      Granted ring (reg.length + 8) s.rbuf acks at r sent.acks
      × (id ≡ s.next_id)
      × (sent.posted ≡ some (wire_request id reg at (ring.get_key r)))
      × (post (wire_request id reg at (ring.get_key r)) ≡ 0)
      × (sent.sender.ackd_id ≡ s.ackd_id)
      × (sent.sender.next_id ≡ add64 id 1)
      × (sent.sender.rbuf ≡ (ring.write r (reg.length + 8)).1)
      × Sealed crc reg m sent.memory

  -- A call that returns an id has waited for an address for the data and a header of eight bytes,
  -- by the heads that arrived; it has put the checksum of the length cell and the data into the
  -- header and changed nothing else of the memory, and posted one write of header and data to that
  -- address, under the ring's key and the id, which the verb has accepted. The ring has moved behind
  -- the message, and the id was the next one. The region lies behind a header, below the end of the
  -- address space, its message has a length of 32 bits, and so have the checksums.
  pub send_async-posts :
      (acks : List (StatusOr ℕ)) (sent : Sent S) (id : ℕ)
      → ((bs : List ℕ) → crc bs < two32)
      → IsFramed reg
      → send_async ring crc post s m acks reg ≡ some sent
      → sent.result ≡ value id
      → (at : ℕ) × (r : S) × Wired acks sent id at r
  send_async-posts acks sent id bound f e ok =
      let (at, r, all) = send_async-Posted ring crc post s m acks reg sent e id ok in
      let (granted, next, posted, done, moved, crcd) = all in
      let len : add32 reg.length 8 ≡ reg.length + 8 = mod-eq_of_lt f.small in
      let wired = request-wire_request ring crc post id reg at r f in
      (
        at,
        r,
        (
          subst (λ n. Granted ring n s.rbuf acks at r sent.acks) len granted,
          next,
          posted ∙ ap some wired,
          ap post (sym wired) ∙ done,
          ap (λ k. k.ackd_id) moved,
          ap (λ k. k.next_id) moved ∙ ap (λ n. add64 n 1) (sym next),
          ap (λ k. k.rbuf) moved ∙ ap (λ n. (ring.write r n).1) len,
          subst (λ m'. Sealed crc reg m m') (sym crcd) (sealed-Sealed ring crc post m reg bound f),
        ),
      )
