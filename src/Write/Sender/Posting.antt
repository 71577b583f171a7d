-- ===== src/Write/Sender/Posting.antt =====
-- `WriteSender::SendAsync` and the regions that it is given: what is posted, and where it goes.
use mathlib.Core.Path.{subst}
use know_your_memory.Common.{
  ℕ, ◌+◌, ◌<◌, ◌≡◌, inl, inr, refl, sym, ap, ◌∙◌, Option, none, some, List, true, false, arith,
  Bool-cases, ◌==◌, ==_true,
}
use know_your_memory.Common.Words.{add32, add64, sub64, to_u32, two32, two64}
use know_your_memory.Error.{Status, StatusOr, value, status, is_ok}
use know_your_memory.Endpoint.Requests.{SendRequest, post_send_raw}
use know_your_memory.Write.{RemoteRing, SendRegion, wait_for_space}
use know_your_memory.Write.Space.{none-some, Granted, wait_for_space_iff}
use know_your_memory.Write.Memory.{Memory, store32, load32, load32-store32}
use know_your_memory.Write.Sender.{
  Sender, Sent, get_memory_region, free, send_async, send_at, give_up, request, sealed, after_wait,
}

-- For a buffer of the length asked for, which has 32 bits and ends below the end of the address
-- space, `GetMemoryRegion` succeeds with a region of the size asked for behind a header; `Free`
-- hands the allocator back the buffer as it was, and the length cell holds the length of the
-- message that `SendAsync` posts for the region.
pub free-get_memory_region :
    (alloc : ℕ → StatusOr SendRegion) (dealloc : SendRegion → Status) (m : Memory) (size : ℕ)
    (buf : SendRegion)
    → size + 8 < two32
    → alloc (size + 8) ≡ value buf
    → buf.length ≡ size + 8
    → buf.addr + buf.length < two64
    → (reg : SendRegion) × (m' : Memory) × (get_memory_region alloc m size ≡ (value reg, m'))
      × (reg.length ≡ size)
      × (reg.addr ≡ buf.addr + 8)
      × (free dealloc reg ≡ dealloc buf)
      × (load32 m' buf.addr ≡ add32 reg.length 8)
unfolding get_memory_region free
free-get_memory_region alloc dealloc m size buf small got long fits = (
  record buf { addr = add64 buf.addr 8; length = to_u32 size },
  store32 m buf.addr buf.length,
  rw (get_memory_region, whole, got) refl,
  omega arith,
  omega arith,
  ap dealloc same,
  load32-store32 m buf.addr buf.length (omega arith) ∙ omega arith,
)
  where
    whole : add64 size 8 ≡ size + 8
    whole = omega arith

    same : record buf { addr = sub64 (add64 buf.addr 8) 8; length = add32 (to_u32 size) 8 } ≡ buf
    same =
        let at : sub64 (add64 buf.addr 8) 8 ≡ buf.addr = omega arith in
        let len : add32 (to_u32 size) 8 ≡ buf.length = omega arith in rw (at, len) refl

module _ {S : Type 0} (ring : RemoteRing S) (crc : List ℕ → ℕ) (post : SendRequest → ℕ)
    (s : Sender S) (m : Memory) (reg : SendRegion) where
  -- What a call that posts has done, with the request's own result.
  abbrev pub Posted : List (StatusOr ℕ) → Sent S → ℕ → ℕ → S → Type 0
  Posted acks sent id at r =
      Granted ring (add32 reg.length 8) s.rbuf acks at r sent.acks
      × (id ≡ s.next_id)
      × (sent.posted ≡ some (request ring crc post id reg at r))
      × (post (request ring crc post id reg at r) ≡ 0)
      × (sent.sender
          ≡ record s { next_id = add64 s.next_id 1; rbuf = (ring.write r (add32 reg.length 8)).1 })
      × (sent.memory ≡ sealed ring crc post m reg)

  send_at-Posted :
      (acks acks' : List (StatusOr ℕ)) (at id : ℕ) (r : S)
      → Granted ring (add32 reg.length 8) s.rbuf acks at r acks'
      → (send_at ring crc post s m reg r acks' at).result ≡ value id
      → Posted acks (send_at ring crc post s m reg r acks' at) id at r
  unfolding post_send_raw
  send_at-Posted acks acks' at id r g ok =
      elim (Bool-cases (post (request ring crc post s.next_id reg at r) == 0)) [
        | inl t ↦
            let same = next (fine t) in
            rw (sym same) (rw (fine t) (g, refl, refl, ==_true _ _ t, refl, refl))
        | inr f ↦ elim (failed f) [ ]
      ]
    where
      outcome : Status
      outcome = post_send_raw post (request ring crc post s.next_id reg at r)

      fine : (post (request ring crc post s.next_id reg at r) == 0) ≡ true → is_ok outcome ≡ true
      fine t = rw t refl

      next : is_ok outcome ≡ true → s.next_id ≡ id
      next t = let yes : ◌≡◌ {A = StatusOr ℕ} (value s.next_id) (value id) = rw t at ok in cc

      failed : (post (request ring crc post s.next_id reg at r) == 0) ≡ false → ⊥
      failed f =
          let no : is_ok outcome ≡ false = rw f refl in
          let bad : ◌≡◌ {A = StatusOr ℕ} (status outcome) (value id) = rw no at ok in cc

status-apart : {x : Status} {id : ℕ} → ◌≡◌ {A = StatusOr ℕ} (status x) (value id) → ⊥
status-apart h = cc

-- What a call that posts has done, in the terms of its parts.
pub send_async-Posted :
    {S : Type 0} (ring : RemoteRing S) (crc : List ℕ → ℕ) (post : SendRequest → ℕ) (s : Sender S)
    (m : Memory) (acks : List (StatusOr ℕ)) (reg : SendRegion) (sent : Sent S)
    → send_async ring crc post s m acks reg ≡ some sent
    → (id : ℕ) → sent.result ≡ value id
    → (at : ℕ) × (r : S) × Posted ring crc post s m reg acks sent id at r
unfolding send_async
send_async-Posted {S} ring crc post s m acks reg sent e id ok =
    go (wait_for_space ring s.rbuf acks (add32 reg.length 8)) refl e
  where
    Goal : Type 0
    Goal = (at : ℕ) × (r : S) × Posted ring crc post s m reg acks sent id at r

    go :
        (w : Option (StatusOr ℕ × S × List (StatusOr ℕ)))
        → wait_for_space ring s.rbuf acks (add32 reg.length 8) ≡ w
        → after_wait ring crc post s m reg w ≡ some sent
        → Goal
    go none w h = elim (none-some h) [ ]
    go (some (value at, r, acks')) w h =
        let same : send_at ring crc post s m reg r acks' at ≡ sent = cc in
        let g = (wait_for_space_iff ring (add32 reg.length 8) s.rbuf acks at r acks').0 w in
        (
          at,
          r,
          subst (λ x. Posted ring crc post s m reg acks x id at r) same
              (send_at-Posted ring crc post s m reg acks acks' at id r g (rw (sym same) at ok)),
        )
    go (some (status e, r, acks')) w h =
        let same : give_up ring crc post s m r acks' e ≡ sent = cc in
        let bad : ◌≡◌ {A = StatusOr ℕ} (status e) (value id) = rw (sym same) at ok in
        elim (status-apart bad) [ ]
