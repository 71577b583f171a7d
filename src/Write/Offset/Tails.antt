-- ===== src/Write/Offset/Tails.antt =====
-- The tail that is written behind a message.
use mathlib.Core.Path.{subst}
use know_your_memory.Common.{
  ℕ, ◌≡◌, refl, sym, ap, ◌∙◌, Option, none, some, List, [], ◌∷◌, Bool-cases, inl, inr, ◌==◌, false,
}
use know_your_memory.Common.Words.{add32}
use know_your_memory.Error.{Status, StatusOr, value, status, failure, internal, text, number}
use know_your_memory.Endpoint.Requests.{SendRequest, post_send_raw}
use know_your_memory.Ring.Types.{RemoteBuffer}
use know_your_memory.Ring.Magic
use know_your_memory.Ring.Magic.Remote.{get_next_tail-write}
use know_your_memory.Write.{SendRegion, get_write_addr_or_die}
use know_your_memory.Write.Space.{none-some}
use know_your_memory.Write.Rings.{magic}
use know_your_memory.Write.Offset.{
  OffsetSender, OffsetSent, send_offset, with_room, with_tail, post_pair, stopped, data_request,
  tail_request,
}

module _ (tail_at : ℕ) (post : List SendRequest → ℕ) (s : OffsetSender RemoteBuffer)
    (reg : SendRegion) where
  -- What holds of a call that returns an id: the word that is written is the ring's new tail.
  abbrev pub Tailed : OffsetSent RemoteBuffer → Type 0
  Tailed sent = sent.tail ≡ some (sent.sender.rbuf).tail

  post_pair-Tailed :
      (r : RemoteBuffer) (acks : List (StatusOr ℕ)) (at t id : ℕ)
      → Magic.get_next_tail r (add32 reg.length 4) ≡ value t
      → (post_pair magic tail_at post s reg r acks at t).result ≡ value id
      → Tailed (post_pair magic tail_at post s reg r acks at t)
  unfolding post_send_raw
  post_pair-Tailed r acks at t id next ok = elim (Bool-cases (post wrs == 0)) [
    | inl p ↦ rw p (ap some (sym (get_next_tail-write r (add32 reg.length 4) t next)))
    | inr f ↦ elim (failed f) [ ]
  ]
    where
      wrs : List SendRequest
      wrs =
          data_request magic tail_at post s.next_id reg at r
          ∷ tail_request magic tail_at post s.next_id s
          ∷ []

      failed : (post wrs == 0) ≡ false → ⊥
      failed f =
          let bad : ◌≡◌ {A = StatusOr ℕ}
              (status
                (failure internal (text "error  " ∷ number (post wrs) ∷ text " sending" ∷ [])))
              (value id) =
            rw f at ok in
          cc

  -- On a magic ring, the word that a single send that returns an id writes behind its message is
  -- the tail that the ring has after the send.
  pub send_offset-Tailed :
      (acks : List (StatusOr ℕ)) (sent : OffsetSent RemoteBuffer) (id : ℕ)
      → send_offset magic tail_at post s acks reg ≡ some sent
      → sent.result ≡ value id
      → Tailed sent
  unfolding send_offset
  send_offset-Tailed acks sent id e ok =
      go (get_write_addr_or_die magic s.rbuf acks (add32 reg.length 4)) e
    where
      stops :
          (r : RemoteBuffer) (l : List (StatusOr ℕ)) (x : Status)
          → stopped magic tail_at post s r l x ≡ sent
          → ⊥
      stops r l x same =
          let bad : ◌≡◌ {A = StatusOr ℕ} (status x) (value id) = ap (λ k. k.result) same ∙ ok in cc

      pair :
          (r : RemoteBuffer) (l : List (StatusOr ℕ)) (at : ℕ) (n : StatusOr ℕ)
          → Magic.get_next_tail r (add32 reg.length 4) ≡ n
          → with_tail magic tail_at post s reg r l at n ≡ sent
          → Tailed sent
      pair r l at (value t) next same =
          subst Tailed same (post_pair-Tailed r l at t id next (ap (λ k. k.result) same ∙ ok))
      pair r l at (status x) next same = elim (stops r l x same) [ ]

      go :
          (o : Option (StatusOr ℕ × RemoteBuffer × List (StatusOr ℕ)))
          → with_room magic tail_at post s reg o ≡ some sent
          → Tailed sent
      go none h = elim (none-some h) [ ]
      go (some (value at, r, l)) h =
          pair r l at (Magic.get_next_tail r (add32 reg.length 4)) refl cc
      go (some (status x, r, l)) h = elim (stops r l x cc) [ ]
