-- ===== src/Write/Space.antt =====
-- Waiting for room in the receiver's ring.
use know_your_memory.Common.{
  ℕ, ◌≡◌, refl, sym, ap, ◌∙◌, Option, none, some, List, [], ◌∷◌, ◌++◌, map, inl, inr, ◌⊎◌, ◌↔◌,
}
use know_your_memory.Error.{Status, StatusOr, value, status, wrap, text}
use know_your_memory.Write.{RemoteRing, wait_for_space, get_write_addr_or_die}

-- A result is one or the other.
pub StatusOr-cases :
    {A : Type 0} (r : StatusOr A) → ((a : A) × (r ≡ value a)) ⊎ ((s : Status) × (r ≡ status s))
StatusOr-cases (value a) = inl (a, refl)
StatusOr-cases (status s) = inr (s, refl)

pub none-some : {A : Type 0} {x : A} → none ≡ some x → ⊥
none-some e = cc

module _ {S : Type 0} (ring : RemoteRing S) (len : ℕ) where
  -- The ring after a list of new heads.
  abbrev pub with_heads : S → List ℕ → S
  with_heads r [] = r
  with_heads r (h ∷ hs) = with_heads (ring.update_head r h) hs

  abbrev pub Refuses : S → Type 0
  Refuses r = (s : Status) × (ring.get_write_addr r len ≡ status s)

  -- The ring has no room before the last of the heads.
  abbrev pub Blocked : S → List ℕ → Type 0
  Blocked r [] = Unit
  Blocked r (h ∷ hs) = Refuses r × Blocked (ring.update_head r h) hs

  wait-value :
      (r : S) (acks : List (StatusOr ℕ)) (a : ℕ)
      → ring.get_write_addr r len ≡ value a
      → wait_for_space ring r acks len ≡ some (value a, r, acks)
  unfolding wait_for_space
  wait-value r [] a e = rw (e, wait_for_space) refl
  wait-value r (value h ∷ acks) a e = rw (e, wait_for_space) refl
  wait-value r (status s ∷ acks) a e = rw (e, wait_for_space) refl

  wait-Blocked :
      (r : S) (hs : List ℕ) (acks : List (StatusOr ℕ))
      → Blocked r hs
      → wait_for_space ring r (map value hs ++ acks) len
        ≡ wait_for_space ring (with_heads r hs) acks len
  unfolding wait_for_space
  wait-Blocked r [] acks b = refl
  wait-Blocked r (h ∷ hs) acks ((s, e), b) =
      rw (e, wait_for_space) (wait-Blocked (ring.update_head r h) hs acks b)

  -- Where an answer comes from.
  abbrev pub Granted : S → List (StatusOr ℕ) → ℕ → S → List (StatusOr ℕ) → Type 0
  Granted r acks a r' rest =
      (hs : List ℕ) × (acks ≡ map value hs ++ rest)
      × (r' ≡ with_heads r hs)
      × Blocked r hs
      × (ring.get_write_addr r' len ≡ value a)

  abbrev Answer : Type 0
  Answer = Option (StatusOr ℕ × S × List (StatusOr ℕ))

  -- Equal answers have equal parts.
  answer_parts :
      (a b : ℕ) (r r' : S) (acks rest : List (StatusOr ℕ))
      → ◌≡◌ {A = Answer} (some (value b, r, acks)) (some (value a, r', rest))
      → (b ≡ a) × (r ≡ r') × (acks ≡ rest)
  answer_parts a b r r' acks rest e = (cc, cc, cc)

  status-value :
      (s : Status) (a : ℕ) (r r' : S) (acks rest : List (StatusOr ℕ))
      → ◌≡◌ {A = Answer} (some (status s, r, acks)) (some (value a, r', rest))
      → ⊥
  status-value s a r r' acks rest e = cc

  Granted-at_once :
      (r : S) (acks : List (StatusOr ℕ)) (a b : ℕ) (r' : S) (rest : List (StatusOr ℕ))
      → ring.get_write_addr r len ≡ value b
      → wait_for_space ring r acks len ≡ some (value a, r', rest)
      → Granted r acks a r' rest
  Granted-at_once r acks a b r' rest e h =
      let (at, ring_same, left) =
        answer_parts a b r r' acks rest (sym (wait-value r acks b e) ∙ h) in
      ([], left, sym ring_same, tt, rw (sym ring_same) (e ∙ ap value at))

  wait-Granted :
      (r : S) (acks : List (StatusOr ℕ)) (a : ℕ) (r' : S) (rest : List (StatusOr ℕ))
      → wait_for_space ring r acks len ≡ some (value a, r', rest)
      → Granted r acks a r' rest
  unfolding wait_for_space
  wait-Granted r [] a r' rest h = elim (StatusOr-cases (ring.get_write_addr r len)) [
    | inl (b, e) ↦ Granted-at_once r [] a b r' rest e h
    | inr (s, e) ↦ elim (none-some (rw (e, wait_for_space) at h)) [ ]
  ]
  wait-Granted r (value x ∷ acks) a r' rest h = elim (StatusOr-cases (ring.get_write_addr r len)) [
    | inl (b, e) ↦ Granted-at_once r (value x ∷ acks) a b r' rest e h
    | inr (s, e) ↦
        let (hs, is, same, b, got) =
          wait-Granted (ring.update_head r x) acks a r' rest (rw (e, wait_for_space) at h) in
        (x ∷ hs, rw is, same, ((s, e), b), got)
  ]
  wait-Granted r (status x ∷ acks) a r' rest h = elim (StatusOr-cases (ring.get_write_addr r len)) [
    | inl (b, e) ↦ Granted-at_once r (status x ∷ acks) a b r' rest e h
    | inr (s, e) ↦
        elim (status-value (wrap x.message s) a r r' acks rest (rw (e, wait_for_space) at h)) [ ]
  ]

  -- The loop returns an address exactly when the ring gives it after some of the heads that arrive,
  -- refused every time before, and no error arrived in between; the ring is then the one with
  -- these heads, and the later answers are left.
  pub wait_for_space_iff :
      (r : S) (acks : List (StatusOr ℕ)) (a : ℕ) (r' : S) (rest : List (StatusOr ℕ))
      → (wait_for_space ring r acks len ≡ some (value a, r', rest)) ↔ Granted r acks a r' rest
  wait_for_space_iff r acks a r' rest = (
    wait-Granted r acks a r' rest,
    λ (hs, is, same, b, e).
        rw is (wait-Blocked r hs rest b ∙ rw (sym same) (wait-value r' rest a e)),
  )

  -- `get_write_addr_or_die` is that loop, unless the ring refuses and the first answer is an error.
  pub get_write_addr_or_die-wait_for_space :
      (r : S) (acks : List (StatusOr ℕ))
      → (get_write_addr_or_die ring r acks len ≡ wait_for_space ring r acks len)
        ⊎ (Refuses r
            × ((e : Status) × (rest : List (StatusOr ℕ)) × (acks ≡ status e ∷ rest)
                × (get_write_addr_or_die ring r acks len
                    ≡ some (status (wrap (text "error getting new head" ∷ []) e), r, rest))))
  unfolding wait_for_space get_write_addr_or_die
  get_write_addr_or_die-wait_for_space r acks = elim (StatusOr-cases (ring.get_write_addr r len)) [
    | inl (b, e) ↦ inl (rw (e, get_write_addr_or_die) (sym (wait-value r acks b e)))
    | inr (s, e) ↦ refused acks s e
  ]
    where
      refused :
          (acks : List (StatusOr ℕ)) (s : Status)
          → ring.get_write_addr r len ≡ status s
          → (get_write_addr_or_die ring r acks len ≡ wait_for_space ring r acks len)
            ⊎ (Refuses r
                × ((e : Status) × (rest : List (StatusOr ℕ)) × (acks ≡ status e ∷ rest)
                    × (get_write_addr_or_die ring r acks len
                        ≡ some (status (wrap (text "error getting new head" ∷ []) e), r, rest))))
      refused [] s e = inl (rw (e, get_write_addr_or_die, wait_for_space) refl)
      refused (value h ∷ rest) s e = inl (rw (e, get_write_addr_or_die, wait_for_space) refl)
      refused (status t ∷ rest) s e =
          inr ((s, e), (t, rest, refl, rw (e, get_write_addr_or_die) refl))
