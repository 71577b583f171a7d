-- ===== src/Setup/Addresses.antt =====
-- src/endpoint.cpp: which address infos the setup functions look up and free again.
pub mod Balance
use know_your_memory.Common.{
  arith, ℕ, Bool, true, false, not, ◌≡◌, ◌⊎◌, inl, inr, refl, sym, ap, ◌∙◌, Option, none, some,
  List, [], ◌∷◌, ◌==◌, ==_refl, ==_true, Bool-cases, if◌then◌else◌, length, remove_first,
}
use know_your_memory.Common.Ints.{ℤ, pos, is_zero}
use know_your_memory.Setup.Calls.{
  Rdma, Event, Call, Options, Hints, AddrInfo, Chars, get_addr_info, free_addr_info,
}
use know_your_memory.Setup.Effects.{
  ⊤, World, Post, Post-continue, Post-raise_if, Post-raise_last, Post-assert, Post-map, returned,
  perform, perform_, obtain, Outcome,
}
use know_your_memory.Setup.Create.{lookup, lookup_from, lookup_active, get_rdma_addr}
use know_your_memory.Setup.Walk.{Phase, Walk, next, is_idle, ev, idle}
use know_your_memory.Setup.Walk.States.{next-idle}

-- A call that neither looks up nor frees an address info, nor touches the queue pair.
abbrev pub is_plain : Call → Bool
is_plain (get_addr_info host port hints) = false
is_plain (free_addr_info h) = false
is_plain c = is_idle c

module _ (os : Rdma) where
  -- What is still held after a call, of what was held before it.
  abbrev pub holds : Call → Bool → ℕ → List ℕ → List ℕ
  holds (get_addr_info host port hints) true h held = h ∷ held
  holds (free_addr_info a) _ h held = remove_first a held
  holds _ _ h held = held

  -- The address infos that calls have looked up and not freed.
  unfoldable pub owed : List Event → List ℕ
  owed [] = []
  owed (e ∷ es) = holds e.call (is_zero e.answer) (os.addr_info (e ∷ es)).handle (owed es)

  -- The queue pair is in a phase, and these address infos are held.
  abbrev pub Keeps : Phase → List ℕ → World → Type 0
  Keeps p held w = Walk os w.calls p × (owed w.calls ≡ held)

  holds_plain :
      (c : Call) (b : Bool) (h : ℕ) (held : List ℕ) → is_plain c ≡ true → holds c b h held ≡ held
  holds_plain (get_addr_info host port hints) b h held e = ground arith
  holds_plain (free_addr_info a) b h held e = ground arith
  holds_plain _ b h held e = refl

  plain_idle : (c : Call) → is_plain c ≡ true → is_idle c ≡ true
  plain_idle (get_addr_info host port hints) e = refl
  plain_idle (free_addr_info a) e = refl
  plain_idle _ e = e

  -- A plain call.
  pub plain-Keeps :
      (c : Call) (r : ℤ) (p : Phase) (held : List ℕ) (w : World)
      → is_plain c ≡ true
      → Keeps p held w
      → Keeps p held (record w { calls = ev c r ∷ w.calls })
  unfolding owed
  plain-Keeps c r p held w e (k, o) = (
    next-idle c r k (plain_idle c e),
    holds_plain c (is_zero r) (os.addr_info (ev c r ∷ w.calls)).handle (owed w.calls) e ∙ o,
  )

  -- A look-up, by whether it succeeds.
  abbrev pub and_held : ℤ → ℕ → List ℕ → List ℕ
  and_held r h held = if is_zero r then h ∷ held else held

  get-Keeps :
      (host : Option Chars) (port : Option ℕ) (hints : Hints) (r : ℤ) (p : Phase) (held : List ℕ)
      (w : World)
      → Keeps p held w
      → let es = ev (get_addr_info host port hints) r ∷ w.calls in
        Keeps p (and_held r (os.addr_info es).handle held) (record w { calls = es })
  unfolding owed
  get-Keeps host port hints r p held w (k, o) = (
    next-idle (get_addr_info host port hints) r k refl,
    elim (Bool-cases (is_zero r)) [
      | inl t ↦
          rw t
            (ap (λ l. (os.addr_info (ev (get_addr_info host port hints) r ∷ w.calls)).handle ∷ l) o)
      | inr f ↦ rw f o
    ],
  )

  free-Keeps :
      (h : ℕ) (r : ℤ) (p : Phase) (held : List ℕ) (w : World)
      → Keeps p held w
      → Keeps p (remove_first h held) (record w { calls = ev (free_addr_info h) r ∷ w.calls })
  unfolding owed
  free-Keeps h r p held w (k, o) = (next-idle (free_addr_info h) r k refl, ap (remove_first h) o)

  -- The handle below another is the one that stays.
  remove_second :
      (r : ℤ) (h h' : ℕ) (held : List ℕ)
      → remove_first h (and_held r h' (h ∷ held)) ≡ and_held r h' held
  remove_second r h h' held = elim (Bool-cases (is_zero r)) [
    | inl t ↦ rw t (elim (Bool-cases (h' == h)) [
      | inl e ↦ rw e (ap (λ z. z ∷ held) (sym (==_true h' h e)))
      | inr f ↦ rw (f, ==_refl h) refl
    ])
    | inr f ↦ rw (f, ==_refl h) refl
  ]

  -- The result of a look-up is held if it succeeds, and nothing else is.
  abbrev pub Found : Phase → List ℕ → ℤ × AddrInfo → World → Type 0
  Found p held (r, rai) w = Keeps p (and_held r rai.handle held) w

  lookup-Found :
      (host : Option Chars) (port : Option ℕ) (hints : Hints) (p : Phase) (held : List ℕ)
      (w : World)
      → Keeps p held w
      → Post (Found p held) (λ _. ⊥) (lookup os host port hints w)
  unfolding lookup perform
  lookup-Found host port hints p held w k =
      returned _ _
        (get-Keeps host port hints (os.ret w.calls (get_addr_info host port hints)) p held w k)

  lookup_from-Found :
      (src : Chars) (dst : Option Chars) (port : Option ℕ) (hints : Hints) (p : Phase)
      (held : List ℕ) (w : World)
      → Keeps p held w
      → Post (Found p held) (λ _. ⊥) (lookup_from os src dst port hints w)
  unfolding lookup_from perform perform_
  lookup_from-Found src dst port hints p held w k =
      let hints1 : Hints = record hints { passive = true } in
      let c = get_addr_info (some src) none hints1 in
      let r = os.ret w.calls c in
      let w1 : World = record w { calls = ev c r ∷ w.calls } in
      let res = os.addr_info w1.calls in
      let k1 = get-Keeps (some src) none hints1 r p held w k in
      let hints2 : Hints = record {
        passive = false;
        source = some (res.ai_src_addr, res.ai_src_len);
      } in
      let r' = os.ret w1.calls (get_addr_info dst port hints2) in
      let w2 : World = record w { calls = ev (get_addr_info dst port hints2) r' ∷ w1.calls } in
      let h' = (os.addr_info w2.calls).handle in
      let r2 = os.ret w2.calls (free_addr_info res.handle) in
      elim (Bool-cases (is_zero r)) [
        | inl t ↦
            let k1' : Keeps p (res.handle ∷ held) w1 =
              (k1.0, k1.1 ∙ ap (λ z. if z then res.handle ∷ held else held) t) in
            let k2 = get-Keeps dst port hints2 r' p (res.handle ∷ held) w1 k1' in
            let k3 = free-Keeps res.handle r2 p (and_held r' h' (res.handle ∷ held)) w2 k2 in
            rw t (returned _ _ (k3.0, k3.1 ∙ remove_second r' res.handle h' held))
        | inr f ↦ rw f (returned _ _ k1)
      ]

  -- `get_rdma_addr` holds its result if it succeeds, and nothing else, whether or not it looked up a
  -- source first.
  pub get_rdma_addr-Found :
      (src dst : Option Chars) (port : Option ℕ) (hints : Hints) (p : Phase) (held : List ℕ)
      (w : World)
      → Keeps p held w
      → Post (Found p held) (λ _. ⊥) (get_rdma_addr os src dst port hints w)
  unfolding get_rdma_addr lookup_active
  get_rdma_addr-Found src dst port hints p held w k = by_flag hints.passive
    where
      active :
          (s : Option Chars) → Post (Found p held) (λ _. ⊥) (lookup_active os s dst port hints w)
      active none = lookup-Found dst port hints p held w k
      active (some s) = lookup_from-Found s dst port hints p held w k

      by_flag :
          (b : Bool)
          → Post
              (Found p held)
              (λ _. ⊥)
              ((if b then lookup os src port hints else lookup_active os src dst port hints) w)
      by_flag true = lookup-Found src port hints p held w k
      by_flag false = active src
