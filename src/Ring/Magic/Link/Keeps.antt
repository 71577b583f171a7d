-- ===== src/Ring/Magic/Link/Keeps.antt =====
-- Every step of a link keeps the invariant of its totals.
use know_your_memory.Common.{
  ℕ, ◌+◌, ◌-◌, ◌%◌, ◌≤◌, ◌<◌, ◌≡◌, ◌≢◌, ◌⊎◌, inl, inr, refl, sym, ap, ◌∙◌, ltb, if◌then◌else◌, true,
  false, some, List, [], ◌∷◌, ◌++◌, map, arith, dec_lt,
}
use mathlib.Core.List.{map-append}
use mathlib.Core.Path.{subst}
use know_your_memory.Common.Words.{to_u32, sub64}
use know_your_memory.Ring.Types.{Buffer}
use know_your_memory.Ring.Log.{
  Slot, total, offsets, mark, settle, settle_start, settle-total, settle_start-ge, total-mark,
}
use know_your_memory.Ring.Magic.{free, update_head}
use know_your_memory.Ring.Magic.Remote.{IsValid, used, update_head_lem, used-le}
use know_your_memory.Ring.Magic.Local.{Holds, live, settled, free_refines, free-nil}
use know_your_memory.Ring.Magic.Link.{Link, Step, send, receive, release, post, take}
use know_your_memory.Ring.Magic.Link.Trace.{
  Trace, Ascends, Inv, Ascends-le, Ascends-mono, Ascends-append, position-add,
}
use know_your_memory.Ring.Magic.Link.Flow.{send-Inv, receive-Inv}

freed-Inv :
    {k : Link} {t : Trace}
    → Inv k t
    → (ss : List Slot) → total ss ≡ total t.slots
    → Holds (settled k.local t.freed ss) (settle_start t.freed ss) (settle ss)
    → Inv
        (record k { local = settled k.local t.freed ss })
        (record t { freed = settle_start t.freed ss; slots = settle ss })
freed-Inv {k} {t} inv ss same holds = record {
  same_length = inv.same_length;
  same_addr = inv.same_addr;
  valid = inv.valid;
  holds = holds;
  at_head = inv.at_head;
  at_tail = rw kept inv.at_tail;
  in_use = rw kept inv.in_use;
  acks_at = inv.acks_at;
  ascends =
      Ascends-mono t.acked t.freed (settle_start t.freed ss) t.posted (settle_start-ge t.freed ss)
        inv.ascends;
  placed = rw kept inv.placed;
}
  where
    kept : settle_start t.freed ss + total (settle ss) ≡ t.freed + total t.slots
    kept = rw (settle-total t.freed ss, same)

release_slots :
    {k : Link} {t : Trace}
    → Inv k t
    → (at h : ℕ) (b : Buffer) (slots : List Slot) → t.slots ≡ slots
    → free k.local at ≡ some (h, b)
    → (u : Trace) × Inv (record k { local = b }) u
release_slots {k} {t} inv at h b [] es e =
    cc (free-nil k.local at (inv.holds.regions ∙ ap (offsets k.local.length t.freed) es))
release_slots {k} {t} inv at h b (s ∷ rest) es e =
    let ss = mark k.local.length (to_u32 (sub64 at k.local.addr)) t.freed (s ∷ rest) in
    let f = free_refines k.local t.freed at s rest (subst (Holds k.local t.freed) es inv.holds) in
    let same : b ≡ settled k.local t.freed ss = cc (f.0) in
    (
      record t { freed = settle_start t.freed ss; slots = settle ss },
      rw same (
          freed-Inv inv ss
            (total-mark k.local.length (to_u32 (sub64 at k.local.addr)) t.freed (s ∷ rest)
              ∙ ap total (sym es))
            f.1),
    )

release-Inv :
    {k : Link} {t : Trace}
    → Inv k t
    → (at h : ℕ) (b : Buffer) → free k.local at ≡ some (h, b)
    → (u : Trace) × Inv (record k { local = b }) u
release-Inv {k} {t} inv at h b e = release_slots inv at h b t.slots refl e

post-Inv :
    {k : Link} {t : Trace}
    → Inv k t
    → Inv
        (record k { acks = k.acks ++ k.local.head ∷ [] })
        (record t { posted = t.posted ++ t.freed ∷ [] })
post-Inv {k} {t} inv = record {
  same_length = inv.same_length;
  same_addr = inv.same_addr;
  valid = inv.valid;
  holds = inv.holds;
  at_head = inv.at_head;
  at_tail = inv.at_tail;
  in_use = inv.in_use;
  acks_at = rw (inv.acks_at, inv.holds.at_head) (sym (map-append _ t.posted (t.freed ∷ [])));
  ascends = Ascends-append t.acked t.freed t.posted inv.ascends;
  placed = inv.placed;
}

take_posted :
    {k : Link} {t : Trace}
    → Inv k t
    → (h : ℕ) (rest posted : List ℕ) → t.posted ≡ posted
    → k.acks ≡ h ∷ rest
    → (k.remote.full ≡ false) ⊎ (h ≢ k.remote.head)
    → (u : Trace) × Inv (record k { remote = update_head k.remote h; acks = rest }) u
unfolding update_head
take_posted {k} {t} inv h rest [] es e ok = cc (inv.acks_at, ap (map (λ x. x % k.local.length)) es)
take_posted {k} {t} inv h rest (x ∷ xs) es e ok = (
  record t { acked = x; posted = xs },
  record {
    same_length = inv.same_length;
    same_addr = inv.same_addr;
    valid = moved.0;
    holds = inv.holds;
    at_head = heads.0;
    at_tail = inv.at_tail;
    in_use = omega (arith, inv.in_use, moved.1, bounds);
    acks_at = heads.1;
    ascends = asc.1;
    placed = inv.placed;
  },
)
  where
    asc : Ascends t.acked (x ∷ xs) t.freed
    asc = subst (λ ps. Ascends t.acked ps t.freed) es inv.ascends

    mapped :
        map (λ y. y % k.local.length) t.posted
        ≡ x % k.local.length ∷ map (λ y. y % k.local.length) xs
    mapped = ap (map (λ y. y % k.local.length)) es

    heads : (h ≡ x % k.local.length) × (rest ≡ map (λ x. x % k.local.length) xs)
    heads = (cc (inv.acks_at, mapped), cc (inv.acks_at, mapped))

    bounds : (t.acked ≤ x) × (x ≤ t.freed)
    bounds = (asc.0, Ascends-le x t.freed xs asc.1)

    le : x - t.acked ≤ used k.remote
    le = omega (arith, bounds, inv.in_use)

    sum_is : t.acked + (x - t.acked) ≡ x
    sum_is = omega (arith, bounds)

    at : h ≡ (
        if ltb (k.remote.head + (x - t.acked)) k.remote.length
        then k.remote.head + (x - t.acked)
        else k.remote.head + (x - t.acked) - k.remote.length)
    at =
        rw (inv.at_head, inv.same_length)
          (heads.0
            ∙ ap (λ y. y % k.local.length) (sym sum_is)
            ∙ position-add t.acked (x - t.acked) k.local.length inv.holds.some_room
                (omega (arith, le, used-le k.remote inv.valid, inv.same_length)))

    grows : k.remote.full ≡ true → 0 < x - t.acked
    grows full = elim (dec_lt 0 (x - t.acked)) [
      | yes pos ↦ pos
      | no stays ↦ absurd (stuck ok (omega (arith, stays, bounds)))
    ]
      where
        stuck : (k.remote.full ≡ false) ⊎ (h ≢ k.remote.head) → x ≡ t.acked → ⊥
        stuck (inl f) same = cc
        stuck (inr ne) same = ne (heads.0 ∙ ap (λ y. y % k.local.length) same ∙ sym inv.at_head)

    moved :
        IsValid (update_head k.remote h)
        × (used (update_head k.remote h) + (x - t.acked) ≡ used k.remote)
    moved = update_head_lem k.remote (x - t.acked) h inv.valid le grows at

take-Inv :
    {k : Link} {t : Trace}
    → Inv k t
    → (h : ℕ) (rest : List ℕ) → k.acks ≡ h ∷ rest
    → (k.remote.full ≡ false) ⊎ (h ≢ k.remote.head)
    → (u : Trace) × Inv (record k { remote = update_head k.remote h; acks = rest }) u
take-Inv {k} {t} inv h rest e ok = take_posted inv h rest t.posted refl e ok

-- Every step keeps both ends in agreement: there are totals for the new state.
pub Step-Inv : {k l : Link} {t : Trace} → Step k l → Inv k t → (u : Trace) × Inv l u
Step-Inv {t} (send k len a r pos e) inv = (t, send-Inv inv len a r pos e)
Step-Inv {t} (receive k m rest e) inv =
    (record t { slots = t.slots ++ live m.len ∷ [] }, (receive-Inv inv m rest e).1)
Step-Inv (release k at h b e) inv = release-Inv inv at h b e
Step-Inv {t} (post k) inv = (record t { posted = t.posted ++ t.freed ∷ [] }, post-Inv inv)
Step-Inv (take k h rest e ok) inv = take-Inv inv h rest e ok
