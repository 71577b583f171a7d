-- ===== src/Ring/Log.antt =====
-- What a receiver's ring promises: a log of the regions handed out since the oldest one that is
-- still in use. Regions are freed in any order; the log gives space back from its front only.
use know_your_memory.Common.{
  ℕ, ◌+◌, ◌%◌, ◌≤◌, ◌<◌, ◌≡◌, refl, ◌==◌, if◌then◌else◌, remove, Bool, true, false, List, [], ◌∷◌,
  arith, Bool-cases, inl, inr,
}
use native.Mathlib.Nat.{add_assoc}
use know_your_memory.Common.Modular.{gap-ne}
use know_your_memory.Ring.Types.{head_after}

pub record Slot : Type 0 where
  pub len : ℕ
  pub freed : Bool

abbrev pub total : List Slot → ℕ
total [] = 0
total (s ∷ ss) = s.len + total ss

abbrev pub Positive : List Slot → Type 0
Positive [] = Unit {0}
Positive (s ∷ ss) = (0 < s.len) × Positive ss

-- The oldest region is in use.
abbrev pub FrontLive : List Slot → Type 0
FrontLive [] = Unit {0}
FrontLive (s ∷ ss) = s.freed ≡ false

-- Where the regions in use start, for a log whose first region starts after `p` bytes.
abbrev pub offsets : ℕ → ℕ → List Slot → List ℕ
offsets L p [] = []
offsets L p (s ∷ ss) =
    let rest = offsets L (p + s.len) ss in if s.freed then rest else (p % L) ∷ rest

-- Free the region that starts at the offset `off`.
unfoldable pub mark : ℕ → ℕ → ℕ → List Slot → List Slot
mark L off p [] = []
mark L off p (s ∷ ss) =
    (if p % L == off then record s { freed = true } else s) ∷ mark L off (p + s.len) ss

-- The freed regions at the front go.
unfoldable pub settle_start : ℕ → List Slot → ℕ
settle_start p [] = p
settle_start p (s ∷ ss) = let rest = settle_start (p + s.len) ss in if s.freed then rest else p

unfoldable pub settle : List Slot → List Slot
settle [] = []
settle (s ∷ ss) = let rest = settle ss in if s.freed then rest else s ∷ ss

pub offsets-mark :
    (L off p : ℕ) (ss : List Slot) → offsets L p (mark L off p ss) ≡ remove off (offsets L p ss)
unfolding remove mark
offsets-mark L off p [] = refl
offsets-mark L off p (s ∷ ss) = ground (arith, offsets-mark L off (p + s.len) ss)

pub total-mark : (L off p : ℕ) (ss : List Slot) → total (mark L off p ss) ≡ total ss
unfolding mark
total-mark L off p [] = refl
total-mark L off p (s ∷ ss) = ground (arith, total-mark L off (p + s.len) ss)

pub mark-Positive : (L off p : ℕ) (ss : List Slot) → Positive ss → Positive (mark L off p ss)
unfolding mark
mark-Positive L off p [] h = tt
mark-Positive L off p (s ∷ ss) h = ground (arith, mark-Positive L off (p + s.len) ss h.1)

-- Settling gives the front back and moves no region.
pub settle-total : (p : ℕ) (ss : List Slot) → settle_start p ss + total (settle ss) ≡ p + total ss
unfolding settle_start settle
settle-total p [] = refl
settle-total p (s ∷ ss) = ground (arith, settle-total (p + s.len) ss)

pub settle_start-ge : (p : ℕ) (ss : List Slot) → p ≤ settle_start p ss
unfolding settle_start
settle_start-ge p [] = omega arith
settle_start-ge p (s ∷ ss) = ground (arith, settle_start-ge (p + s.len) ss)

pub settle-Positive : (ss : List Slot) → Positive ss → Positive (settle ss)
unfolding settle
settle-Positive [] h = tt
settle-Positive (s ∷ ss) h = ground (arith, settle-Positive ss h.1)

pub settle-FrontLive : (ss : List Slot) → FrontLive (settle ss)
unfolding settle
settle-FrontLive [] = tt
settle-FrontLive (s ∷ ss) = elim (Bool-cases s.freed) [
  | inl e ↦ ground (arith, settle-FrontLive ss)
  | inr e ↦ ground arith
]

pub offsets-settle :
    (L p : ℕ) (ss : List Slot) → offsets L (settle_start p ss) (settle ss) ≡ offsets L p ss
unfolding settle_start settle
offsets-settle L p [] = refl
offsets-settle L p (s ∷ ss) = ground (arith, offsets-settle L (p + s.len) ss)

-- The position of the settled front is the first offset in use, or the end if there is none.
pub head_after-offsets :
    (L p q : ℕ) (ss : List Slot)
    → q ≡ (p + total ss) % L
    → head_after (offsets L p ss) q ≡ settle_start p ss % L
unfolding settle_start
head_after-offsets L p q [] e = ground arith
head_after-offsets L p q (s ∷ ss) e = ground (arith, head_after-offsets L (p + s.len) q ss)

-- The offset of a region stands for no other region of the log.
pub remove_absent :
    (L a d : ℕ) (ss : List Slot)
    → 0 < d
    → d + total ss ≤ L
    → Positive ss
    → remove (a % L) (offsets L (a + d) ss) ≡ offsets L (a + d) ss
unfolding remove
remove_absent L a d [] pos room ps = refl
remove_absent L a d (s ∷ ss) pos room ps =
    let ih : remove (a % L) (offsets L (a + d + s.len) ss) ≡ offsets L (a + d + s.len) ss =
      rw (add_assoc a d s.len)
        (remove_absent L a (d + s.len) ss (omega arith) (omega arith) ps.1) in
    ground (arith, ih, gap-ne a d L pos (omega arith))
