-- ===== src/Write/Memory.antt =====
-- The memory that senders and receivers work on: bytes by address, and 32-bit words in little-endian
-- order.
use know_your_memory.Common.{
  ℕ, zero, suc, ◌+◌, ◌*◌, ◌/◌, ◌%◌, ◌≤◌, ◌<◌, ◌≡◌, refl, sym, ap, ◌∙◌, ◌==◌, if◌then◌else◌, List,
  [], ◌∷◌, arith, ltb, ◌⊎◌, inl, inr,
}
use know_your_memory.Common.Words.{two32}

abbrev pub Memory : Type 0
Memory = ℕ → ℕ

abbrev pub store8 : Memory → ℕ → ℕ → Memory
store8 m a v x = if x == a then v else m x

abbrev pub store32 : Memory → ℕ → ℕ → Memory
store32 m a w =
    store8
      (store8 (store8 (store8 m a (w % 256)) (a + 1) (w / 256 % 256)) (a + 2) (w / 65536 % 256))
      (a + 3) (w / 16777216 % 256)

abbrev pub load32 : Memory → ℕ → ℕ
load32 m a = m a + m (a + 1) * 256 + m (a + 2) * 65536 + m (a + 3) * 16777216

-- The `n` bytes from `a` on.
unfoldable pub bytes : Memory → ℕ → ℕ → List ℕ
bytes m a zero = []
bytes m a (suc n) = m a ∷ bytes m (a + 1) n

-- `memset(a, 0, n)`
abbrev pub clear : Memory → ℕ → ℕ → Memory
clear m a n x = if ltb x a then m x else if ltb x (a + n) then 0 else m x

pub load32-store32 : (m : Memory) (a w : ℕ) → w < two32 → load32 (store32 m a w) a ≡ w
load32-store32 m a w h = ground arith

pub store32-apart : (m : Memory) (a w x : ℕ) → (x < a) ⊎ (a + 4 ≤ x) → store32 m a w x ≡ m x
store32-apart m a w x h = ground arith

pub load32-apart :
    (m : Memory) (a w b : ℕ) → (b + 4 ≤ a) ⊎ (a + 4 ≤ b) → load32 (store32 m a w) b ≡ load32 m b
load32-apart m a w b h = ground arith

pub bytes-apart :
    (m : Memory) (a w b n : ℕ) → (b + n ≤ a) ⊎ (a + 4 ≤ b) → bytes (store32 m a w) b n ≡ bytes m b n
unfolding bytes
bytes-apart m a w b zero h = refl
bytes-apart m a w b (suc n) h =
    let here : store32 m a w b ≡ m b =
      store32-apart m a w b (elim h [ inl l ↦ inl (omega arith) | inr r ↦ inr r ]) in
    rw
      (
        here,
        bytes-apart m a w (b + 1) n
            (elim h [ inl l ↦ inl (omega arith) | inr r ↦ inr (omega arith) ]),
      )
      refl

-- The `n` bytes of one memory at `b` are those of another at `a`.
abbrev pub Copied : Memory → ℕ → Memory → ℕ → ℕ → Type 0
Copied m a w b n = (i : ℕ) → i < n → w (b + i) ≡ m (a + i)

Copied-start : (m : Memory) (a : ℕ) (w : Memory) (b n : ℕ) → Copied m a w b n → 0 < n → w b ≡ m a
Copied-start m a w b n c h =
    let z : b + 0 ≡ b = omega arith in
    let z' : a + 0 ≡ a = omega arith in sym (ap w z) ∙ c 0 h ∙ ap m z'

pub bytes-Copied :
    (m : Memory) (a : ℕ) (w : Memory) (b n : ℕ) → Copied m a w b n → bytes w b n ≡ bytes m a n
unfolding bytes
bytes-Copied m a w b zero c = refl
bytes-Copied m a w b (suc n) c = rw (start, bytes-Copied m (a + 1) w (b + 1) n rest) refl
  where
    start : w b ≡ m a
    start = Copied-start m a w b (suc n) c (omega arith)

    rest : Copied m (a + 1) w (b + 1) n
    rest i h =
        let l1 : b + 1 + i ≡ b + (1 + i) = omega arith in
        let l2 : a + 1 + i ≡ a + (1 + i) = omega arith in rw (l1, l2) (c (1 + i) (omega arith))

-- A part of a copied range is copied.
pub Copied-part :
    (m : Memory) (a : ℕ) (w : Memory) (b n k l : ℕ)
    → Copied m a w b n
    → k + l ≤ n
    → Copied m (a + k) w (b + k) l
Copied-part m a w b n k l c h i lt =
    let l1 : b + k + i ≡ b + (k + i) = omega arith in
    let l2 : a + k + i ≡ a + (k + i) = omega arith in rw (l1, l2) (c (k + i) (omega arith))

pub load32-Copied :
    (m : Memory) (a : ℕ) (w : Memory) (b : ℕ) → Copied m a w b 4 → load32 w b ≡ load32 m a
load32-Copied m a w b c =
    rw
      (
        Copied-start m a w b 4 c (omega arith),
        c 1 (omega arith),
        c 2 (omega arith),
        c 3 (omega arith),
      )
      refl

-- A copy of a message whose second word is `v`: `n` bytes behind a header of two words.
pub framed :
    (m : Memory) (start n : ℕ) (w : Memory) (head v : ℕ)
    → v < two32
    → Copied (store32 m (start + 4) v) start w head (n + 8)
    → (load32 w head ≡ load32 m start)
      × (load32 w (head + 4) ≡ v)
      × (bytes w head 4 ≡ bytes m start 4)
      × (bytes w (head + 8) n ≡ bytes m (start + 8) n)
framed m start n w head v small c = (
  load32-Copied m' start w head word ∙ load32-apart m (start + 4) v start (inl (omega arith)),
  load32-Copied m' (start + 4) w (head + 4)
        (Copied-part m' start w head (n + 8) 4 4 c (omega arith))
      ∙ load32-store32 m (start + 4) v small,
  bytes-Copied m' start w head 4 word ∙ bytes-apart m (start + 4) v start 4 (inl (omega arith)),
  bytes-Copied m' (start + 8) w (head + 8) n
        (Copied-part m' start w head (n + 8) 8 n c (omega arith))
      ∙ bytes-apart m (start + 4) v (start + 8) n (inr (omega arith)),
)
  where
    m' : Memory
    m' = store32 m (start + 4) v

    word : Copied m' start w head 4
    word i h = c i (omega arith)
