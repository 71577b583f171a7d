-- ===== src/Ring/Types.antt =====
-- The state of the ring buffers of src/ring_buffer/ring_buffer.hpp and reverse_buffer.hpp. The
-- three receiver classes keep the same fields, and so do the three sender classes.
use know_your_memory.Common.{
  ℕ, ◌==◌, if◌then◌else◌, remove, Bool, Option, none, some, List, [], ◌∷◌,
}
use know_your_memory.Common.Words.{sub64, to_u32}

-- `BufferContext`: four 32-bit cells.
pub record BufferContext : Type 0 where
  pub data0 : ℕ
  pub data1 : ℕ
  pub data2 : ℕ
  pub data3 : ℕ

-- The receiver's ring. `lkey` is that of `mr_`.
pub record Buffer : Type 0 where
  pub addr : ℕ
  pub lkey : ℕ
  pub head : ℕ
  pub outstanding : List ℕ
  pub read_ptr : ℕ
  pub length : ℕ

-- The sender's view of the receiver's ring.
pub record RemoteBuffer : Type 0 where
  pub addr : ℕ
  pub length : ℕ
  pub key : ℕ
  pub head : ℕ
  pub tail : ℕ
  pub full : Bool

-- Where the head moves when the oldest region is freed.
abbrev pub head_after : List ℕ → ℕ → ℕ
head_after [] read_ptr = read_ptr
head_after (next ∷ rest) read_ptr = next

-- The body that the three `Free` methods share, for the list of outstanding regions. `*front` is
-- undefined on an empty list: `none`.
abbrev pub free_in : Buffer → ℕ → List ℕ → Option (ℕ × Buffer)
free_in b region_start [] = none
free_in b region_start (front ∷ rest) =
    let head' = if region_start == front then head_after rest b.read_ptr else b.head in
    some (head', record b { head = head'; outstanding = remove region_start (front ∷ rest) })

unfoldable pub free_region : Buffer → ℕ → Option (ℕ × Buffer)
free_region b at = free_in b (to_u32 (sub64 at b.addr)) b.outstanding
