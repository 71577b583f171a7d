-- ===== src/Allocator.antt =====
-- src/mm/dumb_allocator.cpp and src/mm.hpp: an allocator that registers a region of its own for every
-- buffer. What `malloc` and the verbs answer is an argument.
use know_your_memory.Common.{ℕ, ◌≡◌, ◌==◌, if◌then◌else◌, not, List, [], ◌∷◌, arith, remove_first}
use know_your_memory.Common.Words.{to_u32}
use know_your_memory.Error.{Status, StatusOr, value, failure, success, text, unknown}

-- `Region`
pub record Region : Type 0 where
  pub context : ℕ
  pub addr : ℕ
  pub length : ℕ
  pub lkey : ℕ

-- The buffers that are allocated, and the memory regions that are registered, by their addresses.
pub record Heap : Type 0 where
  pub buffers : List ℕ
  pub regions : List ℕ

-- `DumbAllocator::Alloc`, for the buffer of `malloc` and the region of `ibv_reg_mr`, which are taken
-- as they come.
unfoldable pub alloc : ℕ → ℕ → ℕ → ℕ → Heap → StatusOr Region × Heap
alloc buf mr lkey size h = (
  value (record { context = mr; addr = buf; length = to_u32 size; lkey = lkey }),
  record { buffers = buf ∷ h.buffers; regions = mr ∷ h.regions },
)

-- `DumbAllocator::Free`, for the result of `ibv_dereg_mr`.
unfoldable pub free : ℕ → Region → Heap → Status × Heap
free ret region h =
    if not (ret == 0) then (failure unknown (text "free: error deregistering mr" ∷ []), h) else (
      success,
      record {
        buffers = remove_first region.addr h.buffers;
        regions = remove_first region.context h.regions;
      },
    )

-- What Alloc took, Free gives back, if the verb lets go of the region; if it does not, Free reports
-- it and keeps the buffer and the region.
pub free-alloc :
    (buf mr lkey size ret : ℕ) (h : Heap) (region : Region)
    → (alloc buf mr lkey size h).0 ≡ value region
    → let (stat, h') = free ret region (alloc buf mr lkey size h).1 in
      if ret == 0
      then (stat ≡ success) × (h' ≡ h)
      else (stat.code ≡ unknown) × (h' ≡ (alloc buf mr lkey size h).1)
unfolding alloc free
free-alloc buf mr lkey size ret h region e = ground arith
