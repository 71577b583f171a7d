-- ===== src/Ring/Mapping.antt =====
-- src/ring_buffer/magic_buffer.cpp: one memory segment mapped twice in a row. The system calls are
-- the parameter `Answers`; a run returns the calls that it made.
use know_your_memory.Common.{
  ℕ, ◌+◌, ◌-◌, ◌*◌, ◌<◌, ◌≡◌, ◌⊎◌, refl, ◌==◌, if◌then◌else◌, Bool, not, Option, none, some, List,
  [], ◌∷◌, ◌++◌, ◌∙◌, arith, remove,
}
use know_your_memory.Common.Words.{add64, two64}
use know_your_memory.Error.{
  Status, StatusOr, value, status, failure, success, unknown, internal, text, number,
}

-- `(void *)-1`, which `mmap` and `shmat` return where they fail.
abbrev pub map_failed : ℕ
map_failed = two64 - 1

-- What the calls return. `shmget` answers `none` for -1, its only negative result; `rm_failed` is
-- whether the last `shmctl` failed.
pub record Answers : Type 0 where
  pub reserved : ℕ
  pub segment : Option ℕ
  pub first : ℕ
  pub second : ℕ
  pub rm_failed : Bool
  pub errno : ℕ

-- The calls that changed something.
pub data Call : Type 0 where
  reserve unreserve : ℕ → ℕ → Call
  create : ℕ → ℕ → Call
  attach : ℕ → ℕ → Call
  detach : ℕ → Call
  mark_removed : ℕ → Call

-- `shmat` attaches where it says, and nowhere if it fails.
abbrev pub attached_at : ℕ → ℕ → List Call
attached_at id at = if at == map_failed then [] else attach id at ∷ []

-- The calls from the second half on.
unfoldable pub map_second : Answers → ℕ → ℕ → StatusOr ℕ × List Call
map_second os size id =
    let buf = os.reserved in
    let sec = add64 buf size in
    if not (os.second == sec)
    then (
      status (
          failure unknown (
            text "error "
            ∷ number os.errno
            ∷ text " mapping shared memory to second half of buffer"
            ∷ [])),
      attached_at id os.second ++ detach buf ∷ mark_removed id ∷ [],
    )
    else if os.rm_failed
    then (
      status (
          failure unknown (
            text "error "
            ∷ number os.errno
            ∷ text " marking segement to be destroy. Possible shared memory leak!"
            ∷ [])),
      attached_at id os.second ++ detach buf ∷ detach sec ∷ [],
    )
    else (value buf, attached_at id os.second ++ mark_removed id ∷ [])

-- The calls from the first half on.
unfoldable pub map_first : Answers → ℕ → ℕ → StatusOr ℕ × List Call
unfolding map_second
map_first os size id =
    let (r, calls) = map_second os size id in
    if not (os.first == os.reserved)
    then (
      status (
          failure unknown (
            text "error "
            ∷ number os.errno
            ∷ text " mapping shared memory to first half of buffer"
            ∷ [])),
      attached_at id os.first ++ mark_removed id ∷ [],
    )
    else (r, attached_at id os.first ++ calls)

abbrev pub with_segment : Answers → ℕ → Option ℕ → StatusOr ℕ × List Call
with_segment os size none = (
  status (
      failure unknown
        (text "error " ∷ text "-1" ∷ text " allocating Sytem V shared memory segment" ∷ [])),
  unreserve os.reserved (2 * size) ∷ [],
)
with_segment os size (some id) =
    let (r, calls) = map_first os size id in
    (r, create id size ∷ unreserve os.reserved (2 * size) ∷ calls)

-- `GetMagicBuffer`
unfoldable pub get_magic_buffer : Answers → ℕ → StatusOr ℕ × List Call
unfolding map_first
get_magic_buffer os size =
    let (r, calls) = with_segment os size os.segment in
    if os.reserved == map_failed
    then (status (failure unknown (text "error resevering space" ∷ [])), [])
    else (r, reserve os.reserved (2 * size) ∷ calls)

-- `FreeMagicBuffer`: the results of the two `shmdt` calls, of which the second is made only if the
-- first succeeds.
unfoldable pub free_magic_buffer : ℕ → ℕ → ℕ → ℕ → ℕ → Status × List Call
free_magic_buffer ret1 ret2 errno buf size =
    if not (ret1 == 0)
    then (
      failure internal (text "error " ∷ number errno ∷ text " umapping first half of buffer" ∷ []),
      [],
    )
    else if not (ret2 == 0)
    then (
      failure internal (text "error " ∷ number errno ∷ text " umapping second half of buffer" ∷ []),
      detach buf ∷ [],
    )
    else (success, detach buf ∷ detach (add64 buf size) ∷ [])

-- Where the process has a mapping after the calls.
abbrev pub mappings : List ℕ → List Call → List ℕ
mappings m [] = m
mappings m (reserve a n ∷ cs) = mappings (a ∷ m) cs
mappings m (unreserve a n ∷ cs) = mappings (remove a m) cs
mappings m (create id n ∷ cs) = mappings m cs
mappings m (attach id a ∷ cs) = mappings (a ∷ m) cs
mappings m (detach a ∷ cs) = mappings (remove a m) cs
mappings m (mark_removed id ∷ cs) = mappings m cs

-- `shmat` with an address answers with this address or fails.
pub record Documented (os : Answers) (size : ℕ) : Type 0 where
  pub first_as_asked : (os.first ≡ os.reserved) ⊎ (os.first ≡ map_failed)
  pub second_as_asked : (os.second ≡ add64 os.reserved size) ⊎ (os.second ≡ map_failed)

-- If the system calls answer as documented and the addresses do not wrap, then on success the
-- segment is mapped at the address that is returned and right behind it, and nowhere else; after
-- an error no mapping is left.
pub get_magic_buffer-mappings :
    (os : Answers) (size : ℕ)
    → Documented os size
    → 0 < size
    → os.reserved + size * 2 < two64
    → let (r, calls) = get_magic_buffer os size in
      ((a : ℕ) → r ≡ value a → mappings [] calls ≡ (a + size) ∷ a ∷ [])
      × ((s : Status) → r ≡ status s → mappings [] calls ≡ [])
unfolding get_magic_buffer remove
get_magic_buffer-mappings os size d pos fits = (λ a e. ground arith, λ s e. ground arith)

pub mappings-append :
    (m : List ℕ) (xs ys : List Call) → mappings m (xs ++ ys) ≡ mappings (mappings m xs) ys
mappings-append m [] ys = refl
mappings-append m (reserve a n ∷ xs) ys = mappings-append (a ∷ m) xs ys
mappings-append m (unreserve a n ∷ xs) ys = mappings-append (remove a m) xs ys
mappings-append m (create id n ∷ xs) ys = mappings-append m xs ys
mappings-append m (attach id a ∷ xs) ys = mappings-append (a ∷ m) xs ys
mappings-append m (detach a ∷ xs) ys = mappings-append (remove a m) xs ys
mappings-append m (mark_removed id ∷ xs) ys = mappings-append m xs ys

pub free_both :
    (ret1 ret2 errno a size : ℕ)
    → 0 < size
    → a + size < two64
    → (free_magic_buffer ret1 ret2 errno a size).0 ≡ success
    → mappings ((a + size) ∷ a ∷ []) (free_magic_buffer ret1 ret2 errno a size).1 ≡ []
unfolding free_magic_buffer remove
free_both ret1 ret2 errno a size pos fits e = ground arith

pub got-eq : (os : Answers) (size a : ℕ) → (get_magic_buffer os size).0 ≡ value a → a ≡ os.reserved
unfolding get_magic_buffer
got-eq os size a e = ground arith

-- When `FreeMagicBuffer` reports success on a buffer that `GetMagicBuffer` returned, no mapping of
-- the two calls is left.
pub free-get :
    (os : Answers) (size a ret1 ret2 errno : ℕ)
    → Documented os size
    → 0 < size
    → os.reserved + size * 2 < two64
    → (get_magic_buffer os size).0 ≡ value a
    → (free_magic_buffer ret1 ret2 errno a size).0 ≡ success
    → mappings [] ((get_magic_buffer os size).1 ++ (free_magic_buffer ret1 ret2 errno a size).1)
      ≡ []
free-get os size a ret1 ret2 errno d pos fits e f =
    mappings-append [] (get_magic_buffer os size).1 (free_magic_buffer ret1 ret2 errno a size).1
    ∙ rw ((get_magic_buffer-mappings os size d pos fits).0 a e)
        (free_both ret1 ret2 errno a size pos (omega (arith, got-eq os size a e)) f)
