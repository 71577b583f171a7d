-- ===== src/Ring/Creation.antt =====
-- src/ring_buffer/ring_buffer.cpp and src/ring_buffer/reverse_buffer.cpp: how a ring takes its doubly
-- mapped memory, registers it, and gives it back. The answers of the verbs are arguments.
use mathlib.Core.Path.{subst}
use know_your_memory.Common.{
  ℕ, ◌+◌, ◌*◌, ◌/◌, ◌<◌, ◌≡◌, refl, sym, ap, ◌∙◌, ◌==◌, if◌then◌else◌, not, Option, none, some,
  List, [], ◌∷◌, ◌++◌, arith,
}
use know_your_memory.Common.Words.{to_u32, two32, two64}
use know_your_memory.Error.{
  Status, StatusOr, value, status, failure, success, wrap, internal, text, number,
}
use know_your_memory.Ring.Types.{Buffer}
use know_your_memory.Ring.Mapping.{
  Answers, Call, get_magic_buffer, free_magic_buffer, mappings, Documented,
  get_magic_buffer-mappings, free-get, mappings-append, free_both, got-eq,
}
use know_your_memory.Ring.Magic
use know_your_memory.Ring.Reverse

-- From the memory on: `mr` is the key of the region of `ibv_reg_mr`, if it made one, and the numbers
-- are the answers of `FreeMagicBuffer`'s calls, whose status is not looked at.
abbrev pub registered :
    (ℕ → ℕ → ℕ → Buffer)
    → Option ℕ
    → ℕ
    → ℕ
    → ℕ
    → ℕ
    → StatusOr ℕ × List Call
    → StatusOr Buffer × List Call
registered new mr ret1 ret2 errno size (status s, calls) =
    (status (wrap (text "error allocating magic buffer" ∷ []) s), calls)
registered new none ret1 ret2 errno size (value buf, calls) = (
  status (failure internal (text "error registering mr" ∷ [])),
  calls ++ (free_magic_buffer ret1 ret2 errno buf size).1,
)
registered new (some lkey) ret1 ret2 errno size (value buf, calls) =
    (value (new buf (to_u32 (2 * size)) lkey), calls)

-- `NewMagicRingBuffer`
unfoldable pub new_magic_ring_buffer :
    Answers → Option ℕ → ℕ → ℕ → ℕ → ℕ → StatusOr Buffer × List Call
unfolding Magic.new_ring
new_magic_ring_buffer os mr ret1 ret2 errno size =
    registered Magic.new_ring mr ret1 ret2 errno size (get_magic_buffer os size)

-- `NewReverseRingBuffer`
unfoldable pub new_reverse_ring_buffer :
    Answers → Option ℕ → ℕ → ℕ → ℕ → ℕ → StatusOr Buffer × List Call
unfolding Reverse.new_ring
new_reverse_ring_buffer os mr ret1 ret2 errno size =
    registered Reverse.new_ring mr ret1 ret2 errno size (get_magic_buffer os size)

-- `MagicRingBuffer::Close` and `ReverseRingBuffer::Close`, for the result of `ibv_dereg_mr` and those
-- of `FreeMagicBuffer`'s calls.
unfoldable pub close_ring : ℕ → ℕ → ℕ → ℕ → Buffer → Status × List Call
close_ring ret ret1 ret2 errno b =
    if not (ret == 0)
    then (failure internal (text "Error " ∷ number ret ∷ text " deregistering mr" ∷ []), [])
    else free_magic_buffer ret1 ret2 errno b.addr b.length

-- A length that `uint32_t` holds twice.
length_kept : (size : ℕ) → size * 2 < two32 → to_u32 (to_u32 (2 * size) / 2) ≡ size
length_kept size h = ground arith

-- A ring that is made stands at memory that is mapped twice in a row, each time as long as the ring,
-- and nothing else is mapped; where none is made, nothing is mapped.
abbrev pub Made : ℕ → StatusOr Buffer × List Call → Type 0
Made size (value b, calls) =
    (mappings [] calls ≡ (b.addr + b.length) ∷ b.addr ∷ [])
    × (b.length ≡ size)
    × (b.addr + b.length < two64)
Made size (status s, calls) = mappings [] calls ≡ []

module _ (os : Answers) (mr : Option ℕ) (errno size : ℕ) (d : Documented os size) (pos : 0 < size)
    (short : size * 2 < two32) (fits : os.reserved + size * 2 < two64) where
  registered-Made :
      (new : ℕ → ℕ → ℕ → Buffer)
      → ((a l k : ℕ) → ((new a l k).addr ≡ a) × ((new a l k).length ≡ to_u32 (l / 2)))
      → Made size (registered new mr 0 0 errno size (get_magic_buffer os size))
  unfolding free_magic_buffer
  registered-Made new is = go mr (get_magic_buffer os size) refl
    where
      go :
          (o : Option ℕ) (g : StatusOr ℕ × List Call)
          → get_magic_buffer os size ≡ g
          → Made size (registered new o 0 0 errno size g)
      go o (status s, calls) e =
          ap (λ x. mappings [] x.1) (sym e)
          ∙ (get_magic_buffer-mappings os size d pos fits).1 s (ap (λ x. x.0) e)
      go none (value a, calls) e =
          ap (λ x. mappings [] (x.1 ++ (free_magic_buffer 0 0 errno a size).1)) (sym e)
          ∙ free-get os size a 0 0 errno d pos fits (ap (λ x. x.0) e) refl
      go (some k) (value a, calls) e =
          let whole = (is a (to_u32 (2 * size)) k).1 ∙ length_kept size short in
          (
            ap (λ x. mappings [] x.1) (sym e)
                ∙ (get_magic_buffer-mappings os size d pos fits).0 a (ap (λ x. x.0) e)
                ∙ rw (whole, (is a (to_u32 (2 * size)) k).0) refl,
            whole,
            rw (whole, (is a (to_u32 (2 * size)) k).0)
                (omega (arith, got-eq os size a (ap (λ x. x.0) e))),
          )

  -- If the system calls answer as documented, the memory can be given back, twice the size of the
  -- ring fits 32 bits and the addresses do not wrap, then a magic ring that is made has the size
  -- asked for and stands at memory mapped twice in a row, with nothing else mapped; if none is made,
  -- because of the system calls or the registration, nothing is mapped.
  pub new_magic_ring_buffer-Made : Made size (new_magic_ring_buffer os mr 0 0 errno size)
  unfolding new_magic_ring_buffer Magic.new_ring
  new_magic_ring_buffer-Made = registered-Made Magic.new_ring (λ a l k. (refl, refl))

  -- The same of a reverse ring.
  pub new_reverse_ring_buffer-Made : Made size (new_reverse_ring_buffer os mr 0 0 errno size)
  unfolding new_reverse_ring_buffer Reverse.new_ring
  new_reverse_ring_buffer-Made = registered-Made Reverse.new_ring (λ a l k. (refl, refl))

  -- Under these conditions, a magic ring that was made and is closed successfully leaves nothing
  -- mapped.
  pub close_ring-new_magic_ring_buffer :
      (b : Buffer) (ret ret1 ret2 : ℕ)
      → (new_magic_ring_buffer os mr 0 0 errno size).0 ≡ value b
      → (close_ring ret ret1 ret2 errno b).0 ≡ success
      → mappings []
          ((new_magic_ring_buffer os mr 0 0 errno size).1 ++ (close_ring ret ret1 ret2 errno b).1)
        ≡ []
  unfolding close_ring
  close_ring-new_magic_ring_buffer b ret ret1 ret2 e f =
      let r = new_magic_ring_buffer os mr 0 0 errno size in
      let (at, whole, below) = made b r.0 r.1 e new_magic_ring_buffer-Made in
      let (freed, calls) = closed b ret ret1 ret2 f in
      mappings-append [] r.1 (close_ring ret ret1 ret2 errno b).1
      ∙ ap (λ m. mappings m (close_ring ret ret1 ret2 errno b).1) at
      ∙ ap (λ l. mappings ((b.addr + b.length) ∷ b.addr ∷ []) l) calls
      ∙ free_both ret1 ret2 errno b.addr b.length (omega (arith, whole, pos)) below freed
    where
      made :
          (b : Buffer) (r : StatusOr Buffer) (calls : List Call)
          → r ≡ value b
          → Made size (r, calls)
          → Made size (value b, calls)
      made b r calls e m = subst (λ x. Made size (x, calls)) e m

      closed :
          (b : Buffer) (ret ret1 ret2 : ℕ)
          → (close_ring ret ret1 ret2 errno b).0 ≡ success
          → ((free_magic_buffer ret1 ret2 errno b.addr b.length).0 ≡ success)
            × ((close_ring ret ret1 ret2 errno b).1
                ≡ (free_magic_buffer ret1 ret2 errno b.addr b.length).1)
      closed b ret ret1 ret2 f = ground arith
