-- ===== src/Ring/Magic/Local.antt =====
-- The receiver's magic ring against its log of regions.
use native.Mathlib.Nat.{mod-lt, add-zero, add_assoc}
use know_your_memory.Common.{
  ℕ, ◌+◌, ◌*◌, ◌%◌, ◌^◌, ◌≤◌, ◌<◌, ◌≡◌, refl, sym, ◌∙◌, ◌==◌, if◌then◌else◌, remove, false, none,
  some, List, [], ◌∷◌, ◌++◌, arith,
}
use know_your_memory.Common.Words.{add32, sub64, to_u32, two64}
use know_your_memory.Common.Modular.{mod-advance}
use know_your_memory.Ring.Types.{Buffer, free_in, head_after}
use know_your_memory.Ring.Log.{
  Slot, total, Positive, FrontLive, offsets, mark, settle_start, settle, offsets-mark, total-mark,
  mark-Positive, settle-total, settle_start-ge, settle-Positive, settle-FrontLive, offsets-settle,
  head_after-offsets, remove_absent,
}
use know_your_memory.Ring.Magic.{read, free}

-- The ring holds the log `ss`, whose first region starts after `p` bytes of the whole stream.
pub record Holds (b : Buffer) (p : ℕ) (ss : List Slot) : Type 0 where
  pub some_room : 0 < b.length
  pub small : b.length ≤ 2 ^ 31
  pub mapped : b.addr + b.length * 2 ≤ two64
  pub at_head : b.head ≡ p % b.length
  pub regions : b.outstanding ≡ offsets b.length p ss
  pub at_end : b.read_ptr ≡ (p + total ss) % b.length
  pub room : total ss ≤ b.length
  pub positive : Positive ss
  pub front : FrontLive ss

pub total-append : (ss : List Slot) (s : Slot) → total (ss ++ s ∷ []) ≡ total ss + s.len
total-append [] s = omega arith
total-append (x ∷ ss) s = omega (arith, total-append ss s)

append-Positive : (ss : List Slot) (s : Slot) → 0 < s.len → Positive ss → Positive (ss ++ s ∷ [])
append-Positive [] s h ps = (h, tt)
append-Positive (x ∷ ss) s h ps = (ps.0, append-Positive ss s h ps.1)

append-FrontLive :
    (ss : List Slot) (s : Slot) → s.freed ≡ false → FrontLive ss → FrontLive (ss ++ s ∷ [])
append-FrontLive [] s h f = h
append-FrontLive (x ∷ ss) s h f = f

offsets-append :
    (L p : ℕ) (ss : List Slot) (s : Slot)
    → s.freed ≡ false
    → offsets L p (ss ++ s ∷ []) ≡ offsets L p ss ++ ((p + total ss) % L) ∷ []
offsets-append L p [] s h = rw (h, add-zero)
offsets-append L p (x ∷ ss) s h =
    ground (arith, offsets-append L (p + x.len) ss s h, add_assoc p x.len (total ss))

abbrev pub live : ℕ → Slot
live len = record { len = len; freed = false }

-- `Read` hands out the region that begins where the log ends, and appends it to the log.
pub read_refines :
    (b : Buffer) (p : ℕ) (ss : List Slot) (len : ℕ)
    → Holds b p ss
    → 0 < len
    → total ss + len ≤ b.length
    → let (at, b') = read b len in
      (at ≡ b.addr + (p + total ss) % b.length) × Holds b' p (ss ++ live len ∷ [])
unfolding read
read_refines b p ss len v pos room = (
  omega (arith, v.at_end, v.mapped, bound),
  record {
    some_room = v.some_room;
    small = v.small;
    mapped = v.mapped;
    at_head = v.at_head;
    regions = rw (v.regions, v.at_end) (sym (offsets-append b.length p ss (live len) refl));
    at_end = omega (arith, v.at_end, unwrapped, total-append ss (live len), advanced);
    room = omega (arith, total-append ss (live len));
    positive = append-Positive ss (live len) pos v.positive;
    front = append-FrontLive ss (live len) refl v.front;
  },
)
  where
    bound : (p + total ss) % b.length < b.length
    bound = mod-lt (p + total ss) v.some_room

    unwrapped : add32 b.read_ptr len ≡ b.read_ptr + len
    unwrapped = omega (arith, v.at_end, bound)

    advanced : add32 b.read_ptr len % b.length ≡ (p + total (ss ++ live len ∷ [])) % b.length
    advanced = rw (
      unwrapped,
      v.at_end,
      mod-advance (p + total ss) len b.length,
      total-append ss (live len),
      add_assoc p (total ss) len,
    )

-- The ring after its log has become `ss` and has settled.
abbrev pub settled : Buffer → ℕ → List Slot → Buffer
settled b p ss = record b {
  head = settle_start p ss % b.length;
  outstanding = offsets b.length (settle_start p ss) (settle ss);
}

settled-Holds :
    (b : Buffer) (p : ℕ) (ss : List Slot)
    → 0 < b.length
    → b.length ≤ 2 ^ 31
    → b.addr + b.length * 2 ≤ two64
    → b.read_ptr ≡ (p + total ss) % b.length
    → total ss ≤ b.length
    → Positive ss
    → Holds (settled b p ss) (settle_start p ss) (settle ss)
settled-Holds b p ss some_room small mapped at_end room positive = record {
  some_room = some_room;
  small = small;
  mapped = mapped;
  at_head = refl;
  regions = refl;
  at_end = rw (settle-total p ss) at_end;
  room = omega (arith, settle-total p ss, settle_start-ge p ss);
  positive = settle-Positive ss positive;
  front = settle-FrontLive ss;
}

-- Removing the front moves the head as the code does.
head_after-remove :
    (q h r off : ℕ) (os : List ℕ)
    → h ≡ q
    → (q ≡ off → remove off os ≡ os)
    → (if off == q then head_after os r else h) ≡ head_after (remove off (q ∷ os)) r
unfolding remove
head_after-remove q h r off os e absent = ground arith

free_in-eq :
    (b : Buffer) (off q : ℕ) (os xs : List ℕ)
    → xs ≡ q ∷ os
    → b.head ≡ q
    → (q ≡ off → remove off os ≡ os)
    → let h = head_after (remove off (q ∷ os)) b.read_ptr in
      free_in b off xs ≡ some (h, record b { head = h; outstanding = remove off (q ∷ os) })
free_in-eq b off q os xs e eh absent =
    rw (e, head_after-remove q b.head b.read_ptr off os eh absent)

free_in-refines :
    (b : Buffer) (p off : ℕ) (s : Slot) (rest : List Slot)
    → Holds b p (s ∷ rest)
    → let ss = mark b.length off p (s ∷ rest) in
      free_in b off b.outstanding ≡ some (settle_start p ss % b.length, settled b p ss)
free_in-refines b p off s rest v =
    free_in-eq b off q os b.outstanding (v.regions ∙ front) v.at_head absent ∙ λ i.
    some (headed i, record b { head = headed i; outstanding = removed i })
  where
    L : ℕ
    L = b.length

    q : ℕ
    q = p % L

    os : List ℕ
    os = offsets L (p + s.len) rest

    ss : List Slot
    ss = mark L off p (s ∷ rest)

    front : offsets L p (s ∷ rest) ≡ q ∷ os
    front = rw (v.front)

    absent : q ≡ off → remove off os ≡ os
    absent e =
        rw (← e) (remove_absent L p s.len rest v.positive.0 (omega (arith, v.room)) v.positive.1)

    marked : remove off (q ∷ os) ≡ offsets L p ss
    marked = rw (← front) (sym (offsets-mark L off p (s ∷ rest)))

    removed : remove off (q ∷ os) ≡ offsets L (settle_start p ss) (settle ss)
    removed = marked ∙ sym (offsets-settle L p ss)

    at_end : b.read_ptr ≡ (p + total ss) % L
    at_end = rw (total-mark L off p (s ∷ rest)) v.at_end

    headed : head_after (remove off (q ∷ os)) b.read_ptr ≡ settle_start p ss % L
    headed = rw marked (head_after-offsets L p b.read_ptr ss at_end)

-- `Free` does to the ring what marking the region and settling does to its log: the head moves past
-- the regions at the front that are free, in whatever order they were freed.
pub free_refines :
    (b : Buffer) (p at : ℕ) (s : Slot) (rest : List Slot)
    → Holds b p (s ∷ rest)
    → let ss = mark b.length (to_u32 (sub64 at b.addr)) p (s ∷ rest) in
      (free b at ≡ some (settle_start p ss % b.length, settled b p ss))
      × Holds (settled b p ss) (settle_start p ss) (settle ss)
unfolding free
free_refines b p at s rest v =
    let off = to_u32 (sub64 at b.addr) in
    (
      free_in-refines b p off s rest v,
      settled-Holds b p (mark b.length off p (s ∷ rest)) v.some_room v.small v.mapped
          (rw (total-mark b.length off p (s ∷ rest)) v.at_end)
          (rw (total-mark b.length off p (s ∷ rest)) v.room)
          (mark-Positive b.length off p (s ∷ rest) v.positive),
    )

-- With no region in use there is nothing to free.
pub free-nil : (b : Buffer) (at : ℕ) → b.outstanding ≡ [] → free b at ≡ none
unfolding free
free-nil b at e = rw e
