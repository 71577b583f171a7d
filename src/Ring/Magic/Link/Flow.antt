-- ===== src/Ring/Magic/Link/Flow.antt =====
-- A write and a read keep the invariant of the totals of a link.
use know_your_memory.Common.{ℕ, ◌+◌, ◌%◌, ◌≤◌, ◌<◌, ◌≡◌, sym, ap, ◌∙◌, List, [], ◌∷◌, ◌++◌, arith}
use native.Mathlib.Nat.{add_assoc}
use mathlib.Core.Path.{subst}
use know_your_memory.Common.Words.{add32}
use know_your_memory.Common.Modular.{mod-advance}
use know_your_memory.Error.{value}
use know_your_memory.Ring.Types.{RemoteBuffer}
use know_your_memory.Ring.Log.{total}
use know_your_memory.Ring.Magic.{read, write, advance}
use know_your_memory.Ring.Magic.Remote.{
  Fits, write-eq, used-le, used-advance, advance-IsValid, Fits-le,
}
use know_your_memory.Ring.Magic.Local.{Holds, live, read_refines, total-append}
use know_your_memory.Ring.Magic.Link.{Link, Message, message}
use know_your_memory.Ring.Magic.Link.Trace.{
  Trace, carried, Placed, read_total, written, Inv, Ascends-le, carried-append, Placed-append,
}

pub send-Inv :
    {k : Link} {t : Trace}
    → Inv k t
    → (len a : ℕ) (r : RemoteBuffer) → 0 < len
    → write k.remote len ≡ (value a, r)
    → Inv (record k { remote = r; wire = k.wire ++ message a len ∷ [] }) t
send-Inv {k} {t} inv len a r pos e = rw (w.2) (record {
  same_length = inv.same_length;
  same_addr = inv.same_addr;
  valid = advance-IsValid k.remote len inv.valid (Fits-le k.remote len inv.valid w.0);
  holds = inv.holds;
  at_head = inv.at_head;
  at_tail = at_tail;
  in_use = omega (arith, inv.in_use, grown, used-advance k.remote len inv.valid pos w.0);
  acks_at = inv.acks_at;
  ascends = inv.ascends;
  placed =
      Placed-append k.local.addr k.local.length (read_total t) k.wire (message a len)
        (w.1 ∙ omega (arith, inv.same_addr, inv.at_tail)) pos inv.placed;
})
  where
    w : Fits k.remote len × (a ≡ k.remote.addr + k.remote.tail) × (r ≡ advance k.remote len)
    w = write-eq k.remote r len a inv.valid e

    grown : carried (k.wire ++ message a len ∷ []) ≡ carried k.wire + len
    grown = carried-append k.wire (message a len)

    unwrapped : add32 k.remote.tail len ≡ k.remote.tail + len
    unwrapped = omega (arith, inv.valid, Fits-le k.remote len inv.valid w.0)

    at_tail :
        add32 k.remote.tail len % k.remote.length
        ≡ (read_total t + carried (k.wire ++ message a len ∷ [])) % k.local.length
    at_tail = rw (
      unwrapped,
      inv.at_tail,
      inv.same_length,
      grown,
      mod-advance (written k t) len k.local.length,
      add_assoc (read_total t) (carried k.wire) len,
    )

pub receive-Inv :
    {k : Link} {t : Trace}
    → Inv k t
    → (m : Message) (rest : List Message) → k.wire ≡ m ∷ rest
    → ((read k.local m.len).0 ≡ m.at)
      × Inv
          (record k { local = (read k.local m.len).1; wire = rest })
          (record t { slots = t.slots ++ live m.len ∷ [] })
unfolding read
receive-Inv {k} {t} inv m rest e = (
  r.0 ∙ sym placed.0,
  record {
    same_length = inv.same_length;
    same_addr = inv.same_addr;
    valid = inv.valid;
    holds = r.1;
    at_head = inv.at_head;
    at_tail = inv.at_tail ∙ ap (λ x. x % k.local.length) (sym same_written);
    in_use = same_written ∙ inv.in_use;
    acks_at = inv.acks_at;
    ascends = inv.ascends;
    placed =
        rw (total-append t.slots (live m.len), ← add_assoc t.freed (total t.slots) m.len) placed.2;
  },
)
  where
    placed : Placed k.local.addr k.local.length (read_total t) (m ∷ rest)
    placed = subst (Placed k.local.addr k.local.length (read_total t)) e inv.placed

    split : carried k.wire ≡ m.len + carried rest
    split = ap carried e

    same_written :
        t.freed + total (t.slots ++ live m.len ∷ []) + carried rest
        ≡ t.freed + total t.slots + carried k.wire
    same_written = omega (arith, split, total-append t.slots (live m.len))

    room : total t.slots + m.len ≤ k.local.length
    room = omega (
      arith,
      split,
      inv.in_use,
      inv.same_length,
      Ascends-le t.acked t.freed t.posted inv.ascends,
      used-le k.remote inv.valid,
    )

    r :
        ((read k.local m.len).0 ≡ k.local.addr + read_total t % k.local.length)
        × Holds (read k.local m.len).1 t.freed (t.slots ++ live m.len ∷ [])
    r = read_refines k.local t.freed t.slots m.len inv.holds placed.1 room
