-- ===== src/Setup/Walk.antt =====
-- src/endpoint.cpp: the life of a connection's queue pair, as the sequence of the calls shows it.
pub mod States
pub mod Server
pub mod Client
pub mod Acceptance
pub mod Connection
use know_your_memory.Common.{
  ℕ, Bool, true, false, ◌≡◌, ◌==◌, if◌then◌else◌, Option, none, some, List, [], ◌∷◌,
}
use know_your_memory.Common.Ints.{ℤ, pos, is_zero}
use know_your_memory.Setup.Calls.{
  Rdma, Event, Call, QpInitAttr, ConnParam, QpState, init, rtr, rts, create_qp, cm_create_qp,
  modify_qp, accept, connect, establish,
}
use know_your_memory.Setup.Effects.{World}

-- What has become of the queue pair: there is none, the connection manager has one, a native one is
-- in a state (`none`: as created) before or after `rdma_connect`, or the connection stands.
pub data Phase : Type 0 where
  nothing managed : Phase
  native : Bool → ℕ → Option QpState → Phase
  joined : Option ℕ → Phase

-- The state in which a queue pair must be to be moved to another.
abbrev pub before : QpState → Option QpState
before init = none
before rtr = some init
before rts = some rtr

-- A call that leaves the queue pair alone.
abbrev pub is_idle : Call → Bool
is_idle (create_qp pd attr) = false
is_idle (cm_create_qp pd attr) = false
is_idle (modify_qp qp st) = false
is_idle (accept c) = false
is_idle (connect c) = false
is_idle establish = false
is_idle _ = true

abbrev pub ev : Call → ℤ → Event
ev c r = record { call = c; answer = r }

module _ (os : Rdma) where
  -- The calls that may be made in a phase, and the phase after them. A call that fails changes
  -- nothing.
  pub data Step : Phase → Event → Phase → Type 0 where
    create :
        (pd : ℕ) (attr : QpInitAttr) (q : ℕ)
        → Step nothing
            (ev (create_qp pd attr) (pos q))
            (if q == 0 then nothing else native false q none)
    manage :
        (pd : ℕ) (attr : QpInitAttr) (r : ℤ)
        → Step nothing (ev (cm_create_qp pd attr) r) (if is_zero r then managed else nothing)
    move :
        (b : Bool) (q : ℕ) (st : QpState) (r : ℤ)
        → Step
            (native b q (before st))
            (ev (modify_qp q st) r)
            (if is_zero r then native b q (some st) else native b q (before st))
    join_accepted :
        (q : ℕ) (c : ConnParam) (r : ℤ)
        → c.qp_num ≡ some (os.qp_num q)
        → Step
            (native false q (some rts))
            (ev (accept c) r)
            (if is_zero r then joined (some q) else native false q (some rts))
    join_accepted_managed :
        (c : ConnParam) (r : ℤ)
        → c.qp_num ≡ none
        → Step managed (ev (accept c) r) (if is_zero r then joined none else managed)
    ask :
        (q : ℕ) (c : ConnParam) (r : ℤ)
        → c.qp_num ≡ some (os.qp_num q)
        → Step
            (native false q none)
            (ev (connect c) r)
            (if is_zero r then native true q none else native false q none)
    join_connected :
        (c : ConnParam) (r : ℤ)
        → c.qp_num ≡ none
        → Step managed (ev (connect c) r) (if is_zero r then joined none else managed)
    join_established :
        (q : ℕ) (r : ℤ)
        → Step
            (native true q (some rts))
            (ev establish r)
            (if is_zero r then joined (some q) else native true q (some rts))
    idle : (p : Phase) (c : Call) (r : ℤ) → is_idle c ≡ true → Step p (ev c r) p

  -- A history of calls, each of which was allowed, and the phase at its end.
  pub data Walk : List Event → Phase → Type 0 where
    begin : Walk [] nothing
    next : {es : List Event} {p p' : Phase} {e : Event} → Walk es p → Step p e p' → Walk (e ∷ es) p'

-- Every call of a history was allowed.
abbrev pub IsLegal : Rdma → World → Type 0
IsLegal os w = (p : Phase) × Walk os w.calls p

-- A history that goes on from another.
pub data After (es : List Event) : List Event → Type 0 where
  now : After es es
  later : (e : Event) (es' : List Event) → After es es' → After es (e ∷ es')

-- Calls were made, and neither the id nor the endpoint have changed.
abbrev pub Same : World → World → Type 0
Same w w' = (w'.id ≡ w.id) × (w'.ep ≡ w.ep) × After w.calls w'.calls
