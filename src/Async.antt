-- ===== src/Async.antt =====
-- src/async_events.cpp: the loop that takes a device's asynchronous events, and the handler that
-- prints them. What `ibv_get_async_event` answers is a list: `none` for a failure.
use Prim.Native.String.{String}
use mathlib.Core.List.{append_assoc, append-nil}
use know_your_memory.Common.{
  ℕ, ◌≡◌, refl, sym, ap, ◌∙◌, if◌then◌else◌, true, false, Bool-cases, inl, inr, Option, none, some,
  List, [], ◌∷◌, ◌++◌, map,
}
use know_your_memory.Error.{Status, failure, success, internal, Piece, text, number, is_ok}

-- `ibv_event_type`; the types that the handler does not know are numbers.
pub data EventType : Type 0 where
  qp_fatal qp_req_err qp_access_err comm_est sq_drained path_mig path_mig_err : EventType
  qp_last_wqe_reached cq_err srq_err srq_limit_reached : EventType
  port_active port_err lid_change pkey_change gid_change sm_change client_reregister : EventType
  device_fatal : EventType
  unknown_event : ℕ → EventType

-- `ibv_async_event`. `element` is the handle of its queue pair, completion queue or shared receive
-- queue, or the number of its port.
pub record AsyncEvent : Type 0 where
  pub event_type : EventType
  pub element : ℕ

abbrev pub about : String → ℕ → List Piece
about m n = text "[async_event]" ∷ text m ∷ number n ∷ []

-- The line that `LogAsyncEvent` prints, without the time; `device` is the name of the device.
unfoldable pub log_line : String → AsyncEvent → List Piece
log_line device e = elim e.event_type [
  | qp_fatal ↦ about "QP fatal event for QP with handle " e.element
  | qp_req_err ↦ about "QP Requestor error for QP with handle " e.element
  | qp_access_err ↦ about "QP access error event for QP with handle " e.element
  | comm_est ↦ about "QP communication established event for QP with handle " e.element
  | sq_drained ↦ about "QP Send Queue drained event for QP with handle " e.element
  | path_mig ↦ about "QP Path migration loaded event for QP with handle " e.element
  | path_mig_err ↦ about "QP Path migration error event for QP with handle " e.element
  | qp_last_wqe_reached ↦ about "QP last WQE reached event for QP with handle " e.element
  | cq_err ↦ about "CQ error for CQ with handle " e.element
  | srq_err ↦ about "SRQ error for SRQ with handle " e.element
  | srq_limit_reached ↦ about "SRQ limit reached event for SRQ with handle " e.element
  | port_active ↦ about "Port active event for port number " e.element
  | port_err ↦ about "Port error event for port number " e.element
  | lid_change ↦ about "LID change event for port number " e.element
  | pkey_change ↦ about "P_Key table change event for port number " e.element
  | gid_change ↦ about "GID table change event for port number " e.element
  | sm_change ↦ about "SM change event for port number " e.element
  | client_reregister ↦ about "Client reregister event for port number " e.element
  | device_fatal ↦ text "[async_event]" ∷ text "Fatal error event for device " ∷ text device ∷ []
  | unknown_event n ↦ text "[async_event]" ∷ text "Unknown event (" ∷ number n ∷ text ")" ∷ []
]

-- A handler, over its own state.
abbrev pub Handler : Type 0 → Type 0
Handler S = AsyncEvent → S → Status × S

-- `LogAsyncEvent`: its state is what has been printed.
unfoldable pub log_async_event : String → Handler (List (List Piece))
unfolding log_line
log_async_event device e printed = (success, printed ++ log_line device e ∷ [])

-- How far `RunAsyncEventHandler` has come: the status with which it has returned, if it has, the
-- handler's state, and the events that are acknowledged.
pub record Progress (S : Type 0) : Type 0 where
  pub returned : Option Status
  pub state : S
  pub acked : List AsyncEvent

module _ {S : Type 0} where
  abbrev pub acking : AsyncEvent → Progress S → Progress S
  acking e p = record p { acked = e ∷ p.acked }

  -- `RunAsyncEventHandler`, for these answers of `ibv_get_async_event`; when they are used up, it
  -- waits for the next.
  unfoldable pub run_async_event_handler : Handler S → S → List (Option AsyncEvent) → Progress S
  run_async_event_handler eh s [] = record { returned = none; state = s; acked = [] }
  run_async_event_handler eh s (none ∷ rest) = record {
    returned = some (failure internal (text "Error  ibv_get_async_event failed" ∷ []));
    state = s;
    acked = [];
  }
  run_async_event_handler eh s (some e ∷ rest) =
      let (stat, s') = eh e s in
      let again = run_async_event_handler eh s' rest in
      if is_ok stat then acking e again else record { returned = some stat; state = s'; acked = [] }

-- `TrailAsyncEvents`: what its thread runs.
unfoldable pub trail_async_events :
    String → List (List Piece) → List (Option AsyncEvent) → Progress (List (List Piece))
unfolding run_async_event_handler log_async_event
trail_async_events device printed answers =
    run_async_event_handler (log_async_event device) printed answers

-- The events that come before the first failure.
abbrev pub until_failure : List (Option AsyncEvent) → List AsyncEvent
until_failure [] = []
until_failure (none ∷ rest) = []
until_failure (some e ∷ rest) = e ∷ until_failure rest

-- A handler that is applied to events in order, for its state.
abbrev pub handle_all : {S : Type 0} → Handler S → S → List AsyncEvent → S
handle_all eh s [] = s
handle_all eh s (e ∷ es) = handle_all eh (eh e s).1 es

-- Every event of a list is one that the handler accepts, one after the other.
pub data Accepts {S : Type 0} (eh : Handler S) : S → List AsyncEvent → Type 0 where
  accepts_none : (s : S) → Accepts eh s []
  accepts :
      (s : S) (e : AsyncEvent) (es : List AsyncEvent)
      → is_ok (eh e s).0 ≡ true
      → Accepts eh (eh e s).1 es
      → Accepts eh s (e ∷ es)

-- How a run ends in a handler's state `s` with the answers `rest` left: it waits, the device has
-- failed, or the handler refuses the next event, which is then not acknowledged.
abbrev pub Stopped :
    {S : Type 0} → Handler S → S → List (Option AsyncEvent) → Option Status → S → Type 0
Stopped eh s [] returned state = (returned ≡ none) × (state ≡ s)
Stopped eh s (none ∷ rest) returned state =
    (returned ≡ some (failure internal (text "Error  ibv_get_async_event failed" ∷ [])))
    × (state ≡ s)
Stopped eh s (some e ∷ rest) returned state =
    (is_ok (eh e s).0 ≡ false) × (returned ≡ some (eh e s).0) × (state ≡ (eh e s).1)

-- What may be said of a run of the loop: the events it acknowledged were accepted by the handler,
-- from the first on, and then it waits, or the device failed, or the handler refused the next.
abbrev pub Ended : {S : Type 0} → Handler S → S → List (Option AsyncEvent) → Progress S → Type 0
Ended eh s answers p =
    Accepts eh s p.acked
    × (rest : List (Option AsyncEvent)) × (answers ≡ map some p.acked ++ rest)
    × Stopped eh (handle_all eh s p.acked) rest p.returned p.state

-- The loop acknowledges the events that the handler accepts, in their order and from the first on,
-- and stops with the first failure of the device or the first event that the handler refuses, which
-- it does not acknowledge, with its status; until then it waits for more.
pub run_async_event_handler-Ended :
    {S : Type 0} (eh : Handler S) (s : S) (answers : List (Option AsyncEvent))
    → Ended eh s answers (run_async_event_handler eh s answers)
unfolding run_async_event_handler
run_async_event_handler-Ended eh s [] = (accepts_none s, [], refl, (refl, refl))
run_async_event_handler-Ended eh s (none ∷ rest) = (accepts_none s, none ∷ rest, refl, (refl, refl))
run_async_event_handler-Ended eh s (some e ∷ rest) = elim (Bool-cases (is_ok (eh e s).0)) [
  | inl t ↦
      let (a, left, same, stop) = run_async_event_handler-Ended eh (eh e s).1 rest in
      rw t (accepts s e _ t a, left, ap (λ l. some e ∷ l) same, stop)
  | inr f ↦ rw f (accepts_none s, some e ∷ rest, refl, (f, refl, refl))
]

-- The thread prints the line of every event before the first failure of the device, once and in
-- order, and acknowledges it; it ends only by such a failure.
pub trail_async_events_lem :
    (device : String) (printed : List (List Piece)) (answers : List (Option AsyncEvent))
    → let p = trail_async_events device printed answers in
      (p.state ≡ printed ++ map (log_line device) (until_failure answers))
      × (p.acked ≡ until_failure answers)
unfolding trail_async_events run_async_event_handler log_async_event
trail_async_events_lem device printed [] = (sym (append-nil printed), refl)
trail_async_events_lem device printed (none ∷ rest) = (sym (append-nil printed), refl)
trail_async_events_lem device printed (some e ∷ rest) =
    let (shown, acks) = trail_async_events_lem device (printed ++ log_line device e ∷ []) rest in
    (
      shown
          ∙ append_assoc printed (log_line device e ∷ [])
              (map (log_line device) (until_failure rest)),
      ap (λ l. e ∷ l) acks,
    )
