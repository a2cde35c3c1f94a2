-- ===== src/Gateway/Lifecycle.antt =====
-- The contract of the router of src/tmux_gateway.rs (docs/tmux-gateway.md): the events follow a state
-- machine, whose states are those that `lifecycle_state` reports.
use lector.Prelude.{
  ℕ, ◌+◌, ◌<◌, ◌≡◌, refl, Bool, true, false, ◌||◌, Option, none, some, List, [], ◌∷◌, ◌++◌, Bytes,
  any, if◌then◌else◌, length, take, subst,
}
use lector.Control.Data.{ControlEvent, ControlParseError}
use lector.Gateway.Router.{
  control_start_marker, GatewayEvent, direct_output, connection_started, control, connection_ended,
  connection_failed, transport_eof, missing_exit, missing_terminator, terminator_timeout, protocol,
  GatewayLifecycleState, direct, in_control, awaiting_terminator, in_recovery, state_of,
  ActiveControl, TmuxGatewayRouter,
}
use lector.Gateway.Iteration.{
  Loop, Round, consumed, again, failed, panicked, is_exit, control_events,
}
use lector.Gateway.Items.{Quiet, emitted}

-- A connection that has, or has not, seen `%exit`.
abbrev pub running : Bool → GatewayLifecycleState
running saw_exit = if saw_exit then awaiting_terminator else in_control

-- The state machine: which event may come in a state, and the state behind it. Every event of a
-- connection names the id `id`.
pub data Follows (id : ℕ)
    : GatewayLifecycleState → GatewayEvent → GatewayLifecycleState → Type 0 where
  outputs : (bs : Bytes) → Follows id direct (direct_output bs) direct
  starts : Follows id direct (connection_started id) in_control
  -- a control event; `%exit` starts the wait for the terminator
  controls :
      (saw_exit : Bool) (event : ControlEvent)
      → Follows id (running saw_exit) (control id event) (running (saw_exit || is_exit event))
  -- the clean end, and an end with no `%exit`
  ends : Follows id awaiting_terminator (connection_ended id) direct
  stops : Follows id in_control (connection_failed id missing_exit) direct
  -- ordinary output in place of the terminator
  unterminated : Follows id awaiting_terminator (connection_failed id missing_terminator) direct
  -- a protocol error that reveals the parent terminal, or leaves the stream to be drained
  reveals :
      (e : ControlParseError) → Follows id in_control (connection_failed id (protocol e)) direct
  breaks :
      (e : ControlParseError)
      → Follows id in_control (connection_failed id (protocol e)) in_recovery
  recovers : Follows id in_recovery (connection_ended id) direct
  eof : Follows id in_control (connection_failed id transport_eof) direct
  expires : Follows id awaiting_terminator (connection_failed id terminator_timeout) direct

pub data Trace (id : ℕ)
    : GatewayLifecycleState → List GatewayEvent → GatewayLifecycleState → Type 0 where
  here : {s : GatewayLifecycleState} → Trace id s [] s
  next :
      {s t u : GatewayLifecycleState} {event : GatewayEvent} {events : List GatewayEvent}
      → Follows id s event t
      → Trace id t events u
      → Trace id s (event ∷ events) u

pub Trace-append :
    {id : ℕ} {s t u : GatewayLifecycleState} {xs ys : List GatewayEvent}
    → Trace id s xs t
    → Trace id t ys u
    → Trace id s (xs ++ ys) u
Trace-append here q = q
Trace-append (next f p) q = next f (Trace-append p q)

pub Trace-snoc :
    {id : ℕ} {s t u : GatewayLifecycleState} {xs : List GatewayEvent} {event : GatewayEvent}
    → Trace id s xs t
    → Follows id t event u
    → Trace id s (xs ++ event ∷ []) u
Trace-snoc p f = Trace-append p (next f here)

or_assoc : (a b c : Bool) → ((a || b) || c) ≡ (a || (b || c))
or_assoc true b c = refl
or_assoc false b c = refl

pub control_events-Trace :
    (id : ℕ) (saw_exit : Bool) (events : List ControlEvent)
    → Trace id
        (running saw_exit)
        (control_events id events)
        (running (saw_exit || any is_exit events))
control_events-Trace id true [] = here
control_events-Trace id false [] = here
control_events-Trace id saw_exit (event ∷ events) = next (controls saw_exit event) (
    subst
      (λ b. Trace id (running (saw_exit || is_exit event)) (control_events id events) (running b))
      (or_assoc saw_exit (is_exit event) (any is_exit events))
      (control_events-Trace id (saw_exit || is_exit event) events))

pub emitted-Trace :
    {id : ℕ} {s : GatewayLifecycleState} (events : List GatewayEvent) (d : Bytes)
    → Trace id s events direct
    → Trace id s (emitted events d) direct
emitted-Trace events [] p = p
emitted-Trace events (b ∷ bs) p = Trace-snoc p (outputs (b ∷ bs))

-- The active connection has the router's id, and the next one will have it again; while it is
-- active no part of the marker is kept; and draining is not waiting for the terminator.
abbrev pub Connected : ℕ → Option ActiveControl → ℕ → Bytes → Type 0
Connected id none next_id prefix = next_id ≡ id
Connected id (some a) next_id prefix =
    (a.connection_id ≡ id)
    × (next_id ≡ id + 1)
    × (prefix ≡ [])
    × (a.recovering ≡ true → a.saw_exit ≡ false)

-- What every router with first id `id` keeps: a proper prefix of the marker, and the above.
pub record IsRouted (id : ℕ) (r : TmuxGatewayRouter) : Type 0 where
  pub is_prefix : r.marker_prefix ≡ take (length r.marker_prefix) control_start_marker
  pub is_proper : length r.marker_prefix < length control_start_marker
  pub connected : Connected id r.active r.next_connection_id r.marker_prefix

-- The loop has led from `s` to the router's state.
pub record IsOnPath (id : ℕ) (s : GatewayLifecycleState) (l : Loop) : Type 0 where
  pub routed : IsRouted id l.router
  pub path : Trace id s l.events (state_of l.router.active)
  pub quiet : Quiet l.router.active l.direct

abbrev pub RoundOnPath : ℕ → GatewayLifecycleState → Round → Type 0
RoundOnPath id s (consumed l) = IsOnPath id s l
RoundOnPath id s (again l) = IsOnPath id s l
RoundOnPath id s (failed e r) = ⊥
RoundOnPath id s panicked = ⊥
