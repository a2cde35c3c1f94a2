-- ===== src/Tests/Gateway.antt =====
-- Runs of the model of src/tmux_gateway.rs.
use lector.Prelude.{
  ◌≡◌, refl, true, false, none, some, List, [], ◌∷◌, ◌++◌, Bytes, bytes, arith, ap, length,
  length-append, strip_prefix, starts_with,
}
use lector.Control.Data.{started, exit, ended}
use lector.Gateway.Router.{
  control_start_marker, GatewayEvent, direct_output, connection_started, control, connection_ended,
  direct, TmuxGatewayRouter, lifecycle_state, with_first_connection_id, finish_transport,
  expire_termination,
}
use lector.Gateway.Iteration.{pushed, push, round}
use lector.Gateway.Streaming.{seen, push_next, push-append_items}
use lector.Gateway.Lifecycle.{IsRouted, Trace}
use lector.Gateway.Totality.{Lawful, push-Lawful}
use lector.Gateway.Transparency.{Passes, HasMarker, push-Passes}
use lector.Gateway.Detection.{started_in, push-control_start_marker}
use lector.Gateway.Shutdown.{
  Closes, finish_transport-Closes, Expires, expire_termination-Expires, session,
}
use lector.Control.Parser
use lector.Control.Records.{process_line, parse_event}

abbrev first : TmuxGatewayRouter
first = record { marker_prefix = []; active = none; next_connection_id = 1 }

-- A router that holds a part of the marker.
abbrev held : TmuxGatewayRouter
held = record first { marker_prefix = 0x1b ∷ bytes "P1" }

abbrev clean : Bytes
clean = bytes "a" ++ control_start_marker ++ bytes "%exit\n" ++ 0x1b ∷ bytes "\\b"

clean_session :
    push first clean
    ≡ some (
        pushed
          (direct_output (bytes "a")
            ∷ connection_started 1
            ∷ control 1 started
            ∷ control 1 (exit none)
            ∷ control 1 ended
            ∷ connection_ended 1
            ∷ direct_output (bytes "b")
            ∷ [])
          first)
unfolding push round Parser.push Parser.new Parser.push_byte process_line strip_prefix starts_with
    parse_event
clean_session = refl

push-append_items_example :
    seen (push held (bytes "0" ++ bytes "x")) ≡ push_next (seen (push held (bytes "0"))) (bytes "x")
push-append_items_example = push-append_items held (bytes "0") (bytes "x")

held-IsRouted : IsRouted 1 held
held-IsRouted = record { is_prefix = refl; is_proper = omega arith; connected = refl }

push-Lawful_example : Lawful 1 (lifecycle_state held) (push held clean)
push-Lawful_example = push-Lawful 1 held clean (omega arith) held-IsRouted

push-control_start_marker_example :
    push held control_start_marker
    ≡ some (
        pushed
          (started_in 1 (direct_output (0x1b ∷ bytes "P1") ∷ [])).events
          (started_in 1 []).router)
push-control_start_marker_example =
    push-control_start_marker 1 held (omega arith) held-IsRouted refl

unmarked : HasMarker (held.marker_prefix ++ bytes "1x") → ⊥
unmarked (front, back, e) = omega (
  arith,
  ap length e,
  length-append (front ++ control_start_marker) back,
  length-append front control_start_marker,
)

push-Passes_example : Passes 1 (held.marker_prefix ++ bytes "1x") (push held (bytes "1x"))
push-Passes_example = push-Passes 1 held (bytes "1x") held-IsRouted refl unmarked

finish_transport-Closes_example : Closes 1 (lifecycle_state held) (finish_transport held)
finish_transport-Closes_example = finish_transport-Closes 1 held held-IsRouted

-- Behind `%exit`, with no terminator so far.
abbrev waiting : TmuxGatewayRouter
waiting = record {
  marker_prefix = [];
  active = some (record {
    connection_id = 1;
    parser = (Parser.push Parser.new (control_start_marker ++ bytes "%exit\n")).1;
    current_record = [];
    saw_exit = true;
    terminator_escape_seen = false;
    recovering = false;
  });
  next_connection_id = 2;
}

expire_termination-Expires_example : Expires 1 waiting (expire_termination waiting)
expire_termination-Expires_example = expire_termination-Expires 1 waiting (record {
  is_prefix = refl;
  is_proper = omega arith;
  connected = (refl, omega arith, refl, λ e. cc e);
})

session_example :
    (events : List GatewayEvent) × (r : TmuxGatewayRouter) × (push
        (with_first_connection_id 7)
        clean
      ≡ some (pushed events r))
    × Trace 7 direct (events ++ (finish_transport r).0) direct
    × ((finish_transport r).1 ≡ with_first_connection_id 7)
session_example = session 7 clean (omega arith)
