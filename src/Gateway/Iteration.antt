-- ===== src/Gateway/Iteration.antt =====
-- `TmuxGatewayRouter::push` of src/tmux_gateway.rs: the branches of its loop, and the loop.
use lector.Prelude.{
  ℕ, zero, suc, ◌+◌, ◌*◌, Bool, true, false, not, ◌&&◌, ◌||◌, Option, none, some, List, [], ◌∷◌,
  ◌++◌, map, Bytes, u64_max, leb, is_empty, any, ◌==◌, if◌then◌else◌, length, get_elem?,
}
use lector.Control.Data.{ControlEvent, exit, ended, ControlParseError, Result, TmuxControlParser}
use lector.Control.Data.{ok as parsed, err as refused}
use lector.Control.Parser
use lector.Gateway.Router.{
  control_start_marker, missing_exit, missing_terminator, protocol, GatewayEvent, direct_output,
  connection_started, control, connection_ended, connection_failed, GatewayError,
  connection_id_exhausted, control_error, ActiveControl, TmuxGatewayRouter,
}

-- The router and the two local vectors of `push`.
pub record Loop : Type 0 where
  pub router : TmuxGatewayRouter
  pub events : List GatewayEvent
  pub direct : Bytes

-- What one round of the loop does with the byte at `index`: it is consumed, or looked at again
-- in the next round, or `push` returns an error, or an index is out of range.
pub data Round : Type 0 where
  consumed again : Loop → Round
  failed : GatewayError → TmuxGatewayRouter → Round
  panicked : Round

unfoldable pub emit_direct : Loop → Loop
emit_direct l =
    if is_empty l.direct
    then l
    else record l { events = l.events ++ direct_output l.direct ∷ []; direct = [] }

-- The connection is over, and its id is free again.
abbrev pub release : TmuxGatewayRouter → ActiveControl → TmuxGatewayRouter
release r a = record r { active = none; next_connection_id = a.connection_id }

abbrev pub fresh_control : ℕ → TmuxControlParser → ActiveControl
fresh_control connection_id parser = record {
  connection_id = connection_id;
  parser = parser;
  current_record = [];
  saw_exit = false;
  terminator_escape_seen = false;
  recovering = false;
}

abbrev pub control_events : ℕ → List ControlEvent → List GatewayEvent
control_events connection_id = map (control connection_id)

abbrev pub opened : Loop → ℕ → Result (List ControlEvent) × TmuxControlParser → Round
opened l connection_id (refused source, parser) =
    failed (control_error connection_id source)
      (record l.router { next_connection_id = connection_id + 1 })
opened l connection_id (parsed events, parser) = consumed (record l {
  router = record l.router {
    active = some (fresh_control connection_id parser);
    next_connection_id = connection_id + 1;
  };
  events = l.events ++ connection_started connection_id ∷ control_events connection_id events;
})

unfoldable pub start_connection : Loop → Round
start_connection l =
    let id = l.router.next_connection_id in
    if leb u64_max id
    then failed connection_id_exhausted l.router
    else opened l id (Parser.push Parser.new control_start_marker)

-- The stream is being drained up to its terminator.
unfoldable pub recover : Loop → ActiveControl → ℕ → Round
recover l a byte =
    if a.terminator_escape_seen && byte == b'\\'
    then consumed (record l {
      router = release l.router a;
      events = l.events ++ connection_ended a.connection_id ∷ [];
    })
    else consumed (record l {
      router = record l.router {
        active = some (record a { terminator_escape_seen = byte == 0x1b });
      };
    })

abbrev pub first_reveals_direct : Bytes → Bool
first_reveals_direct [] = false
first_reveals_direct (b ∷ bs) = not (b == b'%') && not (b == 0x1b)

-- The parser refused a byte of the active connection `a`, which it has in `current_record`.
unfoldable pub control_failed : Loop → ActiveControl → ControlParseError → Loop
control_failed l a source =
    let events =
      l.events
      ++ connection_failed a.connection_id
          (if a.saw_exit then missing_terminator else protocol source)
        ∷ [] in
    if a.saw_exit || first_reveals_direct a.current_record
    then record l {
      router = release l.router a;
      events = events;
      direct = l.direct ++ a.current_record;
    }
    else record l {
      router = record l.router {
        active = some (record a {
          current_record = [];
          recovering = true;
          saw_exit = false;
          terminator_escape_seen = false;
        });
      };
      events = events;
    }

abbrev pub is_ended : ControlEvent → Bool
is_ended ended = true
is_ended _ = false

abbrev pub is_exit : ControlEvent → Bool
is_exit (exit _) = true
is_exit _ = false

-- The parser took the byte and gave these events.
unfoldable pub control_parsed : Loop → ActiveControl → ℕ → List ControlEvent → Loop
control_parsed l a byte events =
    let a' : ActiveControl = record a {
      saw_exit = a.saw_exit || any is_exit events;
      current_record = if byte == b'\n' then [] else a.current_record;
    } in
    let passed = l.events ++ control_events a.connection_id events in
    if any is_ended events
    then record l {
      router = release l.router a;
      events =
          passed
          ++ (if a'.saw_exit
              then connection_ended a.connection_id
              else connection_failed a.connection_id missing_exit)
            ∷ [];
    }
    else record l { router = record l.router { active = some a' }; events = passed }

-- The active connection with the byte in its record and its parser advanced.
abbrev pub advance_control : ActiveControl → ℕ → TmuxControlParser → ActiveControl
advance_control a byte parser = record a {
  parser = parser;
  current_record = a.current_record ++ byte ∷ [];
  terminator_escape_seen = (a.saw_exit && byte == 0x1b) || a.terminator_escape_seen;
}

abbrev pub after_parse :
    Loop → ActiveControl → ℕ → Result (List ControlEvent) × TmuxControlParser → Loop
after_parse l a byte (parsed events, parser) =
    control_parsed l (advance_control a byte parser) byte events
after_parse l a byte (refused source, parser) =
    control_failed l (advance_control a byte parser) source

unfoldable pub control_round : Loop → ActiveControl → ℕ → Round
unfolding control_parsed control_failed
control_round l a byte =
    if a.saw_exit && not a.terminator_escape_seen && not (byte == 0x1b)
    then again (record l {
      router = release l.router a;
      events = l.events ++ connection_failed a.connection_id missing_terminator ∷ [];
    })
    else consumed (after_parse l a byte (Parser.push a.parser (byte ∷ [])))

unfoldable pub direct_round : Loop → ℕ → Round
unfolding emit_direct start_connection
direct_round l byte =
    let prefix = l.router.marker_prefix in
    elim (get_elem? control_start_marker (length prefix)) [
      | none ↦ panicked
      | some expected ↦
          if byte == expected
          then (if length (prefix ++ byte ∷ []) == length control_start_marker
              then start_connection (
                  let flushed = emit_direct l in
                  record flushed { router = record flushed.router { marker_prefix = [] } })
              else consumed
                  (record l { router = record l.router { marker_prefix = prefix ++ byte ∷ [] } }))
          else if is_empty prefix
          then consumed (record l { direct = l.direct ++ byte ∷ [] })
          else again (record l {
            router = record l.router { marker_prefix = [] };
            direct = l.direct ++ prefix;
          })
    ]

unfoldable pub round_in : Option ActiveControl → Loop → ℕ → Round
unfolding recover control_round direct_round
round_in none l byte = direct_round l byte
round_in (some a) l byte = if a.recovering then recover l a byte else control_round l a byte

unfoldable pub round : Loop → ℕ → Round
unfolding round_in
round l byte = round_in l.router.active l byte

pub data Outcome : Type 0 where
  pushed : List GatewayEvent → TmuxGatewayRouter → Outcome
  push_failed : GatewayError → TmuxGatewayRouter → Outcome

-- The loop with fuel for its rounds; `none` when that runs out, or an index is out of range.
unfoldable pub run : ℕ → Loop → Bytes → Option Outcome
unfolding emit_direct
run zero l bs = none
run (suc fuel) l [] = let flushed = emit_direct l in some (pushed flushed.events flushed.router)
run (suc fuel) l (byte ∷ bs) = elim (round l byte) [
  | consumed l' ↦ run fuel l' bs
  | again l' ↦ run fuel l' (byte ∷ bs)
  | failed e r ↦ some (push_failed e r)
  | panicked ↦ none
]

-- Each byte takes three rounds at most.
unfoldable pub push : TmuxGatewayRouter → Bytes → Option Outcome
unfolding run
push r bs = run (3 * length bs + 3) (record { router = r; events = []; direct = [] }) bs
