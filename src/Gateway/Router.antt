-- ===== src/Gateway/Router.antt =====
-- The data of src/tmux_gateway.rs, and the operations that read no input.
use lector.Prelude.{
  ℕ, Bool, Option, none, some, List, [], ◌∷◌, Bytes, bytes, is_empty, if◌then◌else◌,
}
use lector.Control.Data.{ControlEvent, ControlParseError, parser_poisoned, TmuxControlParser}
use lector.Control.Data.{ok as parsed, err as refused}
use lector.Control.Parser

abbrev pub control_start_marker : Bytes
control_start_marker = 0x1b ∷ bytes "P1000p"

-- `protocol` keeps the parser's error, of which the source keeps the message.
pub data GatewayFailure : Type 0 where
  transport_eof missing_exit missing_terminator terminator_timeout : GatewayFailure
  protocol : ControlParseError → GatewayFailure

-- Each constructor but the first starts with the connection id.
pub data GatewayEvent : Type 0 where
  direct_output : Bytes → GatewayEvent
  connection_started : ℕ → GatewayEvent
  control : ℕ → ControlEvent → GatewayEvent
  connection_ended : ℕ → GatewayEvent
  connection_failed : ℕ → GatewayFailure → GatewayEvent

pub data GatewayLifecycleState : Type 0 where
  direct in_control awaiting_terminator in_recovery : GatewayLifecycleState

pub data GatewayError : Type 0 where
  connection_id_exhausted : GatewayError
  control_error unterminated_control : ℕ → ControlParseError → GatewayError

pub record ActiveControl : Type 0 where
  pub connection_id : ℕ
  pub parser : TmuxControlParser
  pub current_record : Bytes
  pub saw_exit : Bool
  pub terminator_escape_seen : Bool
  pub recovering : Bool

pub record TmuxGatewayRouter : Type 0 where
  pub marker_prefix : Bytes
  pub active : Option ActiveControl
  pub next_connection_id : ℕ

unfoldable pub with_first_connection_id : ℕ → TmuxGatewayRouter
with_first_connection_id first_connection_id = record {
  marker_prefix = [];
  active = none;
  next_connection_id = first_connection_id;
}

unfoldable pub active_connection : TmuxGatewayRouter → Option ℕ
active_connection r = elim r.active [ none ↦ none | some a ↦ some a.connection_id ]

abbrev pub state_of : Option ActiveControl → GatewayLifecycleState
state_of none = direct
state_of (some a) =
    if a.recovering then in_recovery else if a.saw_exit then awaiting_terminator else in_control

unfoldable pub lifecycle_state : TmuxGatewayRouter → GatewayLifecycleState
lifecycle_state r = state_of r.active

abbrev pub finish_active :
    TmuxGatewayRouter → ActiveControl → Option GatewayError × TmuxGatewayRouter
finish_active r a =
    if a.recovering
    then (some (unterminated_control a.connection_id parser_poisoned), r)
    else let (result, parser') = Parser.finish a.parser in
      let r' : TmuxGatewayRouter = record r { active = some (record a { parser = parser' }) } in
      elim result [
        | parsed _ ↦ (none, r')
        | refused source ↦ (some (unterminated_control a.connection_id source), r')
      ]

-- The bytes that are released, or the error, and the router.
unfoldable pub finish_direct : TmuxGatewayRouter → Bytes × Option GatewayError × TmuxGatewayRouter
finish_direct r = elim r.active [
  | some a ↦ let (failure, r') = finish_active r a in ([], failure, r')
  | none ↦ (r.marker_prefix, none, record r { marker_prefix = [] })
]

abbrev pub transport_failure : ActiveControl → GatewayEvent
transport_failure a =
    if a.recovering
    then connection_ended a.connection_id
    else connection_failed a.connection_id
        (if a.saw_exit then missing_terminator else transport_eof)

unfoldable pub finish_transport : TmuxGatewayRouter → List GatewayEvent × TmuxGatewayRouter
finish_transport r = elim r.active [
  | some a ↦ (
    transport_failure a ∷ [],
    record { marker_prefix = []; active = none; next_connection_id = a.connection_id },
  )
  | none ↦ (
    if is_empty r.marker_prefix then [] else direct_output r.marker_prefix ∷ [],
    record r { marker_prefix = [] },
  )
]

unfoldable pub expire_termination : TmuxGatewayRouter → List GatewayEvent × TmuxGatewayRouter
expire_termination r = elim r.active [
  | none ↦ ([], r)
  | some a ↦
      if a.saw_exit
      then (
        connection_failed a.connection_id terminator_timeout ∷ [],
        record r { active = none; next_connection_id = a.connection_id },
      )
      else ([], r)
]
