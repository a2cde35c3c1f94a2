-- ===== src/Control/Parser.antt =====
-- `TmuxControlParser` of src/tmux_control.rs: `with_limits`, `reset`, `push`, `finish`.
pub mod Cases
pub mod Streaming
pub mod Bounds
pub mod Events
pub mod Session
pub mod Recovery
pub mod Lines
pub mod Framing
pub mod Blocks
use lector.Prelude.{
  ℕ, suc, zero, ◌+◌, Bool, true, false, not, ◌&&◌, Option, none, some, List, [], ◌∷◌, ◌++◌, Bytes,
  bytes, is_empty, is_some, ◌==◌, if◌then◌else◌, length, get_elem?, trim_end,
}
use lector.Control.Data.{
  ParserLimits, default_limits, ControlEvent, started, ended as ended_event, UnterminatedState,
  start_marker, record_line, command_block, control_stream, string_terminator, ControlParseError,
  invalid_start_marker, invalid_string_terminator, trailing_data, parser_poisoned, line_too_long,
  unterminated, Result, ok, err, ◌>>=◌, ◌>>◌, guard, ParseState, start, records,
  possible_string_terminator, ended, failed, TmuxControlParser,
}
use lector.Control.Records.{Outcome, process_line}

abbrev pub control_start : Bytes
control_start = 0x1b ∷ bytes "P1000p"

unfoldable pub with_limits : ParserLimits → TmuxControlParser
with_limits limits = record { limits = limits; state = start 0; line = []; pending_command = none }

unfoldable pub new : TmuxControlParser
unfolding with_limits
new = with_limits default_limits

unfoldable pub reset : TmuxControlParser → TmuxControlParser
reset p = record p { state = start 0; line = []; pending_command = none }

unfoldable pub advance_start : TmuxControlParser → ℕ → TmuxControlParser × List ControlEvent
advance_start p matched =
    if matched == length control_start
    then (record p { state = records }, started ∷ [])
    else (record p { state = start matched }, [])

-- `ParseState::Start`. Where the lookup is out of range the source panics, and this is an error: compare
-- get_elem?-control_start in Bounds.
unfoldable pub push_start : TmuxControlParser → ℕ → ℕ → Outcome
unfolding advance_start
push_start p matched byte = elim (get_elem? control_start matched) [
  | none ↦ err (invalid_start_marker matched)
  | some expected ↦ do
    guard (byte == expected) (invalid_start_marker matched)
    ok (advance_start p (matched + 1))
]

-- `ParseState::Records`, whose guards are tried in order.
unfoldable pub push_records : TmuxControlParser → ℕ → Outcome
unfolding trim_end
push_records p byte =
    if is_empty p.line && byte == 0x1b && not (is_some p.pending_command)
    then ok (record p { state = possible_string_terminator }, [])
    else if byte == b'\n'
    then process_line (record p { line = [] }) (trim_end b'\r' p.line)
    else if length p.line == p.limits.max_line_bytes
    then err (line_too_long p.limits.max_line_bytes)
    else ok (record p { line = p.line ++ byte ∷ [] }, [])

unfoldable pub push_byte_in : ParseState → TmuxControlParser → ℕ → Outcome
unfolding push_start push_records
push_byte_in (start matched) p byte = push_start p matched byte
push_byte_in records p byte = push_records p byte
push_byte_in possible_string_terminator p byte =
    if byte == b'\\'
    then ok (record p { state = ended }, ended_event ∷ [])
    else err invalid_string_terminator
push_byte_in ended p byte = err trailing_data
push_byte_in failed p byte = err parser_poisoned

unfoldable pub push_byte : TmuxControlParser → ℕ → Outcome
unfolding push_byte_in
push_byte p byte = push_byte_in p.state p byte

-- What `push` and `finish` leave behind an error.
unfoldable pub poison : TmuxControlParser → TmuxControlParser
poison p = record p { state = failed; line = []; pending_command = none }

-- The loop of `push`; `events` is the vector that it fills.
unfoldable pub push_bytes :
    TmuxControlParser → List ControlEvent → Bytes → Result (List ControlEvent) × TmuxControlParser
unfolding poison
push_bytes p events [] = (ok events, p)
push_bytes p events (byte ∷ bs) = elim (push_byte p byte) [
  | err e ↦ (err e, poison p)
  | ok (p', pushed) ↦ push_bytes p' (events ++ pushed) bs
]

unfoldable pub is_failed : ParseState → Bool
is_failed failed = true
is_failed _ = false

unfoldable pub push : TmuxControlParser → Bytes → Result (List ControlEvent) × TmuxControlParser
unfolding push_bytes is_failed
push p bs = if is_failed p.state then (err parser_poisoned, p) else push_bytes p [] bs

abbrev pub finish_error : ParseState → TmuxControlParser → ControlParseError
finish_error (start _) p = unterminated start_marker
finish_error records p = unterminated (
    if not (is_empty p.line)
    then record_line
    else if is_some p.pending_command
    then command_block
    else control_stream)
finish_error possible_string_terminator p = unterminated string_terminator
finish_error ended p = parser_poisoned
finish_error failed p = parser_poisoned

unfoldable pub finish_in :
    ParseState → TmuxControlParser → Result (List ControlEvent) × TmuxControlParser
unfolding poison
finish_in ended p = (ok [], p)
finish_in state p = (err (finish_error state p), poison p)

unfoldable pub finish : TmuxControlParser → Result (List ControlEvent) × TmuxControlParser
unfolding finish_in
finish p = finish_in p.state p
