-- ===== src/Control/Records.antt =====
-- `process_line` of src/tmux_control.rs: one complete line, as command output or as a record.
pub mod Cases
use lector.Prelude.{
  ℕ, ◌+◌, Bool, true, false, not, ◌&&◌, ◌||◌, Option, none, some, List, [], ◌∷◌, ◌++◌, Bytes, bytes,
  bytes_eq, usize_max, is_ascii_digit, is_empty, all, any, leb, ltb, ◌==◌, if◌then◌else◌, length,
  strip_prefix, starts_with, split_once,
}
use lector.Control.Data.{
  ParserLimits, CommandStatus, success, error, ControlEvent, command, output, pause, continue, exit,
  notification, malformed_record, unexpected_command_terminator, command_output_too_long,
  too_many_command_output_lines, notification_too_long, Result, ok, err, ◌>>=◌, ◌>>◌, guard, ok_or,
  CommandTag, PendingCommand, TmuxControlParser,
}
use lector.Control.Octal.{decode_octal}
use lector.Control.Fields.{
  parse_command_tag, parse_pane_id, parse_single_pane, split_once_space, parse_extended_output,
}

-- What a call does to the parser, and the events that it pushes. After an error the caller
-- overwrites all of the parser but its limits, so an error carries no state.
abbrev pub Outcome : Type 0
Outcome = Result (TmuxControlParser × List ControlEvent)

unfoldable pub tag_eq : CommandTag → CommandTag → Bool
tag_eq a b = a.timestamp == b.timestamp && a.number == b.number && a.flags == b.flags

-- `line.strip_prefix(..)` holds, and the tag behind it is the pending command's.
unfoldable pub is_terminator : Bytes → CommandTag → Bytes → Bool
unfolding tag_eq
is_terminator prefix tag line = elim (strip_prefix prefix line) [
  | none ↦ false
  | some rest ↦ elim (parse_command_tag rest) [ ok found ↦ tag_eq found tag | err _ ↦ false ]
]

unfoldable pub finish_command :
    TmuxControlParser → PendingCommand → CommandStatus → TmuxControlParser × List ControlEvent
finish_command p pending status = (
  record p { pending_command = none },
  command pending.tag.timestamp pending.tag.number pending.tag.flags status pending.output ∷ [],
)

-- `usize::checked_add`
abbrev pub checked_add : ℕ → ℕ → Option ℕ
checked_add a b = if leb (a + b) usize_max then some (a + b) else none

-- A line of payload, within the limits.
unfoldable pub push_payload : TmuxControlParser → PendingCommand → Bytes → Outcome
push_payload p pending line = do
  guard (not (length pending.output == p.limits.max_command_output_lines))
      (too_many_command_output_lines p.limits.max_command_output_lines)
  output_bytes ←
      ok_or (checked_add pending.output_bytes (length line))
        (command_output_too_long p.limits.max_command_output_bytes)
  guard (leb output_bytes p.limits.max_command_output_bytes)
      (command_output_too_long p.limits.max_command_output_bytes)
  ok (
    record p {
      pending_command =
          some
            (record pending { output = pending.output ++ line ∷ []; output_bytes = output_bytes });
    },
    [],
  )

-- A line while a command block is open.
unfoldable pub process_command_line : TmuxControlParser → PendingCommand → Bytes → Outcome
unfolding push_payload finish_command
process_command_line p pending line =
    if is_terminator (bytes "%end ") pending.tag line
    then ok (finish_command p pending success)
    else if is_terminator (bytes "%error ") pending.tag line
    then ok (finish_command p pending error)
    else push_payload p pending line

abbrev pub bare_records : List Bytes
bare_records =
    bytes "%begin"
    ∷ bytes "%end"
    ∷ bytes "%error"
    ∷ bytes "%output"
    ∷ bytes "%extended-output"
    ∷ bytes "%pause"
    ∷ bytes "%continue"
    ∷ []

abbrev pub is_name_byte : ℕ → Bool
is_name_byte b = (leb b'a' b && leb b b'z') || is_ascii_digit b || b == b'-'

-- The record with no reserved name: `body` is the line without its first byte.
-- The name, and the arguments behind the first space.
abbrev pub name_and_arguments : Option (Bytes × Bytes) → Bytes → Bytes × Bytes
name_and_arguments none body = (body, [])
name_and_arguments (some parts) body = parts

unfoldable pub parse_notification : Bytes → Result ControlEvent
unfolding split_once
parse_notification body = do
  let (name, arguments) = name_and_arguments (split_once b' ' body) body
  guard (not (is_empty name) && all is_name_byte name) malformed_record
  ok (notification name arguments)

unfoldable pub parse_output : Bytes → Result ControlEvent
parse_output rest = do
  (pane, value) ← split_once_space rest
  pane_id ← parse_pane_id pane
  decoded ← decode_octal value
  ok (output pane_id decoded)

abbrev pub tail_bytes : Bytes → Bytes
tail_bytes [] = []
tail_bytes (b ∷ bs) = bs

-- The exit record, and the records with no reserved name.
unfoldable pub parse_exit : Bytes → Result ControlEvent
unfolding strip_prefix parse_notification
parse_exit line =
    if bytes_eq line (bytes "%exit")
    then ok (exit none)
    else elim (strip_prefix (bytes "%exit ") line) [
      | some reason ↦ ok (exit (if is_empty reason then none else some reason))
      | none ↦ parse_notification (tail_bytes line)
    ]

-- The flow-control records, and then the others.
unfoldable pub parse_flow : Bytes → Result ControlEvent
unfolding parse_exit
parse_flow line = elim (strip_prefix (bytes "%pause ") line) [
  | some rest ↦ parse_single_pane rest >>= λ pane_id. ok (pause pane_id)
  | none ↦ elim (strip_prefix (bytes "%continue ") line) [
    | some rest ↦ parse_single_pane rest >>= λ pane_id. ok (continue pane_id)
    | none ↦ parse_exit line
  ]
]

-- The records that are an event by themselves, in the order in which the code tries them.
unfoldable pub parse_event : Bytes → Result ControlEvent
unfolding parse_output parse_flow
parse_event line = elim (strip_prefix (bytes "%output ") line) [
  | some rest ↦ parse_output rest
  | none ↦ elim (strip_prefix (bytes "%extended-output ") line) [
    | some rest ↦ parse_extended_output rest
    | none ↦ parse_flow line
  ]
]

-- A line outside every command block.
unfoldable pub process_record : TmuxControlParser → Bytes → Outcome
process_record p line = elim (strip_prefix (bytes "%begin ") line) [
  | some rest ↦ do
    tag ← parse_command_tag rest
    ok (
      record p { pending_command = some (record { tag = tag; output = []; output_bytes = 0 }) },
      [],
    )
  | none ↦ do
    guard (not (starts_with (bytes "%end ") line || starts_with (bytes "%error ") line))
        unexpected_command_terminator
    guard (not (any (bytes_eq line) bare_records)) malformed_record
    guard (starts_with (bytes "%") line) malformed_record
    guard (leb (length line) p.limits.max_notification_bytes)
        (notification_too_long p.limits.max_notification_bytes)
    event ← parse_event line
    ok (p, event ∷ [])
]

unfoldable pub process_line : TmuxControlParser → Bytes → Outcome
unfolding process_command_line process_record
process_line p line = elim p.pending_command [
  | some pending ↦ process_command_line p pending line
  | none ↦ process_record p line
]
