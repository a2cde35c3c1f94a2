-- ===== src/Control/Data.antt =====
-- The data of src/tmux_control.rs: limits, events, errors and the parser's state.
use lector.Prelude.{ℕ, ◌*◌, String, Bool, true, false, Option, none, List, Bytes}

pub record ParserLimits : Type 0 where
  pub max_line_bytes : ℕ
  pub max_command_output_bytes : ℕ
  pub max_command_output_lines : ℕ
  pub max_notification_bytes : ℕ

abbrev pub default_limits : ParserLimits
default_limits = record {
  max_line_bytes = 64 * 1024;
  max_command_output_bytes = 4 * 1024 * 1024;
  max_command_output_lines = 65_536;
  max_notification_bytes = 64 * 1024;
}

pub data CommandStatus : Type 0 where
  success error : CommandStatus

pub data ControlEvent : Type 0 where
  started : ControlEvent
  -- timestamp, number, flags, status, output
  command : ℕ → ℕ → ℕ → CommandStatus → List Bytes → ControlEvent
  -- pane id, bytes
  output : ℕ → Bytes → ControlEvent
  -- pane id, age in ms, future fields, bytes
  extended_output : ℕ → ℕ → List Bytes → Bytes → ControlEvent
  -- pane id
  pause continue : ℕ → ControlEvent
  exit : Option Bytes → ControlEvent
  -- name, arguments
  notification : Bytes → Bytes → ControlEvent
  ended : ControlEvent

pub data UnterminatedState : Type 0 where
  start_marker record_line command_block control_stream string_terminator : UnterminatedState

pub data ControlParseError : Type 0 where
  invalid_start_marker : ℕ → ControlParseError
  invalid_string_terminator trailing_data parser_poisoned malformed_record : ControlParseError
  invalid_number : String → ControlParseError
  unexpected_command_terminator invalid_pane_id invalid_octal_escape : ControlParseError
  line_too_long command_output_too_long too_many_command_output_lines notification_too_long :
      ℕ → ControlParseError
  unterminated : UnterminatedState → ControlParseError

pub is_malformed : ControlParseError → Bool
is_malformed (line_too_long _) = false
is_malformed (command_output_too_long _) = false
is_malformed (too_many_command_output_lines _) = false
is_malformed (notification_too_long _) = false
is_malformed (unterminated _) = false
is_malformed parser_poisoned = false
is_malformed _ = true

pub is_unterminated : ControlParseError → Bool
is_unterminated (unterminated _) = true
is_unterminated _ = false

pub data Result {ℓ} (A : Type ℓ) : Type ℓ where
  ok : A → Result A
  err : ControlParseError → Result A

-- An early `return Err(reason)` unless the test holds.
abbrev pub guard : Bool → ControlParseError → Result (Unit {0})
guard true reason = ok tt
guard false reason = err reason

-- `?`, which hands an error on.
infixl 5 ◌>>=◌ ◌>>◌
abbrev pub ◌>>=◌ {ℓ κ} : {X : Type ℓ} {Y : Type κ} → Result X → (X → Result Y) → Result Y
err reason >>= next = err reason
ok x >>= next = next x

abbrev pub ◌>>◌ {ℓ} : {Y : Type ℓ} → Result (Unit {0}) → Result Y → Result Y
checked >> rest = checked >>= λ _. rest

-- `ok_or`
abbrev pub ok_or {ℓ} : {A : Type ℓ} → Option A → ControlParseError → Result A
ok_or none e = err e
ok_or (Option.some a) e = ok a

pub record CommandTag : Type 0 where
  pub timestamp : ℕ
  pub number : ℕ
  pub flags : ℕ

pub record PendingCommand : Type 0 where
  pub tag : CommandTag
  pub output : List Bytes
  pub output_bytes : ℕ

pub data ParseState : Type 0 where
  start : ℕ → ParseState
  records possible_string_terminator ended failed : ParseState

pub record TmuxControlParser : Type 0 where
  pub limits : ParserLimits
  pub state : ParseState
  pub line : Bytes
  pub pending_command : Option PendingCommand
