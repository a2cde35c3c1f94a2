-- ===== src/Tests/Control.antt =====
-- Runs of the control parser (tests/tmux_control_parser.rs), and its theorems at concrete streams.
use lector.Prelude.{
  ◌≡◌, refl, ◌↔◌, none, List, [], ◌∷◌, ◌++◌, bytes, Bytes, arith, strip_prefix, starts_with, ltb,
}
use lector.Control.Data.{
  failed, Result, ok, err, ControlEvent, started, command, success, error, exit, ended,
  notification, extended_output, invalid_octal_escape, invalid_number, invalid_start_marker,
  parser_poisoned, default_limits, TmuxControlParser, ParseState,
}
use lector.Control.Fields.{
  parse_command_tag, parse_extended_output, split_once_space, parse_pane_id,
}
use lector.Control.Octal.{decode_octal}
use lector.Control.Octal.Encoding.{Spells, encode, decode_octal-iff-Spells, decode_octal-encode}
use lector.Control.Records.{process_line, is_terminator, parse_event}
use lector.Control.Parser.{new, with_limits, reset, push, push_byte, finish}
use lector.Control.Parser.Streaming.{push_next, push-append}
use lector.Control.Parser.Bounds.{IsBounded, push-IsBounded, with_limits-IsBounded}
use lector.Control.Parser.Session.{Session, push-Session}
use lector.Control.Parser.Recovery.{push_error_poisons, finish_accepts}
use lector.Control.Parser.Blocks.{Block}

run : Bytes → Result (List ControlEvent) × TmuxControlParser
unfolding new push push_byte process_line strip_prefix starts_with parse_event parse_extended_output
    parse_command_tag is_terminator split_once_space parse_pane_id decode_octal
run bs = push new bs

abbrev marker : Bytes
marker = 0x1b ∷ bytes "P1000p"

abbrev nested : Bytes
nested =
    marker
    ++ bytes "%begin 1 2 0\n%begin 10 20 0\n%end 10 20 0\r\n%end 1 2 0\n"
    ++ 0x1b ∷ bytes "\\"

abbrev nested_events : List ControlEvent
nested_events =
    started
    ∷ command 1 2 0 success (bytes "%begin 10 20 0" ∷ bytes "%end 10 20 0" ∷ [])
    ∷ ended
    ∷ []

abbrev finished : TmuxControlParser
finished = record {
  limits = default_limits;
  state = ParseState.ended;
  line = [];
  pending_command = none;
}

nested_block : push new nested ≡ (ok nested_events, finished)
unfolding run
nested_block = refl

extended :
    (run (
      marker
      ++ bytes "%extended-output %7 42 future field : B\\000C\n%message fixture ready\n%exit\n")).0
    ≡ ok (
        started
        ∷ extended_output 7 42 (bytes "future" ∷ bytes "field" ∷ []) (b'B' ∷ 0 ∷ b'C' ∷ [])
        ∷ notification (bytes "message") (bytes "fixture ready")
        ∷ exit none
        ∷ [])
unfolding run
extended = refl

octal_out_of_range : (run (marker ++ bytes "%output %1 \\400\n")).0 ≡ err invalid_octal_escape
unfolding run
octal_out_of_range = refl

number_overflows :
    (run (marker ++ bytes "%begin 1 18446744073709551616 0\n")).0
    ≡ err (invalid_number "command number")
unfolding run
number_overflows = refl

push-append_example :
    push new (marker ++ bytes "%exit\n") ≡ push_next (push new marker) (bytes "%exit\n")
push-append_example = push-append new marker (bytes "%exit\n")

push-IsBounded_example : IsBounded (push (with_limits default_limits) nested).1
push-IsBounded_example =
    push-IsBounded (with_limits default_limits) nested (with_limits-IsBounded default_limits)

decode_octal-iff-Spells_example :
    (decode_octal (bytes "A\\033") ≡ ok (65 ∷ 27 ∷ [])) ↔ Spells (bytes "A\\033") (65 ∷ 27 ∷ [])
decode_octal-iff-Spells_example = decode_octal-iff-Spells (bytes "A\\033") (65 ∷ 27 ∷ [])

decode_octal-encode_example :
    decode_octal (encode (λ b. ltb b 32) (65 ∷ 27 ∷ 92 ∷ 255 ∷ [])) ≡ ok (65 ∷ 27 ∷ 92 ∷ 255 ∷ [])
decode_octal-encode_example =
    decode_octal-encode (λ b. ltb b 32) (65 ∷ 27 ∷ 92 ∷ 255 ∷ []) (omega arith)

push-Session_example : Session ParseState.ended nested nested_events
unfolding run
push-Session_example = push-Session default_limits nested {p = finished} refl

finish_accepts_example :
    Session ParseState.ended nested nested_events × (◌≡◌ {A = List ControlEvent} [] [])
unfolding run finish
finish_accepts_example = finish_accepts default_limits nested {p = finished} refl refl

abbrev broken : TmuxControlParser
broken = record {
  limits = default_limits;
  state = ParseState.failed;
  line = [];
  pending_command = none;
}

push_error_poisons_example :
    ((more : Bytes) → push broken more ≡ (err parser_poisoned, broken))
    × (finish broken ≡ (
      err parser_poisoned,
      record { limits = broken.limits; state = failed; line = []; pending_command = none },
    ))
    × (reset broken ≡ with_limits default_limits)
unfolding run
push_error_poisons_example =
    push_error_poisons new broken (bytes "no marker") {e = invalid_start_marker 0} refl

-- A failing command whose output looks like another block.
abbrev block : Block default_limits
block = record {
  tag = record { timestamp = 1; number = 2; flags = 0 };
  status = error;
  opening = bytes "%begin 1 2 0\r";
  opening_tag = bytes "1 2 0";
  lines = bytes "%end 10 20 0\r\r" ∷ [] ∷ [];
  closing = bytes "%error 1 2 0";
  closing_tag = bytes "1 2 0";
}
