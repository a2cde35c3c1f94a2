-- ===== src/Control/Fields.antt =====
-- The fields of a control record: command tags, numbers, pane ids (src/tmux_control.rs).
use lector.Prelude.{
  ℕ, ◌+◌, ◌-◌, ◌*◌, String, not, ◌&&◌, Option, none, some, List, [], ◌∷◌, Bytes, bytes, u64_max,
  is_ascii_digit, is_empty, all, any, ltb, ◌==◌, if◌then◌else◌, strip_prefix, split_on, split_once,
  split_at_pattern,
}
use lector.Control.Octal.{decode_octal}
use lector.Control.Data.{
  ControlEvent, extended_output, malformed_record, invalid_number, invalid_pane_id, Result, ok, err,
  ◌>>=◌, ◌>>◌, guard, ok_or, CommandTag,
}

-- `str::parse::<u64>` on digits: checked multiplication and addition, digit by digit.
unfoldable pub parse_digits : ℕ → Bytes → Option ℕ
parse_digits n [] = some n
parse_digits n (d ∷ ds) =
    let rest = parse_digits (n * 10 + (d - b'0')) ds in
    if ltb u64_max (n * 10 + (d - b'0')) then none else rest

unfoldable pub parse_u64 : Option Bytes → String → Result ℕ
unfolding parse_digits
parse_u64 field_bytes field = do
  digits ← ok_or field_bytes malformed_record
  guard (not (is_empty digits) && all is_ascii_digit digits) (invalid_number field)
  ok_or (parse_digits 0 digits) (invalid_number field)

unfoldable pub parse_pane_id : Bytes → Result ℕ
unfolding parse_digits strip_prefix
parse_pane_id bs = do
  digits ← ok_or (strip_prefix (bytes "%") bs) invalid_pane_id
  guard (not (is_empty digits) && all is_ascii_digit digits) invalid_pane_id
  ok_or (parse_digits 0 digits) invalid_pane_id

unfoldable pub parse_single_pane : Bytes → Result ℕ
unfolding parse_pane_id
parse_single_pane bs = if any (λ b. b == b' ') bs then err malformed_record else parse_pane_id bs

unfoldable pub split_once_space : Bytes → Result (Bytes × Bytes)
unfolding split_once
split_once_space bs = ok_or (split_once b' ' bs) malformed_record

-- What `fields.next()` gives: the next field, and the iterator after it.
abbrev pub next {ℓ} : {A : Type ℓ} → List A → Option A × List A
next [] = (none, [])
next (field ∷ fields) = (some field, fields)

unfoldable pub parse_command_tag : Bytes → Result CommandTag
unfolding parse_u64 split_on
parse_command_tag bs =
    let (first, rest) = split_on b' ' bs in
    let (second, rest') = next rest in
    let (third, rest'') = next rest' in
    do
      timestamp ← parse_u64 (some first) "command timestamp"
      number ← parse_u64 second "command number"
      flags ← parse_u64 third "command flags"
      guard (is_empty rest'') malformed_record
      ok (record { timestamp = timestamp; number = number; flags = flags })

-- `map(..).collect::<Result<Vec<_>, _>>()`: an empty field is an error.
unfoldable pub collect_fields : List Bytes → Result (List Bytes)
collect_fields [] = ok []
collect_fields (field ∷ fields) = do
  guard (not (is_empty field)) malformed_record
  rest ← collect_fields fields
  ok (field ∷ rest)

unfoldable pub parse_extended_output : Bytes → Result ControlEvent
unfolding split_at_pattern split_on collect_fields parse_pane_id parse_u64 decode_octal
parse_extended_output bs = do
  (header, value) ← ok_or (split_at_pattern (bytes " : ") bs) malformed_record
  let pane = (split_on b' ' header).0
  let rest = (split_on b' ' header).1
  future_fields ← collect_fields (next rest).1
  pane_id ← parse_pane_id pane
  age_ms ← parse_u64 (next rest).0 "extended-output age"
  decoded ← decode_octal value
  ok (extended_output pane_id age_ms future_fields decoded)
