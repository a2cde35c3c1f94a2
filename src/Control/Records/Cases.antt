-- ===== src/Control/Records/Cases.antt =====
-- The branches of `process_line` and of the byte loop (src/tmux_control.rs), as rules: a
-- predicate on outcomes holds if it holds on each branch.
use lector.Prelude.{
  ◌+◌, ◌≤◌, ◌≡◌, refl, ◌≢◌, inl, inr, Bool, true, false, not, ◌||◌, none, some, [], ◌∷◌, ◌++◌,
  Bytes, bytes, bytes_eq, any, usize_max, arith, leb, leb→le, ◌==◌, length, Bool-cases,
  Option-cases, strip_prefix, starts_with,
}
use lector.Control.Data.{
  success, error, ControlEvent, ControlParseError, malformed_record, unexpected_command_terminator,
  command_output_too_long, too_many_command_output_lines, notification_too_long, Result, ok, err,
  ◌>>=◌, guard, CommandTag, PendingCommand, TmuxControlParser,
}
use lector.Control.Fields.{parse_command_tag}
use lector.Control.Records.{
  Outcome, is_terminator, finish_command, push_payload, process_command_line, bare_records,
  parse_event, process_record, process_line,
}

-- A block that opens with `tag`.
abbrev pub open_block : TmuxControlParser → CommandTag → TmuxControlParser
open_block p tag = record p {
  pending_command = some (record { tag = tag; output = []; output_bytes = 0 });
}

-- A block with one more line of output.
abbrev pub extend_block : TmuxControlParser → PendingCommand → Bytes → TmuxControlParser
extend_block p pending line = record p {
  pending_command = some (record pending {
    output = pending.output ++ line ∷ [];
    output_bytes = pending.output_bytes + length line;
  });
}

module _ {ℓ} (P : Outcome → Type ℓ) where
  guard_cases :
      (b : Bool) (e : ControlParseError) (k : Unit → Outcome)
      → P (err e)
      → (Unit {0} → b ≡ true → P (k tt))
      → P (guard b e >>= k)
  guard_cases true e k pe pk = pk tt refl
  guard_cases false e k pe pk = pe

  bind_cases {κ} :
      {A : Type κ} (m : Result A) (k : A → Outcome)
      → ((e : ControlParseError) → P (err e))
      → ((a : A) → m ≡ ok a → P (k a))
      → P (m >>= k)
  bind_cases (ok a) k pe pk = pk a refl
  bind_cases (err e) k pe pk = pe e

module _ {ℓ} (P : Outcome → Type ℓ) (p : TmuxControlParser) where
  pub process_record_cases :
      (line : Bytes)
      → ((e : ControlParseError) → P (err e))
      → ((rest : Bytes) (tag : CommandTag)
          → strip_prefix (bytes "%begin ") line ≡ some rest
          → parse_command_tag rest ≡ ok tag
          → P (ok (open_block p tag, [])))
      → ((event : ControlEvent) → parse_event line ≡ ok event → P (ok (p, event ∷ [])))
      → P (process_record p line)
  unfolding process_record
  process_record_cases line pe opened emitted =
      elim (Option-cases (strip_prefix (bytes "%begin ") line)) [
        | inr (rest, e) ↦
            rw (e, process_record)
              (bind_cases P (parse_command_tag rest) _ pe (λ tag t. opened rest tag e t))
        | inl e ↦
            rw (e, process_record)
              (guard_cases P
                (not (starts_with (bytes "%end ") line || starts_with (bytes "%error ") line))
                unexpected_command_terminator _ (pe _)
                λ _ _.
                  guard_cases P (not (any (bytes_eq line) bare_records)) malformed_record _ (pe _)
                    λ _ _.
                      guard_cases P (starts_with (bytes "%") line) malformed_record _ (pe _) λ _ _.
                        guard_cases P (leb (length line) p.limits.max_notification_bytes)
                          (notification_too_long p.limits.max_notification_bytes) _ (pe _)
                          λ _ _. bind_cases P (parse_event line) _ pe emitted)
      ]

  pub push_payload_cases :
      (pending : PendingCommand) (line : Bytes)
      → ((e : ControlParseError) → P (err e))
      → (length pending.output ≢ p.limits.max_command_output_lines
          → pending.output_bytes + length line ≤ p.limits.max_command_output_bytes
          → pending.output_bytes + length line ≤ usize_max
          → P (ok (extend_block p pending line, [])))
      → P (push_payload p pending line)
  unfolding push_payload
  push_payload_cases pending line pe extended =
      guard_cases P (not (length pending.output == p.limits.max_command_output_lines))
        (too_many_command_output_lines p.limits.max_command_output_lines) _ (pe _)
        λ _ room. elim (Bool-cases (leb (pending.output_bytes + length line) usize_max)) [
          | inl fits ↦ rw fits (
              guard_cases P
                (leb (pending.output_bytes + length line) p.limits.max_command_output_bytes)
                (command_output_too_long p.limits.max_command_output_bytes) _ (pe _)
                λ _ small. extended (ground arith) (leb→le _ _ small) (leb→le _ _ fits))
          | inr big ↦ rw big (pe _)
        ]

  pub process_command_line_cases :
      (pending : PendingCommand) (line : Bytes)
      → (is_terminator (bytes "%end ") pending.tag line ≡ true
          → P (ok (finish_command p pending success)))
      → (is_terminator (bytes "%error ") pending.tag line ≡ true
          → P (ok (finish_command p pending error)))
      → (is_terminator (bytes "%end ") pending.tag line ≡ false
          → is_terminator (bytes "%error ") pending.tag line ≡ false
          → P (push_payload p pending line))
      → P (process_command_line p pending line)
  unfolding process_command_line
  process_command_line_cases pending line pend perror ppayload =
      elim (Bool-cases (is_terminator (bytes "%end ") pending.tag line)) [
        | inl e ↦ rw e (pend e)
        | inr e ↦ rw e (elim (Bool-cases (is_terminator (bytes "%error ") pending.tag line)) [
          | inl f ↦ rw f (perror f)
          | inr f ↦ rw f (ppayload e f)
        ])
      ]

  pub process_line_cases :
      (line : Bytes)
      → ((pending : PendingCommand)
          → p.pending_command ≡ some pending
          → P (process_command_line p pending line))
      → (p.pending_command ≡ none → P (process_record p line))
      → P (process_line p line)
  unfolding process_line
  process_line_cases line pcommand precord = elim (Option-cases p.pending_command) [
    | inl e ↦ rw (e, process_line) (precord e)
    | inr (pending, e) ↦ rw (e, process_line) (pcommand pending e)
  ]
