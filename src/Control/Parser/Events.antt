-- ===== src/Control/Parser/Events.antt =====
-- The events of src/tmux_control.rs that stand inside a stream: what a line of it pushes.
use lector.Prelude.{
  inl, inr, Bytes, bytes, arith, All, subst, Option-cases, strip_prefix, split_on, split_at_pattern,
}
use lector.Control.Data.{
  ControlEvent, started, malformed_record, ok_or, ended as ended_event, Result, ok, err, ◌>>=◌,
  TmuxControlParser,
}
use lector.Control.Octal.{decode_octal}
use lector.Control.Fields.{
  parse_extended_output, parse_single_pane, parse_pane_id, split_once_space, collect_fields,
  parse_u64, next,
}
use lector.Control.Records.{
  Outcome, process_line, finish_command, parse_event, parse_flow, parse_exit, parse_output,
  parse_notification, tail_bytes,
}
use lector.Control.Records.Cases.{
  process_record_cases, push_payload_cases, process_command_line_cases, process_line_cases,
}

-- Every event but the two that frame a stream.
abbrev pub IsInner : ControlEvent → Type 0
IsInner started = ⊥
IsInner ended_event = ⊥
IsInner _ = Unit

abbrev IsInnerResult : Result ControlEvent → Type 0
IsInnerResult (ok event) = IsInner event
IsInnerResult (err _) = Unit

bind-IsInner {ℓ} :
    {A : Type ℓ} (m : Result A) (k : A → Result ControlEvent)
    → ((a : A) → IsInnerResult (k a))
    → IsInnerResult (m >>= k)
bind-IsInner (ok a) k h = h a
bind-IsInner (err e) k h = tt

parse_output-IsInner : (rest : Bytes) → IsInnerResult (parse_output rest)
unfolding parse_output
parse_output-IsInner rest = bind-IsInner (split_once_space rest) _ λ parts.
    bind-IsInner (parse_pane_id parts.0) _
      λ pane_id. bind-IsInner (decode_octal parts.1) _ λ decoded. tt

parse_extended_output-IsInner : (rest : Bytes) → IsInnerResult (parse_extended_output rest)
unfolding parse_extended_output
parse_extended_output-IsInner rest =
    bind-IsInner (ok_or (split_at_pattern (bytes " : ") rest) malformed_record) _ λ parts.
      let fields = split_on b' ' parts.0 in
      bind-IsInner (collect_fields (next fields.1).1) _ λ future_fields.
        bind-IsInner (parse_pane_id fields.0) _ λ pane_id.
          bind-IsInner (parse_u64 (next fields.1).0 "extended-output age") _
            λ age_ms. bind-IsInner (decode_octal parts.1) _ λ decoded. tt

parse_notification-IsInner : (body : Bytes) → IsInnerResult (parse_notification body)
unfolding parse_notification
parse_notification-IsInner body = ground arith

parse_exit-IsInner : (line : Bytes) → IsInnerResult (parse_exit line)
unfolding parse_exit
parse_exit-IsInner line = ground (arith, parse_notification-IsInner (tail_bytes line))

parse_flow-IsInner : (line : Bytes) → IsInnerResult (parse_flow line)
unfolding parse_flow
parse_flow-IsInner line = elim (Option-cases (strip_prefix (bytes "%pause ") line)) [
  | inr (rest, e) ↦ rw (e, parse_flow) (bind-IsInner (parse_single_pane rest) _ λ _. tt)
  | inl e ↦
      rw (e, parse_flow)
        (elim (Option-cases (strip_prefix (bytes "%continue ") line)) [
          | inr (rest, f) ↦ rw (f, parse_flow) (bind-IsInner (parse_single_pane rest) _ λ _. tt)
          | inl f ↦ rw (f, parse_flow) (parse_exit-IsInner line)
        ])
]

parse_event-IsInner : (line : Bytes) → IsInnerResult (parse_event line)
unfolding parse_event
parse_event-IsInner line = elim (Option-cases (strip_prefix (bytes "%output ") line)) [
  | inr (rest, e) ↦ rw (e, parse_event) (parse_output-IsInner rest)
  | inl e ↦
      rw (e, parse_event)
        (elim (Option-cases (strip_prefix (bytes "%extended-output ") line)) [
          | inr (rest, f) ↦ rw (f, parse_event) (parse_extended_output-IsInner rest)
          | inl f ↦ rw (f, parse_event) (parse_flow-IsInner line)
        ])
]

abbrev pub PushesInner : Outcome → Type 0
PushesInner (ok (_, events)) = All IsInner events
PushesInner (err _) = Unit

pub process_line-PushesInner :
    (p : TmuxControlParser) (line : Bytes) → PushesInner (process_line p line)
unfolding finish_command
process_line-PushesInner p line =
    process_line_cases PushesInner p line
      (λ pending _.
        process_command_line_cases PushesInner p pending line (λ _. (tt, tt)) (λ _. (tt, tt))
          λ _ _. push_payload_cases PushesInner p pending line (λ _. tt) λ _ _ _. tt)
      λ _.
        process_record_cases PushesInner p line (λ _. tt) (λ _ _ _ _. tt)
          λ event e. (subst IsInnerResult e (parse_event-IsInner line), tt)
