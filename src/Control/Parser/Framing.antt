-- ===== src/Control/Parser/Framing.antt =====
-- The lines of a command block of the tmux control protocol (src/tmux_control.rs).
use lector.Prelude.{
  ◌+◌, ◌≤◌, ◌<◌, ◌≡◌, refl, sym, ap, ◌∙◌, inl, true, false, none, some, List, [], ◌∷◌, ◌++◌, map,
  append-nil, append_assoc, Bytes, bytes, usize_max, arith, All, length, length-append, trim_end,
  strip_prefix, strip_prefix-append,
}
use lector.Control.Data.{
  ParserLimits, CommandStatus, success, error, ControlEvent, ok, records, CommandTag,
  PendingCommand, TmuxControlParser,
}
use lector.Control.Fields.{parse_command_tag}
use lector.Control.Records.{
  tag_eq, is_terminator, finish_command, process_command_line, process_record, process_line,
}
use lector.Control.Records.Cases.{open_block, extend_block}
use lector.Control.Parser.{push_bytes}
use lector.Control.Parser.Bounds.{total}
use lector.Control.Parser.Lines.{NoNewline, continue_with, push_bytes_line, push_bytes_newline}

-- Lines, each with its newline, and what follows them.
abbrev pub frame_lines : List Bytes → Bytes → Bytes
frame_lines [] rest = rest
frame_lines (line ∷ lines) rest = line ++ b'\n' ∷ frame_lines lines rest

abbrev pub trimmed : Bytes → Bytes
trimmed = trim_end b'\r'

-- Inside the block of `tag`, the line is not framing, and fits a line.
pub record IsPayload (limits : ParserLimits) (tag : CommandTag) (line : Bytes) : Type 0 where
  pub one_line : NoNewline line
  pub fits : length line ≤ limits.max_line_bytes
  pub not_end : is_terminator (bytes "%end ") tag (trimmed line) ≡ false
  pub not_error : is_terminator (bytes "%error ") tag (trimmed line) ≡ false

-- Between two records, and inside a block, with nothing of the next line read.
abbrev pub idle : ParserLimits → TmuxControlParser
idle l = record { limits = l; state = records; line = []; pending_command = none }

abbrev pub in_block : ParserLimits → PendingCommand → TmuxControlParser
in_block l c = record { limits = l; state = records; line = []; pending_command = some c }

abbrev pub with_output : PendingCommand → List Bytes → PendingCommand
with_output c lines = record c {
  output = c.output ++ lines;
  output_bytes = c.output_bytes + total lines;
}

with_output-nil : (c : PendingCommand) → with_output c [] ≡ c
with_output-nil c = ground (arith, append-nil c.output)

with_output-cons :
    (c : PendingCommand) (line : Bytes) (lines : List Bytes)
    → with_output (with_output c (line ∷ [])) lines ≡ with_output c (line ∷ lines)
with_output-cons c line lines = ground (arith, append_assoc c.output (line ∷ []) lines)

-- A line in a block, whatever its first byte.
pub push_bytes_block_line :
    (l : ParserLimits) (c : PendingCommand) (events : List ControlEvent) (line rest : Bytes)
    → NoNewline line
    → length line ≤ l.max_line_bytes
    → push_bytes (in_block l c) events (line ++ b'\n' ∷ rest)
      ≡ continue_with
          (record (in_block l c) { line = line })
          events
          rest
          (process_command_line (in_block l c) c (trimmed line))
unfolding process_line
push_bytes_block_line l c events [] rest n h = push_bytes_newline (in_block l c) events rest refl
push_bytes_block_line l c events (b ∷ bs) rest n h =
    push_bytes_line (in_block l c) events b bs rest refl refl (inl refl) n h

process_command_line_payload :
    (p : TmuxControlParser) (c : PendingCommand) (line : Bytes)
    → is_terminator (bytes "%end ") c.tag line ≡ false
    → is_terminator (bytes "%error ") c.tag line ≡ false
    → length c.output < p.limits.max_command_output_lines
    → c.output_bytes + length line ≤ p.limits.max_command_output_bytes
    → p.limits.max_command_output_bytes ≤ usize_max
    → process_command_line p c line ≡ ok (extend_block p c line, [])
unfolding process_command_line
process_command_line_payload p c line ne nr room small usize = rw (ne, nr) (ground arith)

pub push_bytes_payload :
    (l : ParserLimits) (c : PendingCommand) (events : List ControlEvent) (lines : List Bytes)
    (rest : Bytes)
    → l.max_command_output_bytes ≤ usize_max
    → All (IsPayload l c.tag) lines
    → length c.output + length lines ≤ l.max_command_output_lines
    → c.output_bytes + total (map trimmed lines) ≤ l.max_command_output_bytes
    → push_bytes (in_block l c) events (frame_lines lines rest)
      ≡ push_bytes (in_block l (with_output c (map trimmed lines))) events rest
push_bytes_payload l c events [] rest usize pl room small =
    ap (λ d. push_bytes (in_block l d) events rest) (sym (with_output-nil c))
push_bytes_payload l c events (line ∷ lines) rest usize pl room small =
    let d : PendingCommand = record c {
      output = c.output ++ trimmed line ∷ [];
      output_bytes = c.output_bytes + length (trimmed line);
    } in
    push_bytes_block_line l c events line (frame_lines lines rest) pl.0.one_line pl.0.fits
    ∙ ap (continue_with (record (in_block l c) { line = line }) events (frame_lines lines rest)) (
        process_command_line_payload (in_block l c) c (trimmed line) pl.0.not_end pl.0.not_error
          (omega arith) (omega arith) usize)
    ∙ ap (λ ev. push_bytes (in_block l d) ev (frame_lines lines rest)) (append-nil events)
    ∙ push_bytes_payload l d events lines rest usize pl.1
        (omega (arith, length-append c.output (trimmed line ∷ []))) (omega arith)
    ∙ ap (λ x. push_bytes (in_block l x) events rest)
        (ground (arith, append_assoc c.output (trimmed line ∷ []) (map trimmed lines)))

abbrev pub terminator : CommandStatus → Bytes
terminator success = bytes "%end "
terminator error = bytes "%error "

tag_eq_refl : (t : CommandTag) → tag_eq t t ≡ true
unfolding tag_eq
tag_eq_refl t = ground arith

is_terminator-append :
    (prefix spec : Bytes) (tag : CommandTag)
    → parse_command_tag spec ≡ ok tag
    → is_terminator prefix tag (prefix ++ spec) ≡ true
unfolding is_terminator
is_terminator-append prefix spec tag h =
    rw (strip_prefix-append prefix spec, is_terminator) (rw (h, is_terminator) (tag_eq_refl tag))

error_is_not_end :
    (spec : Bytes) (tag : CommandTag)
    → is_terminator (bytes "%end ") tag (bytes "%error " ++ spec) ≡ false
unfolding is_terminator strip_prefix
error_is_not_end spec tag = refl

pub process_command_line-terminator :
    (p : TmuxControlParser) (c : PendingCommand) (status : CommandStatus) (spec : Bytes)
    → parse_command_tag spec ≡ ok c.tag
    → process_command_line p c (terminator status ++ spec) ≡ ok (finish_command p c status)
unfolding process_command_line
process_command_line-terminator p c success spec h =
    rw (is_terminator-append (bytes "%end ") spec c.tag h)
process_command_line-terminator p c error spec h =
    rw (error_is_not_end spec c.tag) (rw (is_terminator-append (bytes "%error ") spec c.tag h))

pub process_record_begin :
    (p : TmuxControlParser) (spec : Bytes) (tag : CommandTag)
    → parse_command_tag spec ≡ ok tag
    → process_record p (bytes "%begin " ++ spec) ≡ ok (open_block p tag, [])
unfolding process_record
process_record_begin p spec tag h =
    rw (strip_prefix-append (bytes "%begin ") spec, process_record) (rw h)
