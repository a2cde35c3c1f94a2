-- ===== src/Control/Parser/Blocks.antt =====
-- Command blocks of the tmux control protocol (src/tmux_control.rs), from the opening line to the
-- closing one.
use lector.Prelude.{◌≤◌, ◌≡◌, List, ◌∷◌, ◌++◌, map, Bytes, bytes, All, length}
use lector.Control.Data.{ParserLimits, CommandStatus, ControlEvent, command, ok, CommandTag}
use lector.Control.Fields.{parse_command_tag}
use lector.Control.Parser.Bounds.{total}
use lector.Control.Parser.Lines.{NoNewline}
use lector.Control.Parser.Framing.{frame_lines, trimmed, IsPayload, terminator}

-- A block as tmux writes it: the opening line, the lines of output, and the closing line, whose
-- tag is that of the opening one. Each line may end in carriage returns.
pub record Block (l : ParserLimits) : Type 0 where
  pub tag : CommandTag
  pub status : CommandStatus
  pub opening : Bytes
  pub opening_tag : Bytes
  pub lines : List Bytes
  pub closing : Bytes
  pub closing_tag : Bytes

abbrev pub wire : {l : ParserLimits} → Block l → Bytes → Bytes
wire b rest = b.opening ++ b'\n' ∷ frame_lines b.lines (b.closing ++ b'\n' ∷ rest)

abbrev pub reply : {l : ParserLimits} → Block l → ControlEvent
reply b = command b.tag.timestamp b.tag.number b.tag.flags b.status (map trimmed b.lines)

pub record IsWellFormed {l : ParserLimits} (b : Block l) : Type 0 where
  pub opening_line : NoNewline b.opening
  pub opening_fits : length b.opening ≤ l.max_line_bytes
  pub opens : trimmed b.opening ≡ bytes "%begin " ++ b.opening_tag
  pub opens_tag : parse_command_tag b.opening_tag ≡ ok b.tag
  pub payload : All (IsPayload l b.tag) b.lines
  pub lines_fit : length b.lines ≤ l.max_command_output_lines
  pub bytes_fit : total (map trimmed b.lines) ≤ l.max_command_output_bytes
  pub closing_line : NoNewline b.closing
  pub closing_fits : length b.closing ≤ l.max_line_bytes
  pub closes : trimmed b.closing ≡ terminator b.status ++ b.closing_tag
  pub closes_tag : parse_command_tag b.closing_tag ≡ ok b.tag
