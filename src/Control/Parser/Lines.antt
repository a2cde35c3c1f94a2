-- ===== src/Control/Parser/Lines.antt =====
-- How a whole line goes through the byte loop of src/tmux_control.rs.
use lector.Prelude.{
  ℕ, ◌+◌, ◌≤◌, ◌<◌, ◌≡◌, refl, sym, ap, ◌∙◌, ◌≢◌, ◌⊎◌, inl, Bool, true, false, not, ◌&&◌, List, [],
  ◌∷◌, ◌++◌, append-nil, append_assoc, Bytes, arith, is_empty, is_some, All, length, length-append,
  trim_end,
}
use lector.Control.Data.{ControlEvent, Result, ok, err, records, TmuxControlParser}
use lector.Control.Records.{Outcome, process_line}
use lector.Control.Parser.{push_byte, push_byte_in, push_records, push_bytes, poison}

-- A byte that is not taken for the start of the string terminator.
abbrev pub IsOrdinary : TmuxControlParser → ℕ → Type 0
IsOrdinary p b = ((is_empty p.line && not (is_some p.pending_command)) ≡ false) ⊎ (b ≢ 0x1b)

push_byte_records :
    (p : TmuxControlParser) (b : ℕ) → p.state ≡ records → push_byte p b ≡ push_records p b
unfolding push_byte push_byte_in
push_byte_records p b e = ap (λ s. push_byte_in s p b) e

push_records_ordinary :
    (p : TmuxControlParser) (b : ℕ)
    → IsOrdinary p b
    → b ≢ b'\n'
    → length p.line < p.limits.max_line_bytes
    → push_records p b ≡ ok (record p { line = p.line ++ b ∷ [] }, [])
unfolding push_records
push_records_ordinary p b o n h = ground arith

abbrev pub NoNewline : Bytes → Type 0
NoNewline = All (λ b. b ≢ b'\n')

line_not_empty : (l : Bytes) (b : ℕ) (x : Bool) → (is_empty (l ++ b ∷ []) && x) ≡ false
line_not_empty [] b x = refl
line_not_empty (y ∷ l) b x = refl

-- What the loop does with the outcome of a byte.
abbrev pub continue_with :
    TmuxControlParser
    → List ControlEvent
    → Bytes
    → Outcome
    → Result (List ControlEvent) × TmuxControlParser
continue_with p events rest (err e) = (err e, poison p)
continue_with p events rest (ok (q, pushed)) = push_bytes q (events ++ pushed) rest

pub push_bytes-cons :
    (p : TmuxControlParser) (events : List ControlEvent) (b : ℕ) (rest : Bytes)
    → push_bytes p events (b ∷ rest) ≡ continue_with p events rest (push_byte p b)
unfolding push_bytes
push_bytes-cons p events b rest = at (push_byte p b) refl
  where
    at :
        (r : Outcome)
        → push_byte p b ≡ r
        → push_bytes p events (b ∷ rest) ≡ continue_with p events rest (push_byte p b)
    at (err e) h = rw (h, push_bytes)
    at (ok (q, pushed)) h = rw (h, push_bytes)

feed_one :
    (p : TmuxControlParser) (events : List ControlEvent) (b : ℕ) (rest : Bytes)
    → p.state ≡ records
    → IsOrdinary p b
    → b ≢ b'\n'
    → length p.line < p.limits.max_line_bytes
    → push_bytes p events (b ∷ rest) ≡ push_bytes (record p { line = p.line ++ b ∷ [] }) events rest
feed_one p events b rest s o n h =
    push_bytes-cons p events b rest
    ∙ ap (continue_with p events rest) (push_byte_records p b s ∙ push_records_ordinary p b o n h)
    ∙ ap (λ ev. push_bytes (record p { line = p.line ++ b ∷ [] }) ev rest) (append-nil events)

-- Bytes that end no line are appended to the line that is kept.
feed :
    (p : TmuxControlParser) (events : List ControlEvent) (bs rest : Bytes)
    → p.state ≡ records
    → ((is_empty p.line && not (is_some p.pending_command)) ≡ false)
    → NoNewline bs
    → length p.line + length bs ≤ p.limits.max_line_bytes
    → push_bytes p events (bs ++ rest) ≡ push_bytes (record p { line = p.line ++ bs }) events rest
feed p events [] rest s o n h =
    ap (λ l. push_bytes (record p { line = l }) events rest) (sym (append-nil p.line))
feed p events (b ∷ bs) rest s o n h =
    feed_one p events b (bs ++ rest) s (inl o) n.0 (omega arith)
    ∙ feed (record p { line = p.line ++ b ∷ [] }) events bs rest s (line_not_empty p.line b _) n.1
        (omega (arith, length-append p.line (b ∷ [])))
    ∙ ap (λ l. push_bytes (record p { line = l }) events rest) (append_assoc p.line (b ∷ []) bs)

push_records_newline :
    (p : TmuxControlParser)
    → push_records p b'\n' ≡ process_line (record p { line = [] }) (trim_end b'\r' p.line)
unfolding push_records
push_records_newline p = ground arith

-- A whole line, from an empty line on.
pub push_bytes_line :
    (p : TmuxControlParser) (events : List ControlEvent) (b : ℕ) (bs rest : Bytes)
    → p.state ≡ records
    → p.line ≡ []
    → (is_some p.pending_command ≡ true) ⊎ (b ≢ 0x1b)
    → NoNewline (b ∷ bs)
    → length (b ∷ bs) ≤ p.limits.max_line_bytes
    → push_bytes p events (b ∷ bs ++ b'\n' ∷ rest)
      ≡ continue_with
          (record p { line = b ∷ bs })
          events
          rest
          (process_line (record p { line = [] }) (trim_end b'\r' (b ∷ bs)))
push_bytes_line p events b bs rest s e o n h =
    feed_one p events b (bs ++ b'\n' ∷ rest) s (ground arith) n.0 (ground arith)
    ∙ feed (record p { line = p.line ++ b ∷ [] }) events bs (b'\n' ∷ rest) s
        (line_not_empty p.line b _) n.1 (ground (arith, length-append p.line (b ∷ [])))
    ∙ ap (λ l. push_bytes (record p { line = l }) events (b'\n' ∷ rest)) (rw e)
    ∙ push_bytes-cons (record p { line = b ∷ bs }) events b'\n' rest
    ∙ ap (continue_with (record p { line = b ∷ bs }) events rest) (
        push_byte_records (record p { line = b ∷ bs }) b'\n' s
        ∙ push_records_newline (record p { line = b ∷ bs }))

-- A newline, when it cannot start the string terminator.
pub push_bytes_newline :
    (p : TmuxControlParser) (events : List ControlEvent) (rest : Bytes)
    → p.state ≡ records
    → push_bytes p events (b'\n' ∷ rest)
      ≡ continue_with p events rest (process_line (record p { line = [] }) (trim_end b'\r' p.line))
push_bytes_newline p events rest s =
    push_bytes-cons p events b'\n' rest
    ∙ ap (continue_with p events rest) (push_byte_records p b'\n' s ∙ push_records_newline p)
