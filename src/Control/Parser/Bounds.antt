-- ===== src/Control/Parser/Bounds.antt =====
-- The memory that the parser of src/tmux_control.rs retains is bounded by its limits, and the
-- table lookup of the start marker stays in range.
use lector.Prelude.{
  ℕ, ◌+◌, ◌≤◌, ◌<◌, ◌≡◌, refl, inl, inr, Option, none, some, List, [], ◌∷◌, ◌++◌, Bytes, arith,
  ◌==◌, Bool-cases, subst, All, All-append, length, length-append, get_elem?, get_elem?-lt,
  trim_end,
}
use lector.Control.Data.{
  ParserLimits, ControlEvent, ok, err, ParseState, start, PendingCommand, TmuxControlParser,
}
use lector.Control.Records.{Outcome, process_line, finish_command}
use lector.Control.Records.Cases.{
  process_record_cases, push_payload_cases, process_command_line_cases, process_line_cases,
}
use lector.Control.Parser.{
  control_start, with_limits, push_byte, advance_start, push_bytes, push, poison,
}
use lector.Control.Parser.Cases.{push_records_cases, push_byte_cases}

abbrev pub Holds {ℓ} : (TmuxControlParser → Type ℓ) → Outcome → Type ℓ
Holds P (ok (p, _)) = P p
Holds P (err _) = Unit

-- What every byte and every error keeps, `push` keeps.
module _ {ℓ} (P : TmuxControlParser → Type ℓ)
    (keep : (p : TmuxControlParser) (byte : ℕ) → P p → Holds P (push_byte p byte))
    (poisoned : (p : TmuxControlParser) → P p → P (poison p)) where
  push_bytes_induction :
      (p : TmuxControlParser) (events : List ControlEvent) (bs : Bytes)
      → P p
      → P (push_bytes p events bs).1
  unfolding push_bytes
  push_bytes_induction p events [] h = h
  push_bytes_induction p events (byte ∷ bs) h =
      step (push_byte p byte) refl (keep p byte h) (λ q xs. push_bytes_induction q xs bs)
    where
      step :
          (r : Outcome)
          → push_byte p byte ≡ r
          → Holds P r
          → ((q : TmuxControlParser) (xs : List ControlEvent) → P q → P (push_bytes q xs bs).1)
          → P (push_bytes p events (byte ∷ bs)).1
      step (err e) f l ih = rw (f, push_bytes) (poisoned p h)
      step (ok (p', pushed)) f l ih = rw (f, push_bytes) (ih p' (events ++ pushed) l)

  pub push_induction : (p : TmuxControlParser) (bs : Bytes) → P p → P (push p bs).1
  unfolding push
  push_induction p bs h = ground (arith, push_bytes_induction p [] bs h)

abbrev pub total : List Bytes → ℕ
total [] = 0
total (line ∷ lines) = length line + total lines

total-append : (xs : List Bytes) (line : Bytes) → total (xs ++ line ∷ []) ≡ total xs + length line
total-append [] line = omega arith
total-append (x ∷ xs) line = omega (arith, total-append xs line)

-- The output of an open block: its lines, their number, and the running count of their bytes.
abbrev pub BlockBounded : ParserLimits → Option PendingCommand → Type 0
BlockBounded l none = Unit
BlockBounded l (some c) =
    (length c.output ≤ l.max_command_output_lines)
    × (c.output_bytes ≤ l.max_command_output_bytes)
    × (c.output_bytes ≡ total c.output)
    × All (λ line. length line ≤ l.max_line_bytes) c.output

abbrev pub StateInRange : ParseState → Type 0
StateInRange (start matched) = matched < length control_start
StateInRange _ = Unit

pub record IsBounded (p : TmuxControlParser) : Type 0 where
  pub line_fits : length p.line ≤ p.limits.max_line_bytes
  pub block_fits : BlockBounded p.limits p.pending_command
  pub marker_in_range : StateInRange p.state

length-trim_end-le : (c : ℕ) (bs : Bytes) → length (trim_end c bs) ≤ length bs
unfolding trim_end
length-trim_end-le c [] = omega arith
length-trim_end-le c (b ∷ bs) = ground (arith, length-trim_end-le c bs)

process_line-IsBounded :
    (p : TmuxControlParser) (line : Bytes)
    → length line ≤ p.limits.max_line_bytes
    → IsBounded p
    → Holds IsBounded (process_line p line)
unfolding finish_command
process_line-IsBounded p line fits h =
    process_line_cases (Holds IsBounded) p line
      (λ pending e.
        let b : BlockBounded p.limits (some pending) =
          subst (BlockBounded p.limits) e h.block_fits in
        process_command_line_cases (Holds IsBounded) p pending line
          (λ _. record {
            line_fits = h.line_fits;
            block_fits = tt;
            marker_in_range = h.marker_in_range;
          })
          (λ _. record {
            line_fits = h.line_fits;
            block_fits = tt;
            marker_in_range = h.marker_in_range;
          })
          λ _ _.
            push_payload_cases (Holds IsBounded) p pending line (λ _. tt)
              λ room small _. record {
                line_fits = h.line_fits;
                block_fits = (
                  omega (arith, length-append pending.output (line ∷ [])),
                  small,
                  omega (arith, total-append pending.output line),
                  All-append _ pending.output (line ∷ []) b.3 (fits, tt),
                );
                marker_in_range = h.marker_in_range;
              })
      λ _.
        process_record_cases (Holds IsBounded) p line (λ _. tt)
          (λ _ _ _ _. record {
            line_fits = h.line_fits;
            block_fits = (omega arith, omega arith, refl, tt);
            marker_in_range = h.marker_in_range;
          })
          λ _ _. h

-- The index into the marker is in range for every parser within its bounds.
get_elem?-control_start :
    (p : TmuxControlParser) (matched : ℕ)
    → IsBounded p
    → p.state ≡ start matched
    → (expected : ℕ) × (get_elem? control_start matched ≡ some expected)
get_elem?-control_start p matched h e =
    get_elem?-lt control_start matched (subst StateInRange e h.marker_in_range)

advance_start-IsBounded :
    (p : TmuxControlParser) (matched : ℕ)
    → matched < length control_start
    → IsBounded p
    → IsBounded (advance_start p (matched + 1)).0
unfolding advance_start
advance_start-IsBounded p matched m h = elim (Bool-cases (matched + 1 == 7)) [
  | inl e ↦
      rw e (record { line_fits = h.line_fits; block_fits = h.block_fits; marker_in_range = tt })
  | inr e ↦ rw e (record {
    line_fits = h.line_fits;
    block_fits = h.block_fits;
    marker_in_range = ground arith;
  })
]

push_byte-IsBounded :
    (p : TmuxControlParser) (byte : ℕ) → IsBounded p → Holds IsBounded (push_byte p byte)
push_byte-IsBounded p byte h =
    push_byte_cases (Holds IsBounded) p byte (λ _. tt)
      (λ matched e _. advance_start-IsBounded p matched (subst StateInRange e h.marker_in_range) h)
      (λ e.
        push_records_cases (Holds IsBounded) p byte (λ _. tt)
          (λ _ _ _. record {
            line_fits = h.line_fits;
            block_fits = h.block_fits;
            marker_in_range = tt;
          })
          (λ _.
            process_line-IsBounded (record p { line = [] }) (trim_end b'\r' p.line)
              (omega (arith, length-trim_end-le b'\r' p.line))
              (record {
                line_fits = omega arith;
                block_fits = h.block_fits;
                marker_in_range = h.marker_in_range;
              }))
          λ _ room. record {
            line_fits = omega (arith, length-append p.line (byte ∷ []));
            block_fits = h.block_fits;
            marker_in_range = h.marker_in_range;
          })
      λ _ _. record { line_fits = h.line_fits; block_fits = h.block_fits; marker_in_range = tt }

-- However the bytes come, and also behind an error, the parser keeps its line, its number of
-- output lines and its count of output bytes within its limits; the count is the length of the
-- output kept; each line kept fits a line; and the position in the start marker is within it.
pub push-IsBounded : (p : TmuxControlParser) (bs : Bytes) → IsBounded p → IsBounded (push p bs).1
push-IsBounded p bs h =
    push_induction IsBounded push_byte-IsBounded
      (λ q k.
        unfold poison in record { line_fits = omega arith; block_fits = tt; marker_in_range = tt })
      p bs h

pub with_limits-IsBounded : (l : ParserLimits) → IsBounded (with_limits l)
unfolding with_limits
with_limits-IsBounded l = record {
  line_fits = omega arith;
  block_fits = tt;
  marker_in_range = omega arith;
}
