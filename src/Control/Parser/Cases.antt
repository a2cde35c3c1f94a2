-- ===== src/Control/Parser/Cases.antt =====
-- The branches of the byte loop of src/tmux_control.rs, as rules on outcomes.
use lector.Prelude.{
  ℕ, ◌+◌, ◌≡◌, refl, ◌≢◌, inl, inr, not, ◌&&◌, none, some, [], ◌∷◌, ◌++◌, arith, ◌==◌, length,
  get_elem?, is_empty, is_some, trim_end, Bool-cases, Option-cases,
}
use lector.Control.Data.{
  ended as ended_event, ControlParseError, ok, err, ParseState, start, records,
  possible_string_terminator, ended, failed, TmuxControlParser,
}
use lector.Control.Records.{Outcome, process_line}
use lector.Control.Parser.{
  control_start, advance_start, push_start, push_records, push_byte_in, push_byte,
}

module _ {ℓ} (P : Outcome → Type ℓ) (p : TmuxControlParser) (byte : ℕ) where
  pub push_records_cases :
      ((e : ControlParseError) → P (err e))
      → (p.line ≡ []
          → byte ≡ 0x1b
          → p.pending_command ≡ none
          → P (ok (record p { state = possible_string_terminator }, [])))
      → (byte ≡ b'\n' → P (process_line (record p { line = [] }) (trim_end b'\r' p.line)))
      → (byte ≢ b'\n'
          → length p.line ≢ p.limits.max_line_bytes
          → P (ok (record p { line = p.line ++ byte ∷ [] }, [])))
      → P (push_records p byte)
  unfolding push_records
  push_records_cases pe pterminator pline pbyte =
      elim (Bool-cases (is_empty p.line && byte == 0x1b && not (is_some p.pending_command))) [
        | inl e ↦ rw e (pterminator (ground arith) (ground arith) (ground arith))
        | inr e ↦ rw e (elim (Bool-cases (byte == b'\n')) [
          | inl f ↦ rw f (pline (ground arith))
          | inr f ↦ rw f (elim (Bool-cases (length p.line == p.limits.max_line_bytes)) [
            | inl g ↦ rw g (pe _)
            | inr g ↦ rw g (pbyte (ground arith) (ground arith))
          ])
        ])
      ]

  pub push_start_cases :
      (matched : ℕ)
      → ((e : ControlParseError) → P (err e))
      → (get_elem? control_start matched ≡ some byte → P (ok (advance_start p (matched + 1))))
      → P (push_start p matched byte)
  unfolding push_start
  push_start_cases matched pe padvance = elim (Option-cases (get_elem? control_start matched)) [
    | inl e ↦ rw (e, push_start) (pe _)
    | inr (expected, e) ↦
        rw (e, push_start)
          (elim (Bool-cases (byte == expected)) [
            | inl f ↦ rw f (padvance (let g : byte ≡ expected = ground arith in rw g e))
            | inr f ↦ rw f (pe _)
          ])
  ]

  -- The state that the parser is in decides the branch.
  pub push_byte_cases :
      ((e : ControlParseError) → P (err e))
      → ((matched : ℕ)
          → p.state ≡ start matched
          → get_elem? control_start matched ≡ some byte
          → P (ok (advance_start p (matched + 1))))
      → (p.state ≡ records → P (push_records p byte))
      → (p.state ≡ possible_string_terminator
          → byte ≡ b'\\'
          → P (ok (record p { state = ended }, ended_event ∷ [])))
      → P (push_byte p byte)
  unfolding push_byte
  push_byte_cases pe pstart precords pterminator = at p.state refl
    where
      at : (s : ParseState) → p.state ≡ s → P (push_byte_in s p byte)
      at (start matched) e = push_start_cases matched pe (pstart matched e)
      at records e = precords e
      at possible_string_terminator e = elim (Bool-cases (byte == b'\\')) [
        | inl f ↦ rw f (pterminator e (ground arith))
        | inr f ↦ rw f (pe _)
      ]
      at ended e = pe _
      at failed e = pe _
