-- ===== src/Control/Parser/Recovery.antt =====
-- Errors of the parser of src/tmux_control.rs: what an error leaves behind, and the end of input.
use lector.Prelude.{
  ℕ, ◌≡◌, refl, ap, true, ◌≢◌, inl, inr, none, List, [], ◌∷◌, ◌++◌, Bytes, arith, Bool-cases, subst,
  ◌∙◌, trim_end,
}
use lector.Control.Data.{
  ParserLimits, UnterminatedState, start_marker, string_terminator, unterminated, ControlEvent,
  ControlParseError, parser_poisoned, Result, ok, err, ParseState, start, records,
  possible_string_terminator, ended, failed, TmuxControlParser,
}
use lector.Control.Records.{Outcome, process_line}
use lector.Control.Parser.{
  with_limits, reset, push_byte, push_bytes, push, is_failed, poison, finish, finish_in,
  advance_start,
}
use lector.Control.Parser.Cases.{push_records_cases, push_byte_cases}
use lector.Control.Parser.Streaming.{SameFrame, process_line-SameFrame}
use lector.Control.Parser.Bounds.{Holds, push_induction}
use lector.Control.Parser.Session.{Session, push-Session}

-- The limits are set once.
limits-push_byte :
    (p : TmuxControlParser) (l : ParserLimits) (byte : ℕ)
    → p.limits ≡ l
    → Holds (λ q. q.limits ≡ l) (push_byte p byte)
unfolding advance_start
limits-push_byte p l byte h =
    push_byte_cases (Holds (λ q. q.limits ≡ l)) p byte (λ _. tt) (λ matched _ _. ground arith)
      (λ _.
        push_records_cases (Holds (λ q. q.limits ≡ l)) p byte (λ _. tt) (λ _ _ _. h)
          (λ _.
            line (process_line (record p { line = [] }) (trim_end b'\r' p.line))
              (process_line-SameFrame (record p { line = [] }) _))
          λ _ _. h)
      λ _ _. h
  where
    line : (r : Outcome) → SameFrame (record p { line = [] }) r → Holds (λ q. q.limits ≡ l) r
    line (err e) f = tt
    line (ok (q, pushed)) f = f.2 ∙ h

limits-push : (p : TmuxControlParser) (bs : Bytes) → (push p bs).1.limits ≡ p.limits
unfolding poison
limits-push p bs =
    push_induction (λ q. q.limits ≡ p.limits) (λ q byte. limits-push_byte q p.limits byte)
      (λ q h. h) p bs refl

abbrev FailsBehindError : Result (List ControlEvent) × TmuxControlParser → Type 0
FailsBehindError (ok events, q) = Unit
FailsBehindError (err e, q) = q.state ≡ failed

push_bytes-FailsBehindError :
    (p : TmuxControlParser) (events : List ControlEvent) (bs : Bytes)
    → FailsBehindError (push_bytes p events bs)
unfolding push_bytes
push_bytes-FailsBehindError p events [] = tt
push_bytes-FailsBehindError p events (b ∷ bs) =
    step (push_byte p b) refl (λ q ev. push_bytes-FailsBehindError q ev bs)
  where
    step :
        (r : Outcome)
        → push_byte p b ≡ r
        → ((q : TmuxControlParser) (ev : List ControlEvent) → FailsBehindError (push_bytes q ev bs))
        → FailsBehindError (push_bytes p events (b ∷ bs))
    step (err e) f ih = rw (f, push_bytes)
    step (ok (q, pushed)) f ih = rw (f, push_bytes) (ih q (events ++ pushed))

is_failed→failed : (s : ParseState) → is_failed s ≡ true → s ≡ failed
unfolding is_failed
is_failed→failed failed h = refl
is_failed→failed _ h = cc

push-FailsBehindError : (p : TmuxControlParser) (bs : Bytes) → FailsBehindError (push p bs)
unfolding push
push-FailsBehindError p bs = elim (Bool-cases (is_failed p.state)) [
  | inl dead ↦ rw dead (is_failed→failed p.state dead)
  | inr live ↦ rw live (push_bytes-FailsBehindError p [] bs)
]

push_failed :
    (q : TmuxControlParser) (bs : Bytes) → q.state ≡ failed → push q bs ≡ (err parser_poisoned, q)
unfolding push is_failed
push_failed q bs h = let dead : is_failed q.state ≡ true = rw h in rw (dead, push)

finish_failed :
    (q : TmuxControlParser)
    → q.state ≡ failed
    → finish q ≡ (
      err parser_poisoned,
      record { limits = q.limits; state = failed; line = []; pending_command = none },
    )
unfolding finish poison
finish_failed q h = ap (λ s. finish_in s q) h

-- Behind an error the parser refuses every further input as poisoned, and does not change. It refuses
-- the end of input as poisoned too, and that leaves it failed, with no line and no command and with its
-- limits. `reset` makes it the parser that was built with the same limits.
pub push_error_poisons :
    (p q : TmuxControlParser) (bs : Bytes) {e : ControlParseError}
    → push p bs ≡ (err e, q)
    → ((more : Bytes) → push q more ≡ (err parser_poisoned, q))
      × (finish q ≡ (
        err parser_poisoned,
        record { limits = q.limits; state = failed; line = []; pending_command = none },
      ))
      × (reset q ≡ with_limits p.limits)
unfolding reset with_limits
push_error_poisons p q bs h =
    let dead : q.state ≡ failed = subst FailsBehindError h (push-FailsBehindError p bs) in
    let same : q.limits ≡ p.limits = subst (λ r. r.1.limits ≡ p.limits) h (limits-push p bs) in
    (
      λ more. push_failed q more dead,
      finish_failed q dead,
      ap (λ l. record { limits = l; state = start 0; line = []; pending_command = none }) same,
    )

finish-ok :
    (s : ParseState) (p : TmuxControlParser) {last : List ControlEvent}
    → (finish_in s p).0 ≡ ok last
    → (s ≡ ended) × (last ≡ [])
unfolding finish_in
finish-ok ended p h = (refl, cc)
finish-ok _ p h = cc

-- A stream that a fresh parser takes, and whose end it accepts, is the start marker, a body and
-- the string terminator, and nothing behind it; its events are `started`, inner events and
-- `ended`, and the end gives no more.
pub finish_accepts :
    (l : ParserLimits) (bs : Bytes) {events last : List ControlEvent} {p : TmuxControlParser}
    → push (with_limits l) bs ≡ (ok events, p)
    → (finish p).0 ≡ ok last
    → Session ended bs events × (last ≡ [])
unfolding finish
finish_accepts l bs {events} {last} {p} h f =
    let done = finish-ok p.state p f in
    (subst (λ s. Session s bs events) done.0 (push-Session l bs h), done.1)

-- Every other end of input is an error that poisons the parser, and names what is unfinished:
-- the start marker, the terminator, a line, a command block or the stream.
pub finish_refuses :
    (p : TmuxControlParser)
    → p.state ≢ ended
    → p.state ≢ failed
    → (u : UnterminatedState) × (finish p ≡ (err (unterminated u), poison p))
unfolding finish
finish_refuses p ne nf = at p.state refl
  where
    at :
        (s : ParseState)
        → p.state ≡ s
        → (u : UnterminatedState) × (finish_in s p ≡ (err (unterminated u), poison p))
    at (start _) e = (start_marker, refl)
    at records e = (_, refl)
    at possible_string_terminator e = (string_terminator, refl)
    at ended e = absurd (ne e)
    at failed e = absurd (nf e)
