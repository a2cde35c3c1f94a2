-- ===== src/Control/Parser/Streaming.antt =====
-- `push` of src/tmux_control.rs is a stream function: how the input is cut does not matter.
use mathlib.Core.List.{append_assoc, append-nil}
use lector.Prelude.{
  ℕ, ◌+◌, ◌≡◌, refl, sym, ap, ◌∙◌, inl, inr, false, List, [], ◌∷◌, ◌++◌, Bytes, arith, Bool-cases,
}
use lector.Control.Data.{ControlEvent, Result, ok, err, TmuxControlParser}
use lector.Control.Records.{Outcome, process_line, finish_command}
use lector.Control.Records.Cases.{
  process_record_cases, push_payload_cases, process_command_line_cases, process_line_cases,
}
use lector.Control.Parser.{push_byte, advance_start, push_bytes, push, is_failed}
use lector.Control.Parser.Cases.{push_records_cases, push_byte_cases}

-- `process_line` leaves the framing state and the retained line alone.
abbrev pub SameFrame : TmuxControlParser → Outcome → Type 0
SameFrame p (ok (q, _)) = (q.state ≡ p.state) × (q.line ≡ p.line) × (q.limits ≡ p.limits)
SameFrame p (err _) = Unit

pub process_line-SameFrame :
    (p : TmuxControlParser) (line : Bytes) → SameFrame p (process_line p line)
unfolding finish_command
process_line-SameFrame p line =
    process_line_cases (SameFrame p) p line
      (λ pending _.
        process_command_line_cases (SameFrame p) p pending line (λ _. (refl, refl, refl))
          (λ _. (refl, refl, refl))
          λ _ _.
            push_payload_cases (SameFrame p) p pending line (λ _. tt) (λ _ _ _. (refl, refl, refl)))
      λ _.
        process_record_cases (SameFrame p) p line (λ _. tt) (λ _ _ _ _. (refl, refl, refl))
          (λ _ _. (refl, refl, refl))

-- A successful call leaves the parser live.
abbrev pub StaysLive : Outcome → Type 0
StaysLive (ok (p, _)) = is_failed p.state ≡ false
StaysLive (err _) = Unit

SameFrame-StaysLive :
    (p : TmuxControlParser) (r : Outcome) → is_failed p.state ≡ false → SameFrame p r → StaysLive r
SameFrame-StaysLive p (ok (q, events)) h f = rw f.0 h
SameFrame-StaysLive p (err e) h f = tt

advance_start-StaysLive :
    (p : TmuxControlParser) (matched : ℕ) → StaysLive (ok (advance_start p matched))
unfolding advance_start is_failed
advance_start-StaysLive p matched = ground arith

pub push_byte-StaysLive : (p : TmuxControlParser) (byte : ℕ) → StaysLive (push_byte p byte)
push_byte-StaysLive p byte =
    push_byte_cases StaysLive p byte (λ _. tt)
      (λ matched _ _. advance_start-StaysLive p (matched + 1))
      (λ e.
        let live : is_failed p.state ≡ false = unfold is_failed in rw e in
        push_records_cases StaysLive p byte (λ _. tt) (λ _ _ _. unfold is_failed in refl)
          (λ _. SameFrame-StaysLive (record p { line = [] }) _ live (process_line-SameFrame _ _))
          (λ _ _. live))
      (λ _ _. unfold is_failed in refl)

-- The result of `push`, with events that were collected before it.
abbrev pub after_events :
    List ControlEvent
    → Result (List ControlEvent) × TmuxControlParser
    → Result (List ControlEvent) × TmuxControlParser
after_events events (ok more, p) = (ok (events ++ more), p)
after_events events (err e, p) = (err e, p)

-- A second call of `push` behind a first one; the caller stops at an error.
abbrev pub push_next :
    Result (List ControlEvent) × TmuxControlParser
    → Bytes
    → Result (List ControlEvent) × TmuxControlParser
push_next (ok events, p) bs = after_events events (push p bs)
push_next (err e, p) bs = (err e, p)

after_events_assoc :
    (xs ys : List ControlEvent) (r : Result (List ControlEvent) × TmuxControlParser)
    → after_events xs (after_events ys r) ≡ after_events (xs ++ ys) r
after_events_assoc xs ys (ok more, p) = rw append_assoc
after_events_assoc xs ys (err e, p) = refl

pub push_bytes-after_events :
    (p : TmuxControlParser) (events : List ControlEvent) (bs : Bytes)
    → push_bytes p events bs ≡ after_events events (push_bytes p [] bs)
unfolding push_bytes
push_bytes-after_events p events [] = rw append-nil
push_bytes-after_events p events (byte ∷ bs) =
    step (push_byte p byte) refl (λ q xs. push_bytes-after_events q xs bs)
  where
    step :
        (r : Outcome)
        → push_byte p byte ≡ r
        → ((q : TmuxControlParser) (xs : List ControlEvent)
            → push_bytes q xs bs ≡ after_events xs (push_bytes q [] bs))
        → push_bytes p events (byte ∷ bs) ≡ after_events events (push_bytes p [] (byte ∷ bs))
    step (err e) h ih = rw (h, push_bytes)
    step (ok (p', pushed)) h ih =
        rw (h, push_bytes)
          (ih p' (events ++ pushed)
            ∙ sym (after_events_assoc events pushed (push_bytes p' [] bs))
            ∙ ap (after_events events) (sym (ih p' pushed)))

after_events-nil : (r : Result (List ControlEvent) × TmuxControlParser) → after_events [] r ≡ r
after_events-nil (ok more, p) = refl
after_events-nil (err e, p) = refl

after_events-push_next :
    (events : List ControlEvent) (r : Result (List ControlEvent) × TmuxControlParser) (ys : Bytes)
    → after_events events (push_next r ys) ≡ push_next (after_events events r) ys
after_events-push_next events (ok more, p) ys = after_events_assoc events more (push p ys)
after_events-push_next events (err e, p) ys = refl

push_live :
    (p : TmuxControlParser) (bs : Bytes)
    → is_failed p.state ≡ false
    → push p bs ≡ push_bytes p [] bs
unfolding push
push_live p bs h = rw h

push_bytes-append :
    (p : TmuxControlParser) (xs ys : Bytes)
    → is_failed p.state ≡ false
    → push_bytes p [] (xs ++ ys) ≡ push_next (push_bytes p [] xs) ys
unfolding push_bytes
push_bytes-append p [] ys h = sym (after_events-nil (push p ys) ∙ push_live p ys h)
push_bytes-append p (x ∷ xs) ys h =
    step (push_byte p x) refl (push_byte-StaysLive p x) (λ q. push_bytes-append q xs ys)
  where
    step :
        (r : Outcome)
        → push_byte p x ≡ r
        → StaysLive r
        → ((q : TmuxControlParser)
            → is_failed q.state ≡ false
            → push_bytes q [] (xs ++ ys) ≡ push_next (push_bytes q [] xs) ys)
        → push_bytes p [] (x ∷ xs ++ ys) ≡ push_next (push_bytes p [] (x ∷ xs)) ys
    step (err e) f l ih = rw (f, push_bytes)
    step (ok (p', pushed)) f l ih =
        rw (f, push_bytes)
          (push_bytes-after_events p' pushed (xs ++ ys)
            ∙ ap (after_events pushed) (ih p' l)
            ∙ after_events-push_next pushed (push_bytes p' [] xs) ys
            ∙ ap (λ r. push_next r ys) (sym (push_bytes-after_events p' pushed xs)))

-- Pushing `xs ++ ys` gives what pushing `xs` and then, unless that failed, `ys` gives: the same
-- events in the same order, the same error, and the same state of the parser. Where one of the two
-- fails, the error alone is compared, and not the events that the first one gave before.
pub push-append :
    (p : TmuxControlParser) (xs ys : Bytes) → push p (xs ++ ys) ≡ push_next (push p xs) ys
push-append p xs ys = elim (Bool-cases (is_failed p.state)) [
  | inl dead ↦ unfold push in rw (dead, push)
  | inr live ↦
      push_live p (xs ++ ys) live
      ∙ push_bytes-append p xs ys live
      ∙ ap (λ r. push_next r ys) (sym (push_live p xs live))
]
