-- ===== src/Control/Parser/Session.antt =====
-- The life of one control stream in src/tmux_control.rs: which bytes a parser has taken and which
-- events it has given, in each of its states.
use lector.Prelude.{
  ℕ, suc, ◌+◌, ◌≡◌, refl, sym, ap, ◌∙◌, inl, inr, some, List, [], ◌∷◌, ◌++◌, append-nil,
  append_assoc, Bytes, arith, ◌==◌, All, All-append, subst, Bool-cases, get_elem?, take,
  get_elem?-take, trim_end,
}
use lector.Control.Data.{
  ParserLimits, ControlEvent, started, ended as ended_event, Result, ok, err, ParseState, start,
  records, possible_string_terminator, ended, failed, TmuxControlParser,
}
use lector.Control.Records.{Outcome, process_line}
use lector.Control.Parser.{
  control_start, with_limits, push_byte, push_records, advance_start, push_bytes, push,
}
use lector.Control.Parser.Cases.{push_records_cases, push_byte_cases}
use lector.Control.Parser.Streaming.{SameFrame, process_line-SameFrame}
use lector.Control.Parser.Events.{IsInner, PushesInner, process_line-PushesInner}

-- What a parser has taken and given when it is in a state: the start marker up to a place and no
-- event; the marker and a body, and `started` before inner events; and the string terminator
-- behind it, with `ended` as the last event.
abbrev pub Session : ParseState → Bytes → List ControlEvent → Type 0
Session (start matched) bs events = (events ≡ []) × (bs ≡ take matched control_start)
Session records bs events =
    (body : Bytes) × (middle : List ControlEvent) × (bs ≡ control_start ++ body)
    × (events ≡ started ∷ middle)
    × All IsInner middle
Session possible_string_terminator bs events =
    (body : Bytes) × (middle : List ControlEvent) × (bs ≡ control_start ++ (body ++ 0x1b ∷ []))
    × (events ≡ started ∷ middle)
    × All IsInner middle
Session ended bs events =
    (body : Bytes) × (middle : List ControlEvent) × (bs
      ≡ control_start ++ (body ++ 0x1b ∷ b'\\' ∷ []))
    × (events ≡ started ∷ (middle ++ ended_event ∷ []))
    × All IsInner middle
Session failed bs events = ⊥

-- A body and inner events that grow.
abbrev InRecords : Bytes → List ControlEvent → Type 0
InRecords bs events = Session records bs events

grow :
    (bs : Bytes) (events pushed : List ControlEvent) (b : ℕ)
    → InRecords bs events
    → All IsInner pushed
    → InRecords (bs ++ b ∷ []) (events ++ pushed)
grow bs events pushed b (body, middle, e, f, inner) h =
    (body ++ b ∷ [], middle ++ pushed, rw e, rw f, All-append IsInner middle pushed inner h)

-- What the session is after a byte.
abbrev SessionAfter : Bytes → List ControlEvent → Outcome → Type 0
SessionAfter bs events (ok (p, pushed)) = Session p.state bs (events ++ pushed)
SessionAfter bs events (err _) = Unit

advance_start-Session :
    (p : TmuxControlParser) (matched b : ℕ) (bs : Bytes) (events : List ControlEvent)
    → get_elem? control_start matched ≡ some b
    → Session (start matched) bs events
    → SessionAfter (bs ++ b ∷ []) events (ok (advance_start p (matched + 1)))
unfolding advance_start
advance_start-Session p matched b bs events g (e, f) =
    let next : bs ++ b ∷ [] ≡ take (matched + 1) control_start =
      ap (λ xs. xs ++ b ∷ []) f
      ∙ get_elem?-take control_start matched b g
      ∙ ap (λ (n : ℕ). take n control_start) {x = suc matched} (omega arith) in
    elim (Bool-cases (matched + 1 == 7)) [
      | inl full ↦
          let last : matched + 1 ≡ 7 = ground arith in
          rw full (
            [],
            [],
            next ∙ ap (λ (n : ℕ). take n control_start) last,
            ap (λ xs. xs ++ started ∷ []) e,
            tt,
          )
      | inr more ↦ rw more (ap (λ xs. xs ++ []) e, next)
    ]

push_records-Session :
    (p : TmuxControlParser) (b : ℕ) (bs : Bytes) (events : List ControlEvent)
    → p.state ≡ records
    → Session records bs events
    → SessionAfter (bs ++ b ∷ []) events (push_records p b)
push_records-Session p b bs events s h =
    push_records_cases (SessionAfter (bs ++ b ∷ []) events) p b (λ _. tt)
      (λ _ esc _.
        let (body, middle, e, f, inner) = h in
        (body, middle, rw (e, esc), rw (f, append-nil), inner))
      (λ _.
        line (process_line (record p { line = [] }) (trim_end b'\r' p.line))
          (process_line-SameFrame (record p { line = [] }) _)
          (process_line-PushesInner (record p { line = [] }) _))
      λ _ _. subst (λ t. Session t (bs ++ b ∷ []) (events ++ [])) (sym s) (grow bs events [] b h tt)
  where
    line :
        (r : Outcome)
        → SameFrame (record p { line = [] }) r
        → PushesInner r
        → SessionAfter (bs ++ b ∷ []) events r
    line (err e) f i = tt
    line (ok (q, pushed)) f i =
        subst (λ t. Session t (bs ++ b ∷ []) (events ++ pushed)) (sym (f.0 ∙ s))
          (grow bs events pushed b h i)

push_byte-Session :
    (p : TmuxControlParser) (b : ℕ) (bs : Bytes) (events : List ControlEvent)
    → Session p.state bs events
    → SessionAfter (bs ++ b ∷ []) events (push_byte p b)
push_byte-Session p b bs events h =
    push_byte_cases (SessionAfter (bs ++ b ∷ []) events) p b (λ _. tt)
      (λ matched e g.
        advance_start-Session p matched b bs events g (subst (λ t. Session t bs events) e h))
      (λ e. push_records-Session p b bs events e (subst (λ t. Session t bs events) e h))
      λ e slash. terminated slash (subst (λ t. Session t bs events) e h)
  where
    terminated :
        b ≡ b'\\'
        → Session possible_string_terminator bs events
        → Session ended (bs ++ b ∷ []) (events ++ ended_event ∷ [])
    terminated slash (body, middle, e, f, inner) =
        (body, middle, rw (e, slash) (rw (append_assoc body (0x1b ∷ []) (b'\\' ∷ []))), rw f, inner)

abbrev SessionResult : Bytes → Result (List ControlEvent) × TmuxControlParser → Type 0
SessionResult taken (ok events, p) = Session p.state taken events
SessionResult taken (err _, p) = Unit

push_bytes-Session :
    (p : TmuxControlParser) (taken : Bytes) (events : List ControlEvent) (bs : Bytes)
    → Session p.state taken events
    → SessionResult (taken ++ bs) (push_bytes p events bs)
unfolding push_bytes
push_bytes-Session p taken events [] h = rw (append-nil taken) h
push_bytes-Session p taken events (b ∷ bs) h =
    step (push_byte p b) refl (push_byte-Session p b taken events h)
      (λ q ev. push_bytes-Session q (taken ++ b ∷ []) ev bs)
  where
    step :
        (r : Outcome)
        → push_byte p b ≡ r
        → SessionAfter (taken ++ b ∷ []) events r
        → ((q : TmuxControlParser) (ev : List ControlEvent)
            → Session q.state (taken ++ b ∷ []) ev
            → SessionResult ((taken ++ b ∷ []) ++ bs) (push_bytes q ev bs))
        → SessionResult (taken ++ b ∷ bs) (push_bytes p events (b ∷ bs))
    step (err e) f s ih = rw (f, push_bytes) tt
    step (ok (q, pushed)) f s ih =
        rw (f, push_bytes)
          (subst (λ xs. SessionResult xs (push_bytes q (events ++ pushed) bs))
            (append_assoc taken (b ∷ []) bs) (ih q (events ++ pushed) s))

-- Whatever bytes a fresh parser has taken without an error, they are a prefix of the start
-- marker and no event was given, or they begin with the whole marker and the events begin with
-- `started`; in the ended state the bytes end in the string terminator and `ended` is the last
-- event; no event between is `started` or `ended`; and the parser has not failed.
pub push-Session :
    (l : ParserLimits) (bs : Bytes) {events : List ControlEvent} {p : TmuxControlParser}
    → push (with_limits l) bs ≡ (ok events, p)
    → Session p.state bs events
unfolding push with_limits
push-Session l bs h =
    subst (SessionResult bs) h (push_bytes-Session (with_limits l) [] [] bs (refl, refl))
