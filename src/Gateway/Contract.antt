-- ===== src/Gateway/Contract.antt =====
-- The rounds of `push` in src/tmux_gateway.rs with an active connection, against the state machine.
use lector.Prelude.{
  ℕ, ◌≡◌, refl, sym, subst, inl, inr, true, false, not, ◌&&◌, ◌||◌, some, List, [], ◌∷◌, ◌++◌,
  Bytes, ◌==◌, any, and_true, Bool-cases,
}
use lector.Control.Data.{ControlEvent, ControlParseError, Result, TmuxControlParser}
use lector.Control.Data.{ok as parsed, err as refused}
use lector.Control.Parser
use lector.Gateway.Router.{
  GatewayEvent, connection_ended, connection_failed, missing_exit, missing_terminator, protocol,
  GatewayLifecycleState, direct, in_control, awaiting_terminator, in_recovery, state_of,
  ActiveControl, TmuxGatewayRouter,
}
use lector.Gateway.Iteration.{
  Loop, release, recover, first_reveals_direct, is_ended, is_exit, control_events, control_failed,
  control_parsed, after_parse, advance_control, control_round,
}
use lector.Gateway.Lifecycle.{
  running, Follows, ends, stops, unterminated, reveals, breaks, recovers, Trace, Trace-append,
  Trace-snoc, control_events-Trace, Connected, IsRouted, IsOnPath, RoundOnPath,
}

pub release-IsRouted :
    {id : ℕ} (r : TmuxGatewayRouter) (a : ActiveControl)
    → IsRouted id r
    → a.connection_id ≡ id
    → IsRouted id (release r a)
release-IsRouted r a h c = record {
  is_prefix = h.is_prefix;
  is_proper = h.is_proper;
  connected = c;
}

module _ (id : ℕ) (s : GatewayLifecycleState) (r : TmuxGatewayRouter) (e : List GatewayEvent)
    (a : ActiveControl) (byte : ℕ) (routed : IsRouted id r)
    (c : Connected id (some a) r.next_connection_id r.marker_prefix) where
  abbrev pub loop : Loop
  loop = record { router = r; events = e; direct = [] }

  -- The connection has ended, with `event`.
  released :
      (t : GatewayLifecycleState) (xs : List GatewayEvent) (event : ℕ → GatewayEvent) (d : Bytes)
      → Trace id s xs t
      → Follows id t (event id) direct
      → IsOnPath id s
          (record { router = release r a; events = xs ++ event a.connection_id ∷ []; direct = d })
  released t xs event d p f = record {
    routed = release-IsRouted r a routed c.0;
    path = subst (λ n. Trace id s (xs ++ event n ∷ []) direct) (sym c.0) (Trace-snoc p f);
    quiet = tt;
  }

  pub recover-OnPath :
      a.recovering ≡ true
      → Trace id s e (state_of (some a))
      → RoundOnPath id s (recover loop a byte)
  unfolding recover
  recover-OnPath h p = elim (Bool-cases (a.terminator_escape_seen && byte == b'\\')) [
    | inl t ↦ rw t (released in_recovery e connection_ended [] (rw h at p) recovers)
    | inr t ↦ rw t (record {
      routed = record { is_prefix = routed.is_prefix; is_proper = routed.is_proper; connected = c };
      path = p;
      quiet = refl;
    })
  ]

  parsed-Trace :
      (events : List ControlEvent)
      → Trace id s e (running a.saw_exit)
      → Trace id s
          (e ++ control_events a.connection_id events)
          (running (a.saw_exit || any is_exit events))
  parsed-Trace events p =
      subst
        (λ n.
          Trace id s (e ++ control_events n events) (running (a.saw_exit || any is_exit events)))
        (sym c.0) (Trace-append p (control_events-Trace id a.saw_exit events))

  control_parsed-OnPath :
      (parser : TmuxControlParser) (events : List ControlEvent)
      → a.recovering ≡ false
      → Trace id s e (running a.saw_exit)
      → IsOnPath id s (control_parsed loop (advance_control a byte parser) byte events)
  unfolding control_parsed
  control_parsed-OnPath parser events h p =
      let q = parsed-Trace events p in
      let passed = e ++ control_events a.connection_id events in
      elim (Bool-cases (any is_ended events)) [
        | inl t ↦ rw t (elim (Bool-cases (a.saw_exit || any is_exit events)) [
          | inl x ↦ rw x (released awaiting_terminator passed connection_ended [] (rw x at q) ends)
          | inr x ↦ rw x (
              released in_control passed (λ n. connection_failed n missing_exit) [] (rw x at q)
                stops)
        ])
        | inr t ↦ rw t (record {
          routed = record {
            is_prefix = routed.is_prefix;
            is_proper = routed.is_proper;
            connected = (c.0, c.1, c.2, λ x. cc (x, h));
          };
          path = rw h q;
          quiet = refl;
        })
      ]

  control_failed-OnPath :
      (parser : TmuxControlParser) (source : ControlParseError)
      → a.recovering ≡ false
      → Trace id s e (running a.saw_exit)
      → IsOnPath id s (control_failed loop (advance_control a byte parser) source)
  unfolding control_failed
  control_failed-OnPath parser source h p = elim (Bool-cases a.saw_exit) [
    | inl x ↦ rw x (
        released awaiting_terminator e (λ n. connection_failed n missing_terminator) _ (rw x at p)
          unterminated)
    | inr x ↦ rw x (elim (Bool-cases (first_reveals_direct (a.current_record ++ byte ∷ []))) [
      | inl f ↦ rw f (
          released in_control e (λ n. connection_failed n (protocol source)) _ (rw x at p)
            (reveals source))
      | inr f ↦ rw f (record {
        routed = record {
          is_prefix = routed.is_prefix;
          is_proper = routed.is_proper;
          connected = (c.0, c.1, c.2, λ _. refl);
        };
        path =
            subst (λ n. Trace id s (e ++ connection_failed n (protocol source) ∷ []) in_recovery)
              (sym c.0) (Trace-snoc (rw x at p) (breaks source));
        quiet = refl;
      })
    ])
  ]

  after_parse-OnPath :
      (result : Result (List ControlEvent) × TmuxControlParser)
      → a.recovering ≡ false
      → Trace id s e (running a.saw_exit)
      → IsOnPath id s (after_parse loop a byte result)
  after_parse-OnPath (parsed events, parser) = control_parsed-OnPath parser events
  after_parse-OnPath (refused source, parser) = control_failed-OnPath parser source

  pub control_round-OnPath :
      a.recovering ≡ false
      → Trace id s e (running a.saw_exit)
      → RoundOnPath id s (control_round loop a byte)
  unfolding control_round
  control_round-OnPath h p =
      elim (Bool-cases (a.saw_exit && not a.terminator_escape_seen && not (byte == 0x1b))) [
        | inl t ↦ rw t (
            released awaiting_terminator e (λ n. connection_failed n missing_terminator) []
              (rw
                (and_true a.saw_exit (not a.terminator_escape_seen)
                  (and_true (a.saw_exit && not a.terminator_escape_seen) (not (byte == 0x1b))
                    t).0).0
                at p)
              unterminated)
        | inr t ↦ rw t (after_parse-OnPath (Parser.push a.parser (byte ∷ [])) h p)
      ]
