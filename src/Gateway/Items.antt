-- ===== src/Gateway/Items.antt =====
-- What the consumer of src/tmux_gateway.rs sees of the events: a run of direct output is its bytes,
-- however it is cut into pieces. Rounds of the loop append to it, and depend on the router alone.
use mathlib.Core.List.{map-append}
use lector.Prelude.{
  ℕ, ◌≡◌, refl, sym, ap, ◌∙◌, inl, inr, not, ◌&&◌, ◌||◌, Option, none, some, List, [], ◌∷◌, ◌++◌,
  map, append-nil, append_assoc, Bytes, subst, ◌==◌, u64_max, leb, is_empty, any, if◌then◌else◌,
  length, get_elem?, Option-cases, Bool-cases,
}
use lector.Control.Data.{ControlEvent, Result, TmuxControlParser}
use lector.Control.Data.{ok as parsed, err as refused}
use lector.Control.Parser
use lector.Gateway.Router.{
  control_start_marker, GatewayEvent, direct_output, ActiveControl, TmuxGatewayRouter,
}
use lector.Gateway.Iteration.{
  Loop, Round, consumed, again, failed, panicked, emit_direct, start_connection, opened, recover,
  first_reveals_direct, is_ended, control_failed, control_parsed, after_parse, advance_control,
  control_round, direct_round,
}

abbrev pub output_byte : ℕ → GatewayEvent
output_byte b = direct_output (b ∷ [])

abbrev pub split_event : GatewayEvent → List GatewayEvent
split_event (direct_output bs) = map output_byte bs
split_event event = event ∷ []

unfoldable pub split_output : List GatewayEvent → List GatewayEvent
split_output [] = []
split_output (event ∷ events) = split_event event ++ split_output events

pub split_output-append :
    (xs ys : List GatewayEvent) → split_output (xs ++ ys) ≡ split_output xs ++ split_output ys
unfolding split_output
split_output-append [] ys = refl
split_output-append (x ∷ xs) ys =
    rw (split_output-append xs ys)
      (sym (append_assoc (split_event x) (split_output xs) (split_output ys)))

-- What the two vectors of the loop hold: the events, and then the direct bytes not emitted yet.
unfoldable pub items : List GatewayEvent → Bytes → List GatewayEvent
items events direct = split_output events ++ map output_byte direct

-- `e d` holds `p` and then what `e0 d0` holds.
abbrev pub Extends :
    List GatewayEvent → List GatewayEvent → Bytes → List GatewayEvent → Bytes → Type 0
Extends p e d e0 d0 = items e d ≡ p ++ items e0 d0

Extends-direct :
    (p e e0 : List GatewayEvent) (d d0 bs : Bytes)
    → Extends p e d e0 d0
    → Extends p e (d ++ bs) e0 (d0 ++ bs)
unfolding items
Extends-direct p e e0 d d0 bs h =
    simp (map-append, ← append_assoc)
      (ap (λ xs. xs ++ map output_byte bs) (h ∙ sym (append_assoc p _ _)))

Extends-events :
    (p e e0 xs : List GatewayEvent) (bs : Bytes)
    → Extends p e [] e0 []
    → Extends p (e ++ xs) bs (e0 ++ xs) bs
unfolding items
Extends-events p e e0 xs bs h =
    let plain : split_output e ≡ p ++ split_output e0 =
      sym (append-nil (split_output e)) ∙ h ∙ ap (λ ys. p ++ ys) (append-nil (split_output e0)) in
    rw (split_output-append e xs, split_output-append e0 xs) (rw plain (simp append_assoc))

abbrev pub emitted : List GatewayEvent → Bytes → List GatewayEvent
emitted e d = if is_empty d then e else e ++ direct_output d ∷ []

pub emit_direct-emitted :
    (r : TmuxGatewayRouter) (e : List GatewayEvent) (d : Bytes)
    → emit_direct (record { router = r; events = e; direct = d })
      ≡ record { router = r; events = emitted e d; direct = [] }
unfolding emit_direct
emit_direct-emitted r e [] = refl
emit_direct-emitted r e (b ∷ bs) = refl

pub items-emitted : (e : List GatewayEvent) (d : Bytes) → items (emitted e d) [] ≡ items e d
unfolding items
items-emitted e [] = refl
items-emitted e (b ∷ bs) =
    rw (split_output-append e (direct_output (b ∷ bs) ∷ []))
      (unfold split_output in simp (append-nil))

-- Nothing waits to be emitted while a connection is active.
abbrev pub Quiet : Option ActiveControl → Bytes → Type 0
Quiet none d = Unit
Quiet (some a) d = d ≡ []

-- Two loops with one router, of which the first holds `p` in front.
pub record Ahead (p : List GatewayEvent) (l l0 : Loop) : Type 0 where
  pub same_router : l.router ≡ l0.router
  pub ahead : Extends p l.events l.direct l0.events l0.direct
  pub quiet : Quiet l.router.active l.direct
  pub quiet0 : Quiet l0.router.active l0.direct

abbrev pub RoundAhead : List GatewayEvent → Round → Round → Type 0
RoundAhead p (consumed l) (consumed l0) = Ahead p l l0
RoundAhead p (again l) (again l0) = Ahead p l l0
RoundAhead p (failed e r) (failed e0 r0) = (e ≡ e0) × (r ≡ r0)
RoundAhead p panicked panicked = Unit
RoundAhead p _ _ = ⊥

module _ (p : List GatewayEvent) (r : TmuxGatewayRouter) (e e0 : List GatewayEvent) where
  abbrev pub loop : Bytes → Loop
  loop d = record { router = r; events = e; direct = d }

  abbrev pub loop0 : Bytes → Loop
  loop0 d = record { router = r; events = e0; direct = d }

  pub recover-Ahead :
      (a : ActiveControl) (byte : ℕ)
      → Extends p e [] e0 []
      → RoundAhead p (recover (loop []) a byte) (recover (loop0 []) a byte)
  unfolding recover
  recover-Ahead a byte h = elim (Bool-cases (a.terminator_escape_seen && byte == b'\\')) [
    | inl t ↦ rw t (record {
      same_router = refl;
      ahead = Extends-events p e e0 _ [] h;
      quiet = tt;
      quiet0 = tt;
    })
    | inr t ↦ rw t (record { same_router = refl; ahead = h; quiet = refl; quiet0 = refl })
  ]

  after_parse-Ahead :
      (a : ActiveControl) (byte : ℕ) (result : Result (List ControlEvent) × TmuxControlParser)
      → Extends p e [] e0 []
      → Ahead p (after_parse (loop []) a byte result) (after_parse (loop0 []) a byte result)
  unfolding control_parsed control_failed
  after_parse-Ahead a byte (parsed events, parser) h = elim (Bool-cases (any is_ended events)) [
    | inl t ↦ rw t (record {
      same_router = refl;
      ahead = rw (append_assoc e, append_assoc e0) (Extends-events p e e0 _ [] h);
      quiet = tt;
      quiet0 = tt;
    })
    | inr t ↦ rw t (record {
      same_router = refl;
      ahead = Extends-events p e e0 _ [] h;
      quiet = refl;
      quiet0 = refl;
    })
  ]
  after_parse-Ahead a byte (refused source, parser) h =
      let c = advance_control a byte parser in
      elim (Bool-cases (c.saw_exit || first_reveals_direct c.current_record)) [
        | inl t ↦ rw t (record {
          same_router = refl;
          ahead = Extends-events p e e0 _ _ h;
          quiet = tt;
          quiet0 = tt;
        })
        | inr t ↦ rw t (record {
          same_router = refl;
          ahead = Extends-events p e e0 _ [] h;
          quiet = refl;
          quiet0 = refl;
        })
      ]

  pub control_round-Ahead :
      (a : ActiveControl) (byte : ℕ)
      → Extends p e [] e0 []
      → RoundAhead p (control_round (loop []) a byte) (control_round (loop0 []) a byte)
  unfolding control_round
  control_round-Ahead a byte h =
      elim (Bool-cases (a.saw_exit && not a.terminator_escape_seen && not (byte == 0x1b))) [
        | inl t ↦ rw t (record {
          same_router = refl;
          ahead = Extends-events p e e0 _ [] h;
          quiet = tt;
          quiet0 = tt;
        })
        | inr t ↦ rw t (after_parse-Ahead a byte (Parser.push a.parser (byte ∷ [])) h)
      ]

  start_connection-Ahead :
      Extends p e [] e0 [] → RoundAhead p (start_connection (loop [])) (start_connection (loop0 []))
  unfolding start_connection
  start_connection-Ahead h = elim (Bool-cases (leb u64_max r.next_connection_id)) [
    | inl t ↦ rw t (refl, refl)
    | inr t ↦ rw t (start (Parser.push Parser.new control_start_marker))
  ]
    where
      start :
          (result : Result (List ControlEvent) × TmuxControlParser)
          → RoundAhead p
              (opened (loop []) r.next_connection_id result)
              (opened (loop0 []) r.next_connection_id result)
      start (parsed events, parser) = record {
        same_router = refl;
        ahead = Extends-events p e e0 _ [] h;
        quiet = refl;
        quiet0 = refl;
      }
      start (refused source, parser) = (refl, refl)

pub direct_round-Ahead :
    (p : List GatewayEvent) (r : TmuxGatewayRouter) (e e0 : List GatewayEvent) (d d0 : Bytes)
    (byte : ℕ)
    → r.active ≡ none
    → Extends p e d e0 d0
    → RoundAhead p (direct_round (loop p r e e0 d) byte) (direct_round (loop0 p r e e0 d0) byte)
unfolding direct_round
direct_round-Ahead p r e e0 d d0 byte idle h =
    elim (Option-cases (get_elem? control_start_marker (length r.marker_prefix))) [
      | inl x ↦ rw (x, direct_round) tt
      | inr (expected, x) ↦
          rw (x, direct_round)
            (elim (Bool-cases (byte == expected)) [
              | inl f ↦
                  rw f
                    (elim (Bool-cases
                      (length (r.marker_prefix ++ byte ∷ []) == length control_start_marker)) [
                        | inl g ↦ rw g (
                            rw (emit_direct-emitted r e d, emit_direct-emitted r e0 d0)
                              (start_connection-Ahead p (record r { marker_prefix = [] })
                                (emitted e d) (emitted e0 d0)
                                (items-emitted e d
                                  ∙ h
                                  ∙ ap (λ xs. p ++ xs) (sym (items-emitted e0 d0)))))
                        | inr g ↦ rw g (record {
                          same_router = refl;
                          ahead = h;
                          quiet = subst (λ o. Quiet o d) (sym idle) tt;
                          quiet0 = subst (λ o. Quiet o d0) (sym idle) tt;
                        })
                      ])
              | inr f ↦ rw f (elim (Bool-cases (is_empty r.marker_prefix)) [
                | inl g ↦ rw g (record {
                  same_router = refl;
                  ahead = Extends-direct p e e0 d d0 _ h;
                  quiet = subst (λ o. Quiet o (d ++ byte ∷ [])) (sym idle) tt;
                  quiet0 = subst (λ o. Quiet o (d0 ++ byte ∷ [])) (sym idle) tt;
                })
                | inr g ↦ rw g (record {
                  same_router = refl;
                  ahead = Extends-direct p e e0 d d0 _ h;
                  quiet = subst (λ o. Quiet o (d ++ r.marker_prefix)) (sym idle) tt;
                  quiet0 = subst (λ o. Quiet o (d0 ++ r.marker_prefix)) (sym idle) tt;
                })
              ])
            ])
    ]
