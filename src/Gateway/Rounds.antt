-- ===== src/Gateway/Rounds.antt =====
-- The rounds that the loop of `push` in src/tmux_gateway.rs takes for a byte, and the loop as a fold
-- over the bytes.
use lector.Prelude.{
  ℕ, zero, suc, ◌+◌, ◌*◌, ◌<◌, ◌≡◌, refl, sym, ◌∙◌, ap, inl, inr, true, Option, none, some, [], ◌∷◌,
  ◌++◌, Bytes, arith, ◌==◌, is_empty, length, get_elem?, Option-cases, Bool-cases,
}
use lector.Gateway.Router.{ActiveControl, TmuxGatewayRouter, control_start_marker}
use lector.Gateway.Iteration.{
  Loop, Round, consumed, again, failed, panicked, emit_direct, start_connection, direct_round,
  round_in, round, Outcome, pushed, push_failed, run, push,
}

abbrev pub again_once : Round → (Loop → Round) → Round
again_once (again l) k = k l
again_once (consumed l) k = consumed l
again_once (failed e r) k = failed e r
again_once panicked k = panicked

-- The rounds for one byte.
unfoldable pub take_byte : Loop → ℕ → Round
take_byte l byte = again_once (round l byte) λ l1. again_once (round l1 byte) λ l2. round l2 byte

unfoldable pub take_bytes : Loop → Bytes → Option Outcome
take_bytes l [] = let flushed = emit_direct l in some (pushed flushed.events flushed.router)
take_bytes l (byte ∷ bs) = elim (take_byte l byte) [
  | consumed l' ↦ take_bytes l' bs
  | again l' ↦ none
  | failed e r ↦ some (push_failed e r)
  | panicked ↦ none
]

-- A byte that has to be looked at again finds the router in direct mode, ...
abbrev DirectAgain : Round → Type 0
DirectAgain (again l) = l.router.active ≡ none
DirectAgain _ = Unit

abbrev pub NotAgain : Round → Type 0
NotAgain (again l) = ⊥
NotAgain _ = Unit

start_connection-NotAgain : (l : Loop) → NotAgain (start_connection l)
unfolding start_connection
start_connection-NotAgain l = ground arith

-- ... and then with no prefix of the marker.
abbrev PlainAgain : Round → Type 0
PlainAgain (again l) = (l.router.active ≡ none) × (l.router.marker_prefix ≡ [])
PlainAgain _ = Unit

NotAgain-PlainAgain : (r : Round) → NotAgain r → PlainAgain r
NotAgain-PlainAgain (again l) h = absurd h
NotAgain-PlainAgain _ h = tt

direct_round-PlainAgain :
    (l : Loop) (byte : ℕ) → l.router.active ≡ none → PlainAgain (direct_round l byte)
unfolding direct_round
direct_round-PlainAgain l byte h =
    elim (Option-cases (get_elem? control_start_marker (length l.router.marker_prefix))) [
      | inl e ↦ rw (e, direct_round) tt
      | inr (expected, e) ↦
          rw (e, direct_round)
            (elim (Bool-cases (byte == expected)) [
              | inl f ↦
                  rw f
                    (elim (Bool-cases (
                      length (l.router.marker_prefix ++ byte ∷ [])
                      == length control_start_marker)) [
                        | inl g ↦ rw g (NotAgain-PlainAgain _ (start_connection-NotAgain _))
                        | inr g ↦ rw g tt
                      ])
              | inr f ↦ rw f (elim (Bool-cases (is_empty l.router.marker_prefix)) [
                | inl g ↦ rw g tt
                | inr g ↦ rw g (h, refl)
              ])
            ])
    ]

direct_round-NotAgain :
    (l : Loop) (byte : ℕ) → l.router.marker_prefix ≡ [] → NotAgain (direct_round l byte)
unfolding direct_round
direct_round-NotAgain l byte h =
    elim (Option-cases (get_elem? control_start_marker (length l.router.marker_prefix))) [
      | inl e ↦ rw (e, direct_round) tt
      | inr (expected, e) ↦
          rw (e, direct_round)
            (elim (Bool-cases (byte == expected)) [
              | inl f ↦
                  rw f
                    (elim (Bool-cases (
                      length (l.router.marker_prefix ++ byte ∷ [])
                      == length control_start_marker)) [
                        | inl g ↦ rw g (start_connection-NotAgain _)
                        | inr g ↦ rw g tt
                      ])
              | inr f ↦
                  let plain : is_empty l.router.marker_prefix ≡ true = rw h in rw (f, plain) tt
            ])
    ]

pub round-active :
    (l : Loop) (byte : ℕ) {o : Option ActiveControl}
    → l.router.active ≡ o
    → round l byte ≡ round_in o l byte
unfolding round
round-active l byte h = ap (λ o. round_in o l byte) h

pub round-direct :
    (l : Loop) (byte : ℕ) → l.router.active ≡ none → round l byte ≡ direct_round l byte
unfolding round
round-direct l byte h = round-active l byte h

round-DirectAgain : (l : Loop) (byte : ℕ) → DirectAgain (round l byte)
unfolding round_in
round-DirectAgain l byte = elim (Option-cases l.router.active) [
  | inl e ↦
      rw (round-direct l byte e) (weaken (direct_round l byte) (direct_round-PlainAgain l byte e))
  | inr (a, e) ↦ rw (round-active l byte e) (ground arith)
]
  where
    weaken : (r : Round) → PlainAgain r → DirectAgain r
    weaken (again l') h = h.0
    weaken (consumed l') h = tt
    weaken (failed e r) h = tt
    weaken panicked h = tt

-- Three rounds are enough for a byte.
pub take_byte-NotAgain : (l : Loop) (byte : ℕ) → NotAgain (take_byte l byte)
unfolding take_byte
take_byte-NotAgain l byte = first (round l byte) (round-DirectAgain l byte)
  where
    second : (r : Round) → PlainAgain r → NotAgain (again_once r λ l2. round l2 byte)
    second (again l2) h = rw (round-direct l2 byte h.0) (direct_round-NotAgain l2 byte h.1)
    second (consumed l') h = tt
    second (failed e r) h = tt
    second panicked h = tt

    first :
        (r : Round)
        → DirectAgain r
        → NotAgain (again_once r λ l1. again_once (round l1 byte) λ l2. round l2 byte)
    first (again l1) h =
        second (round l1 byte) (rw (round-direct l1 byte h) (direct_round-PlainAgain l1 byte h))
    first (consumed l') h = tt
    first (failed e r) h = tt
    first panicked h = tt

-- What the loop does with the outcome of a round.
abbrev continue_run : ℕ → ℕ → Bytes → Round → Option Outcome
continue_run fuel byte bs (consumed l) = run fuel l bs
continue_run fuel byte bs (again l) = run fuel l (byte ∷ bs)
continue_run fuel byte bs (failed e r) = some (push_failed e r)
continue_run fuel byte bs panicked = none

run-cons :
    (fuel : ℕ) (l : Loop) (byte : ℕ) (bs : Bytes)
    → run (suc fuel) l (byte ∷ bs) ≡ continue_run fuel byte bs (round l byte)
unfolding run
run-cons fuel l byte bs = at (round l byte) refl
  where
    at :
        (r : Round)
        → round l byte ≡ r
        → run (suc fuel) l (byte ∷ bs) ≡ continue_run fuel byte bs (round l byte)
    at (consumed l') e = rw (e, run)
    at (again l') e = rw (e, run)
    at (failed x r) e = rw (e, run)
    at panicked e = rw (e, run)

abbrev pub continue_take : Bytes → Round → Option Outcome
continue_take bs (consumed l) = take_bytes l bs
continue_take bs (again l) = none
continue_take bs (failed e r) = some (push_failed e r)
continue_take bs panicked = none

pub take_bytes-cons :
    (l : Loop) (byte : ℕ) (bs : Bytes)
    → take_bytes l (byte ∷ bs) ≡ continue_take bs (take_byte l byte)
unfolding take_bytes
take_bytes-cons l byte bs = at (take_byte l byte) refl
  where
    at :
        (r : Round)
        → take_byte l byte ≡ r
        → take_bytes l (byte ∷ bs) ≡ continue_take bs (take_byte l byte)
    at (consumed l') e = rw (e, take_bytes)
    at (again l') e = rw (e, take_bytes)
    at (failed x r) e = rw (e, take_bytes)
    at panicked e = rw (e, take_bytes)

module _ (byte : ℕ) (bs : Bytes)
    (ih : (fuel : ℕ) (l : Loop) → 3 * length bs < fuel → run fuel l bs ≡ take_bytes l bs) where
  third_round :
      (fuel : ℕ) (r : Round)
      → 3 * length bs < fuel
      → NotAgain r
      → continue_run fuel byte bs r ≡ continue_take bs r
  third_round fuel (consumed l) h n = ih fuel l h
  third_round fuel (again l) h n = absurd n
  third_round fuel (failed e r) h n = refl
  third_round fuel panicked h n = refl

  second_round :
      (fuel : ℕ) (r : Round)
      → 3 * length bs < fuel
      → NotAgain (again_once r λ l2. round l2 byte)
      → continue_run (suc fuel) byte bs r ≡ continue_take bs (again_once r λ l2. round l2 byte)
  second_round fuel (consumed l) h n = ih (suc fuel) l (omega arith)
  second_round fuel (again l) h n = run-cons fuel l byte bs ∙ third_round fuel (round l byte) h n
  second_round fuel (failed e r) h n = refl
  second_round fuel panicked h n = refl

  first_round :
      (fuel : ℕ) (r : Round)
      → 3 * length bs < fuel
      → NotAgain (again_once r λ l1. again_once (round l1 byte) λ l2. round l2 byte)
      → continue_run (suc (suc fuel)) byte bs r
        ≡ continue_take bs (again_once r λ l1. again_once (round l1 byte) λ l2. round l2 byte)
  first_round fuel (consumed l) h n = ih (suc (suc fuel)) l (omega arith)
  first_round fuel (again l) h n =
      run-cons (suc fuel) l byte bs ∙ second_round fuel (round l byte) h n
  first_round fuel (failed e r) h n = refl
  first_round fuel panicked h n = refl

run-take_bytes :
    (bs : Bytes) (fuel : ℕ) (l : Loop) → 3 * length bs < fuel → run fuel l bs ≡ take_bytes l bs
unfolding take_byte
run-take_bytes bs zero l h = elim h [ ]
run-take_bytes [] (suc fuel) l h = unfold run take_bytes in refl
run-take_bytes (byte ∷ bs) (suc zero) l h = absurd (omega arith)
run-take_bytes (byte ∷ bs) (suc (suc zero)) l h = absurd (omega arith)
run-take_bytes (byte ∷ bs) (suc (suc (suc fuel))) l h =
    run-cons (suc (suc fuel)) l byte bs
    ∙ first_round byte bs (run-take_bytes bs) fuel (round l byte) (omega arith)
        (take_byte-NotAgain l byte)
    ∙ sym (take_bytes-cons l byte bs)

-- The loop never runs out of the fuel that `push` gives it: it is a fold over the bytes, each of
-- which takes at most three rounds.
pub push-take_bytes :
    (r : TmuxGatewayRouter) (bs : Bytes)
    → push r bs ≡ take_bytes (record { router = r; events = []; direct = [] }) bs
unfolding push
push-take_bytes r bs = run-take_bytes bs (3 * length bs + 3) _ (omega arith)
