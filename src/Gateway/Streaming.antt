-- ===== src/Gateway/Streaming.antt =====
-- `TmuxGatewayRouter::push` of src/tmux_gateway.rs on a stream that is cut into two inputs.
use lector.Prelude.{
  ℕ, ◌≡◌, refl, sym, ap, ◌∙◌, Bool, true, false, Option, none, some, List, [], ◌∷◌, ◌++◌,
  append-nil, Bytes, subst, if◌then◌else◌,
}
use lector.Gateway.Router.{GatewayEvent, ActiveControl, TmuxGatewayRouter}
use lector.Gateway.Iteration.{
  Loop, Round, consumed, again, failed, panicked, recover, control_round, round_in, round, Outcome,
  pushed, push_failed, push,
}
use lector.Gateway.Rounds.{
  again_once, take_byte, take_bytes, continue_take, take_bytes-cons, push-take_bytes,
}
use lector.Gateway.Items.{
  split_output, items, emitted, emit_direct-emitted, items-emitted, Extends, Quiet, Ahead,
  RoundAhead, recover-Ahead, loop, control_round-Ahead, direct_round-Ahead,
}

if-Ahead :
    (p : List GatewayEvent) (b : Bool) (x y x0 y0 : Round)
    → RoundAhead p x x0
    → RoundAhead p y y0
    → RoundAhead p (if b then x else y) (if b then x0 else y0)
if-Ahead p true x y x0 y0 h k = h
if-Ahead p false x y x0 y0 h k = k

round_in-Ahead :
    (p : List GatewayEvent) (r : TmuxGatewayRouter) (e e0 : List GatewayEvent) (d d0 : Bytes)
    (byte : ℕ) (o : Option ActiveControl)
    → r.active ≡ o
    → Quiet o d
    → Quiet o d0
    → Extends p e d e0 d0
    → RoundAhead p
        (round_in o (record { router = r; events = e; direct = d }) byte)
        (round_in o (record { router = r; events = e0; direct = d0 }) byte)
unfolding round_in
round_in-Ahead p r e e0 d d0 byte none idle q q0 h = direct_round-Ahead p r e e0 d d0 byte idle h
round_in-Ahead p r e e0 d d0 byte (some a) busy q q0 h =
    let h' : Extends p e [] e0 [] =
      subst (λ x. Extends p e x e0 []) q (subst (λ x. Extends p e d e0 x) q0 h) in
    rw (q, q0)
      (if-Ahead p a.recovering (recover (loop p r e e0 []) a byte)
        (control_round (loop p r e e0 []) a byte) (recover (loop p r e0 e []) a byte)
        (control_round (loop p r e0 e []) a byte) (recover-Ahead p r e e0 a byte h')
        (control_round-Ahead p r e e0 a byte h'))

-- A round does the same in two loops with one router, and adds the same items.
round-Ahead :
    (p : List GatewayEvent) (l l0 : Loop) (byte : ℕ)
    → Ahead p l l0
    → RoundAhead p (round l byte) (round l0 byte)
unfolding round
round-Ahead p l l0 byte h =
    subst (λ r. RoundAhead p (round l byte) (round (record l0 { router = r }) byte)) h.same_router
      (round_in-Ahead p l.router l.events l0.events l.direct l0.direct byte l.router.active refl
        h.quiet (subst (λ r. Quiet r.active l0.direct) (sym h.same_router) h.quiet0) h.ahead)

again_once-Ahead :
    (p : List GatewayEvent) (s s0 : Round) (k : Loop → Round)
    → RoundAhead p s s0
    → ((l l0 : Loop) → Ahead p l l0 → RoundAhead p (k l) (k l0))
    → RoundAhead p (again_once s k) (again_once s0 k)
again_once-Ahead p (again l) (again l0) k h hk = hk l l0 h
again_once-Ahead p (consumed l) (consumed l0) k h hk = h
again_once-Ahead p (failed e r) (failed e0 r0) k h hk = h
again_once-Ahead p panicked panicked k h hk = h
again_once-Ahead p _ _ k h hk = absurd h

take_byte-Ahead :
    (p : List GatewayEvent) (l l0 : Loop) (byte : ℕ)
    → Ahead p l l0
    → RoundAhead p (take_byte l byte) (take_byte l0 byte)
unfolding take_byte
take_byte-Ahead p l l0 byte h =
    again_once-Ahead p (round l byte) (round l0 byte) _ (round-Ahead p l l0 byte h) λ l1 l01 h1.
      again_once-Ahead p (round l1 byte) (round l01 byte) _ (round-Ahead p l1 l01 byte h1)
        λ l2 l02 h2. round-Ahead p l2 l02 byte h2

-- The outcome as its consumer sees it.
abbrev pub seen : Option Outcome → Option Outcome
seen (some (pushed events r)) = some (pushed (split_output events) r)
seen (some (push_failed e r)) = some (push_failed e r)
seen none = none

-- An outcome behind earlier events.
abbrev pub behind : List GatewayEvent → Option Outcome → Option Outcome
behind p (some (pushed events r)) = some (pushed (p ++ events) r)
behind p (some (push_failed e r)) = some (push_failed e r)
behind p none = none

-- A second call of `push` behind a first one.
abbrev pub push_next : Option Outcome → Bytes → Option Outcome
push_next (some (pushed events r)) bs = behind events (seen (push r bs))
push_next (some (push_failed e r)) bs = some (push_failed e r)
push_next none bs = none

seen-take_bytes_nil :
    (l : Loop) → seen (take_bytes l []) ≡ some (pushed (items l.events l.direct) l.router)
unfolding take_bytes
seen-take_bytes_nil l =
    let flat : split_output (emitted l.events l.direct) ≡ items l.events l.direct =
      sym (append-nil _) ∙ (unfold items in items-emitted l.events l.direct) in
    rw (emit_direct-emitted l.router l.events l.direct) (rw flat)

take_bytes-Ahead :
    (p : List GatewayEvent) (bs : Bytes) (l l0 : Loop)
    → Ahead p l l0
    → seen (take_bytes l bs) ≡ behind p (seen (take_bytes l0 bs))
take_bytes-Ahead p [] l l0 h =
    seen-take_bytes_nil l
    ∙ cc (h.ahead, h.same_router)
    ∙ ap (behind p) (sym (seen-take_bytes_nil l0))
take_bytes-Ahead p (byte ∷ bs) l l0 h =
    ap seen (take_bytes-cons l byte bs)
    ∙ step (take_byte l byte) (take_byte l0 byte) (take_byte-Ahead p l l0 byte h)
        (take_bytes-Ahead p bs)
    ∙ ap (λ x. behind p (seen x)) (sym (take_bytes-cons l0 byte bs))
  where
    step :
        (s s0 : Round)
        → RoundAhead p s s0
        → ((k k0 : Loop)
            → Ahead p k k0
            → seen (take_bytes k bs) ≡ behind p (seen (take_bytes k0 bs)))
        → seen (continue_take bs s) ≡ behind p (seen (continue_take bs s0))
    step (consumed k) (consumed k0) r ih = ih k k0 r
    step (again k) (again k0) r ih = refl
    step (failed e q) (failed e0 q0) r ih = cc
    step panicked panicked r ih = refl
    step _ _ r ih = absurd r

-- What `take_byte` leaves is quiet again.
abbrev QuietRound : Round → Type 0
QuietRound (consumed l) = Quiet l.router.active l.direct
QuietRound _ = Unit

take_byte-Quiet :
    (l : Loop) (byte : ℕ) → Quiet l.router.active l.direct → QuietRound (take_byte l byte)
take_byte-Quiet l byte q = at (take_byte l byte) (
    take_byte-Ahead [] l l byte
      (record { same_router = refl; ahead = refl; quiet = q; quiet0 = q }))
  where
    at : (s : Round) → RoundAhead [] s s → QuietRound s
    at (consumed k) h = h.quiet
    at (again k) h = tt
    at (failed e r) h = tt
    at panicked h = tt

Quiet-nil : (o : Option ActiveControl) → Quiet o []
Quiet-nil none = tt
Quiet-nil (some a) = refl

take_bytes-append :
    (xs ys : Bytes) (l : Loop)
    → Quiet l.router.active l.direct
    → seen (take_bytes l (xs ++ ys)) ≡ push_next (seen (take_bytes l xs)) ys
take_bytes-append [] ys l q =
    take_bytes-Ahead (items l.events l.direct) ys l
      (record { router = l.router; events = []; direct = [] })
      (record {
        same_router = refl;
        ahead = unfold items split_output in sym (append-nil _);
        quiet = q;
        quiet0 = Quiet-nil l.router.active;
      })
    ∙ ap (λ o. behind (items l.events l.direct) (seen o)) (sym (push-take_bytes l.router ys))
    ∙ ap (λ o. push_next o ys) (sym (seen-take_bytes_nil l))
take_bytes-append (x ∷ xs) ys l q =
    ap seen (take_bytes-cons l x (xs ++ ys))
    ∙ step (take_byte l x) (take_byte-Quiet l x q) (take_bytes-append xs ys)
    ∙ ap (λ o. push_next (seen o) ys) (sym (take_bytes-cons l x xs))
  where
    step :
        (s : Round)
        → QuietRound s
        → ((k : Loop)
            → Quiet k.router.active k.direct
            → seen (take_bytes k (xs ++ ys)) ≡ push_next (seen (take_bytes k xs)) ys)
        → seen (continue_take (xs ++ ys) s) ≡ push_next (seen (continue_take xs s)) ys
    step (consumed k) r ih = ih k r
    step (again k) r ih = refl
    step (failed e r') r ih = refl
    step panicked r ih = refl

-- Pushing `xs ++ ys` leaves the router as pushing `xs` and then `ys` does, and gives the same
-- items in the same order: the same control and connection events, and the same bytes of direct
-- output between them, however they are cut into pieces. A failure is the same failure.
pub push-append_items :
    (r : TmuxGatewayRouter) (xs ys : Bytes)
    → seen (push r (xs ++ ys)) ≡ push_next (seen (push r xs)) ys
push-append_items r xs ys =
    ap seen (push-take_bytes r (xs ++ ys))
    ∙ take_bytes-append xs ys (record { router = r; events = []; direct = [] }) (Quiet-nil r.active)
    ∙ ap (λ o. push_next (seen o) ys) (sym (push-take_bytes r xs))
