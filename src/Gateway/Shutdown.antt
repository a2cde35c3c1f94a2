-- ===== src/Gateway/Shutdown.antt =====
-- The end of a router of src/tmux_gateway.rs: `finish_transport` and `expire_termination`, and whole
-- sessions.
use lector.Prelude.{
  ℕ, ◌<◌, ◌≡◌, ◌≢◌, ◌⊎◌, refl, sym, ap, subst, Bool, true, false, inl, inr, Bool-cases, Option,
  none, some, List, [], ◌∷◌, ◌++◌, Bytes, arith, u64_max, if◌then◌else◌, if_cases,
}
use lector.Gateway.Router.{
  GatewayEvent, connection_ended, connection_failed, transport_eof, missing_terminator,
  terminator_timeout, GatewayLifecycleState, direct, in_control, awaiting_terminator, in_recovery,
  state_of, ActiveControl, TmuxGatewayRouter, lifecycle_state, transport_failure, finish_transport,
  expire_termination, with_first_connection_id,
}
use lector.Gateway.Iteration.{Outcome, pushed, push_failed, push}
use lector.Gateway.Lifecycle.{
  Follows, outputs, unterminated, recovers, eof, expires, Trace, here, next, Trace-append,
  Connected, IsRouted,
}
use lector.Gateway.Totality.{push-Lawful, Lawful}

-- The last events lead to direct mode, and leave nothing behind.
abbrev pub Closes : ℕ → GatewayLifecycleState → List GatewayEvent × TmuxGatewayRouter → Type 0
Closes id s (events, r) =
    Trace id s events direct
    × (r ≡ record { marker_prefix = []; active = none; next_connection_id = id })

transport_failure-Follows :
    (id : ℕ) (a : ActiveControl)
    → a.connection_id ≡ id
    → Follows id (state_of (some a)) (transport_failure a) direct
transport_failure-Follows id a c =
    subst
      (λ n.
        Follows id (state_of (some a)) (transport_failure (record a { connection_id = n })) direct)
      (sym c) (fails a.recovering a.saw_exit)
  where
    fails :
        (recovering saw_exit : Bool)
        → Follows id
            (if recovering
              then in_recovery
              else if saw_exit
              then awaiting_terminator
              else in_control)
            (if recovering
              then connection_ended id
              else connection_failed id (if saw_exit then missing_terminator else transport_eof))
            direct
    fails true saw_exit = recovers
    fails false true = unterminated
    fails false false = eof

-- The end of the transport leads every router that keeps the invariant to direct mode by the state
-- machine, and leaves the router that was built with the same first id.
pub finish_transport-Closes :
    (id : ℕ) (r : TmuxGatewayRouter)
    → IsRouted id r
    → Closes id (lifecycle_state r) (finish_transport r)
unfolding finish_transport lifecycle_state
finish_transport-Closes id r h = closes r.active r.marker_prefix r.next_connection_id h.connected
  where
    closes :
        (o : Option ActiveControl) (prefix : Bytes) (n : ℕ)
        → Connected id o n prefix
        → Closes id (state_of o) (
            finish_transport
              (record { marker_prefix = prefix; active = o; next_connection_id = n }))
    closes none [] n c = (here, rw c refl)
    closes none (b ∷ bs) n c = (next (outputs (b ∷ bs)) here, rw c refl)
    closes (some a) prefix n c = (next (transport_failure-Follows id a c.0) here, rw c.0 refl)

-- A wait for the terminator fails with the timeout as its reason; in the other states nothing happens.
abbrev pub Expires : ℕ → TmuxGatewayRouter → List GatewayEvent × TmuxGatewayRouter → Type 0
Expires id r (events, r') =
    IsRouted id r'
    × Trace id (lifecycle_state r) events (lifecycle_state r')
    × (lifecycle_state r' ≢ awaiting_terminator)
    × (((lifecycle_state r ≡ awaiting_terminator)
          × (events ≡ connection_failed id terminator_timeout ∷ []))
        ⊎ ((lifecycle_state r ≢ awaiting_terminator) × (events ≡ []) × (r' ≡ r)))

waits : (a : ActiveControl) → a.saw_exit ≡ false → state_of (some a) ≢ awaiting_terminator
waits a s = rw s (idle a.recovering)
  where
    idle : (b : Bool) → (if b then in_recovery else in_control) ≢ awaiting_terminator
    idle true e = cc e
    idle false e = cc e

awaits :
    (a : ActiveControl)
    → a.saw_exit ≡ true
    → (a.recovering ≡ true → a.saw_exit ≡ false)
    → state_of (some a) ≡ awaiting_terminator
awaits a x e =
    let proper : a.recovering ≡ false = elim (Bool-cases a.recovering) [
      | inl t ↦ cc (e t, x)
      | inr f ↦ f
    ] in
    rw (proper, x) refl

expired :
    {id : ℕ} (a : ActiveControl)
    → a.connection_id ≡ id
    → a.saw_exit ≡ true
    → (a.recovering ≡ true → a.saw_exit ≡ false)
    → Follows id (state_of (some a)) (connection_failed a.connection_id terminator_timeout) direct
expired a c x e =
    let proper : a.recovering ≡ false = elim (Bool-cases a.recovering) [
      | inl t ↦ cc (e t, x)
      | inr f ↦ f
    ] in
    rw (proper, x, c) expires

-- In a router that keeps the invariant, expiry leads by the state machine to a state that is not the
-- wait for the terminator, and keeps the invariant. A wait for the terminator ends with the failure of
-- the connection and the timeout as its reason; in the other states there is no event, and the router
-- is as before.
pub expire_termination-Expires :
    (id : ℕ) (r : TmuxGatewayRouter) → IsRouted id r → Expires id r (expire_termination r)
unfolding expire_termination lifecycle_state
expire_termination-Expires id r h = expires r.active h.connected
  where
    expires :
        (o : Option ActiveControl)
        → Connected id o r.next_connection_id r.marker_prefix
        → Expires id (record r { active = o }) (expire_termination (record r { active = o }))
    expires none c = (
      record { is_prefix = h.is_prefix; is_proper = h.is_proper; connected = c },
      here,
      λ e. cc e,
      inr (λ e. cc e, refl, refl),
    )
    expires (some a) c =
        if_cases (Expires id (record r { active = some a })) a.saw_exit _ _
          (λ x. (
            record { is_prefix = h.is_prefix; is_proper = h.is_proper; connected = c.0 },
            next (expired a c.0 x c.3) here,
            λ e. cc e,
            inl (awaits a x c.3, ap (λ i. connection_failed i terminator_timeout ∷ []) c.0),
          ))
          (λ x. (
            record { is_prefix = h.is_prefix; is_proper = h.is_proper; connected = c },
            here,
            waits a x,
            inr (waits a x, refl, refl),
          ))

pub with_first_connection_id-IsRouted : (id : ℕ) → IsRouted id (with_first_connection_id id)
unfolding with_first_connection_id
with_first_connection_id-IsRouted id = record {
  is_prefix = refl;
  is_proper = omega arith;
  connected = refl;
}

-- A whole session, from a new router whose first id is below the largest `u64` to the end of the
-- transport, gives for every input events that lead by the state machine from direct mode back to
-- direct mode, so each connection that started has ended; and the router is as new.
pub session :
    (id : ℕ) (bs : Bytes)
    → id < u64_max
    → (events : List GatewayEvent) × (r : TmuxGatewayRouter) × (push
          (with_first_connection_id id)
          bs
        ≡ some (pushed events r))
      × Trace id direct (events ++ (finish_transport r).0) direct
      × ((finish_transport r).1 ≡ with_first_connection_id id)
unfolding with_first_connection_id lifecycle_state
session id bs bound =
    closes (push (with_first_connection_id id) bs) refl
      (push-Lawful id (with_first_connection_id id) bs bound (with_first_connection_id-IsRouted id))
  where
    closes :
        (o : Option Outcome)
        → push (with_first_connection_id id) bs ≡ o
        → Lawful id direct o
        → (events : List GatewayEvent) × (r : TmuxGatewayRouter) × (push
              (with_first_connection_id id)
              bs
            ≡ some (pushed events r))
          × Trace id direct (events ++ (finish_transport r).0) direct
          × ((finish_transport r).1 ≡ with_first_connection_id id)
    closes (some (pushed events r)) e (h, p) =
        let (last, idle) = finish_transport-Closes id r h in
        (events, r, e, Trace-append p last, idle)
    closes (some (push_failed f r)) e p = absurd p
    closes none e p = absurd p
