-- ===== src/Gateway/Totality.antt =====
-- The rounds of `push` in src/tmux_gateway.rs in direct mode, and the whole loop, against the state
-- machine.
use lector.Prelude.{
  ℕ, suc, ◌<◌, ◌≡◌, ◌≢◌, refl, sym, ap, ◌∙◌, subst, inl, inr, Bool, true, false, Option, none, some,
  List, [], ◌∷◌, ◌++◌, Bytes, arith, ◌==◌, u64_max, leb, is_empty, if◌then◌else◌, length,
  length-append, take, get_elem?, get_elem?-take, get_elem?-lt, Bool-cases, ==→eq,
}
use lector.Control.Data.{started, TmuxControlParser}
use lector.Control.Data.{ok as parsed}
use lector.Control.Parser
use lector.Gateway.Router.{
  control_start_marker, GatewayEvent, GatewayLifecycleState, direct, state_of, lifecycle_state,
  ActiveControl, TmuxGatewayRouter,
}
use lector.Gateway.Iteration.{
  Loop, Round, consumed, again, failed, panicked, start_connection, direct_round, round_in, round,
  Outcome, pushed, push,
}
use lector.Gateway.Rounds.{
  again_once, take_byte, take_bytes, continue_take, NotAgain, take_byte-NotAgain, take_bytes-cons,
  push-take_bytes,
}
use lector.Gateway.Items.{Quiet, emitted, emit_direct-emitted}
use lector.Gateway.Lifecycle.{
  starts, controls, Trace, here, next, Trace-append, emitted-Trace, Connected, IsRouted, IsOnPath,
  RoundOnPath,
}
use lector.Gateway.Contract.{recover-OnPath, control_round-OnPath}

pub marker-Parser :
    (q : TmuxControlParser) × (Parser.push Parser.new control_start_marker
      ≡ (parsed (started ∷ []), q))
unfolding Parser.push Parser.new Parser.push_byte
marker-Parser = (_, refl)

-- The next connection id is in range.
start_connection-OnPath :
    (id : ℕ) (s : GatewayLifecycleState) (e : List GatewayEvent)
    → id < u64_max
    → Trace id s e direct
    → RoundOnPath id s (
        start_connection (record {
          router = record { marker_prefix = []; active = none; next_connection_id = id };
          events = e;
          direct = [];
        }))
unfolding start_connection
start_connection-OnPath id s e bound p =
    let fits : leb u64_max id ≡ false = ground arith in
    rw (fits, marker-Parser.1)
      (record {
        routed = record {
          is_prefix = refl;
          is_proper = omega arith;
          connected = (refl, refl, refl, λ h. cc h);
        };
        path = Trace-append p (next starts (next (controls false started) here));
        quiet = refl;
      })

-- One more byte of the marker, which is not the last one.
pub marker_prefix-IsRouted :
    (id : ℕ) (prefix : Bytes) (byte : ℕ)
    → prefix ≡ take (length prefix) control_start_marker
    → length prefix < length control_start_marker
    → get_elem? control_start_marker (length prefix) ≡ some byte
    → length (prefix ++ byte ∷ []) ≢ length control_start_marker
    → IsRouted id
        (record { marker_prefix = prefix ++ byte ∷ []; active = none; next_connection_id = id })
marker_prefix-IsRouted id prefix byte is_prefix is_proper x g =
    let longer : length (prefix ++ byte ∷ []) ≡ suc (length prefix) =
      omega (arith, length-append prefix (byte ∷ [])) in
    record {
      is_prefix =
          ap (λ xs. xs ++ byte ∷ []) is_prefix
          ∙ get_elem?-take control_start_marker (length prefix) byte x
          ∙ ap (λ n. take n control_start_marker) (sym longer);
      is_proper = omega arith;
      connected = refl;
    }

module _ (id : ℕ) (s : GatewayLifecycleState) (prefix : Bytes) (e : List GatewayEvent) (d : Bytes)
    (byte : ℕ) (bound : id < u64_max)
    (is_prefix : prefix ≡ take (length prefix) control_start_marker)
    (is_proper : length prefix < length control_start_marker) (p : Trace id s e direct) where
  abbrev idle : Loop
  idle = record {
    router = record { marker_prefix = prefix; active = none; next_connection_id = id };
    events = e;
    direct = d;
  }

  direct_round-OnPath : RoundOnPath id s (direct_round idle byte)
  unfolding direct_round
  direct_round-OnPath =
      let (expected, x) = get_elem?-lt control_start_marker (length prefix) is_proper in
      rw x (elim (Bool-cases (byte == expected)) [
        | inl f ↦
            rw f (elim (Bool-cases (length (prefix ++ byte ∷ []) == length control_start_marker)) [
              | inl g ↦ rw g (
                  rw (emit_direct-emitted idle.router e d)
                    (start_connection-OnPath id s (emitted e d) bound (emitted-Trace e d p)))
              | inr g ↦ rw g (record {
                routed =
                    marker_prefix-IsRouted id prefix byte is_prefix is_proper
                      (x ∙ ap some (sym (==→eq byte expected f))) (ground arith);
                path = p;
                quiet = tt;
              })
            ])
        | inr f ↦ rw f (elim (Bool-cases (is_empty prefix)) [
          | inl g ↦ rw g (record {
            routed = record { is_prefix = is_prefix; is_proper = is_proper; connected = refl };
            path = p;
            quiet = tt;
          })
          | inr g ↦ rw g (record {
            routed = record { is_prefix = refl; is_proper = omega arith; connected = refl };
            path = p;
            quiet = tt;
          })
        ])
      ])

if-OnPath :
    (id : ℕ) (s : GatewayLifecycleState) (b : Bool) (x y : Round)
    → (b ≡ true → RoundOnPath id s x)
    → (b ≡ false → RoundOnPath id s y)
    → RoundOnPath id s (if b then x else y)
if-OnPath id s true x y h k = h refl
if-OnPath id s false x y h k = k refl

round_in-OnPath :
    (id : ℕ) (s : GatewayLifecycleState) (l : Loop) (byte : ℕ) (o : Option ActiveControl)
    → id < u64_max
    → IsOnPath id s l
    → l.router.active ≡ o
    → RoundOnPath id s (round_in o l byte)
unfolding round_in
round_in-OnPath id s l byte none bound h busy =
    let c : Connected id none l.router.next_connection_id l.router.marker_prefix =
      subst (λ o. Connected id o l.router.next_connection_id l.router.marker_prefix) busy
        h.routed.connected in
    let at : Option ActiveControl → ℕ → Loop =
      λ o n. record l { router = record l.router { active = o; next_connection_id = n } } in
    subst (λ o. RoundOnPath id s (direct_round (at o l.router.next_connection_id) byte)) (sym busy)
      (subst (λ n. RoundOnPath id s (direct_round (at none n) byte)) (sym c)
        (direct_round-OnPath id s l.router.marker_prefix l.events l.direct byte bound
          h.routed.is_prefix h.routed.is_proper
          (subst (λ o. Trace id s l.events (state_of o)) busy h.path)))
round_in-OnPath id s l byte (some a) bound h busy =
    let c : Connected id (some a) l.router.next_connection_id l.router.marker_prefix =
      subst (λ o. Connected id o l.router.next_connection_id l.router.marker_prefix) busy
        h.routed.connected in
    let p : Trace id s l.events (state_of (some a)) =
      subst (λ o. Trace id s l.events (state_of o)) busy h.path in
    let q : l.direct ≡ [] = subst (λ o. Quiet o l.direct) busy h.quiet in
    subst (λ d. RoundOnPath id s (round_in (some a) (record l { direct = d }) byte)) (sym q)
      (if-OnPath id s a.recovering _ _
        (λ t. recover-OnPath id s l.router l.events a byte h.routed c t p)
        (λ t. control_round-OnPath id s l.router l.events a byte h.routed c t (rw t at p)))

round-OnPath :
    (id : ℕ) (s : GatewayLifecycleState) (l : Loop) (byte : ℕ)
    → id < u64_max
    → IsOnPath id s l
    → RoundOnPath id s (round l byte)
unfolding round
round-OnPath id s l byte bound h = round_in-OnPath id s l byte l.router.active bound h refl

again_once-OnPath :
    (id : ℕ) (s : GatewayLifecycleState) (m : Round) (k : Loop → Round)
    → RoundOnPath id s m
    → ((l : Loop) → IsOnPath id s l → RoundOnPath id s (k l))
    → RoundOnPath id s (again_once m k)
again_once-OnPath id s (again l) k h hk = hk l h
again_once-OnPath id s (consumed l) k h hk = h
again_once-OnPath id s (failed e r) k h hk = absurd h
again_once-OnPath id s panicked k h hk = absurd h

take_byte-OnPath :
    (id : ℕ) (s : GatewayLifecycleState) (l : Loop) (byte : ℕ)
    → id < u64_max
    → IsOnPath id s l
    → RoundOnPath id s (take_byte l byte)
unfolding take_byte
take_byte-OnPath id s l byte bound h =
    again_once-OnPath id s (round l byte) _ (round-OnPath id s l byte bound h) λ l1 h1.
      again_once-OnPath id s (round l1 byte) _ (round-OnPath id s l1 byte bound h1)
        λ l2 h2. round-OnPath id s l2 byte bound h2

-- What a total, lawful `push` returns: events on a path of the state machine.
abbrev pub Lawful : ℕ → GatewayLifecycleState → Option Outcome → Type 0
Lawful id s (some (pushed events r)) = IsRouted id r × Trace id s events (lifecycle_state r)
Lawful id s _ = ⊥

finished-Lawful :
    (id : ℕ) (s : GatewayLifecycleState) (l : Loop)
    → IsOnPath id s l
    → Lawful id s (take_bytes l [])
unfolding take_bytes lifecycle_state
finished-Lawful id s l h =
    rw (emit_direct-emitted l.router l.events l.direct)
      (h.routed, emitted_in l.router.active h.path h.quiet)
  where
    emitted_in :
        (o : Option ActiveControl)
        → Trace id s l.events (state_of o)
        → Quiet o l.direct
        → Trace id s (emitted l.events l.direct) (state_of o)
    emitted_in none p q = emitted-Trace l.events l.direct p
    emitted_in (some a) p q = rw q p

take_bytes-Lawful :
    (id : ℕ) (s : GatewayLifecycleState) (bs : Bytes) (l : Loop)
    → id < u64_max
    → IsOnPath id s l
    → Lawful id s (take_bytes l bs)
take_bytes-Lawful id s [] l bound h = finished-Lawful id s l h
take_bytes-Lawful id s (byte ∷ bs) l bound h = rw (take_bytes-cons l byte bs) (
    step (take_byte l byte) (take_byte-OnPath id s l byte bound h) (take_byte-NotAgain l byte)
      λ k hk. take_bytes-Lawful id s bs k bound hk)
  where
    step :
        (m : Round)
        → RoundOnPath id s m
        → NotAgain m
        → ((k : Loop) → IsOnPath id s k → Lawful id s (take_bytes k bs))
        → Lawful id s (continue_take bs m)
    step (consumed k) r n ih = ih k r
    step (again k) r n ih = absurd n
    step (failed e q) r n ih = absurd r
    step panicked r n ih = absurd r

Quiet-nil : (o : Option ActiveControl) → Quiet o []
Quiet-nil none = tt
Quiet-nil (some a) = refl

-- `push` of a router that keeps the invariant, with first connection id `id` below the largest
-- `u64`, returns events for every input: it ends, no index is out of range, and it does not fail. The events lead by the state
-- machine from the router's lifecycle state to that of the new router, which keeps the invariant.
pub push-Lawful :
    (id : ℕ) (r : TmuxGatewayRouter) (bs : Bytes)
    → id < u64_max
    → IsRouted id r
    → Lawful id (lifecycle_state r) (push r bs)
unfolding lifecycle_state
push-Lawful id r bs bound h = rw (push-take_bytes r bs) (
    take_bytes-Lawful id (lifecycle_state r) bs (record { router = r; events = []; direct = [] })
      bound (record { routed = h; path = here; quiet = Quiet-nil r.active }))
