-- ===== src/Gateway/Detection.antt =====
-- The marker filter of `push` in src/tmux_gateway.rs on the marker, behind any prefix of it.
use lector.Prelude.{
  ℕ, zero, suc, ◌+◌, ◌<◌, ◌≡◌, refl, sym, ap, ◌∙◌, subst, false, Option, none, some, List, [], ◌∷◌,
  ◌++◌, Bytes, bytes, arith, u64_max, leb, length, take, append-nil,
}
use lector.Control.Data.{started}
use lector.Control.Parser
use lector.Gateway.Router.{
  control_start_marker, GatewayEvent, connection_started, control, ActiveControl, TmuxGatewayRouter,
}
use lector.Gateway.Iteration.{
  Loop, consumed, emit_direct, start_connection, fresh_control, direct_round, round_in, round,
  Outcome, pushed, push,
}
use lector.Gateway.Rounds.{
  again_once, take_byte, take_bytes, continue_take, take_bytes-cons, push-take_bytes,
}
use lector.Gateway.Items.{emitted, emit_direct-emitted}
use lector.Gateway.Lifecycle.{Connected, IsRouted}
use lector.Gateway.Totality.{marker-Parser}
use lector.Gateway.Transparency.{idle}

-- The first byte of the marker releases whatever prefix there is.
restart :
    (id n : ℕ) (d : Bytes)
    → n < length control_start_marker
    → take_byte (idle id (take n control_start_marker) [] d) 0x1b
      ≡ consumed (idle id (0x1b ∷ []) [] (d ++ take n control_start_marker))
unfolding take_byte round round_in direct_round
restart id zero d h = ap (λ x. consumed (idle id (0x1b ∷ []) [] x)) (sym (append-nil d))
restart id (suc zero) d h = refl
restart id (suc (suc zero)) d h = refl
restart id (suc (suc (suc zero))) d h = refl
restart id (suc (suc (suc (suc zero)))) d h = refl
restart id (suc (suc (suc (suc (suc zero))))) d h = refl
restart id (suc (suc (suc (suc (suc (suc zero)))))) d h = refl
restart id (suc (suc (suc (suc (suc (suc (suc n))))))) d h = absurd (omega arith)

-- The connection `id` has started, behind the events `e`.
abbrev pub started_in : ℕ → List GatewayEvent → Loop
started_in id e = record {
  router = record {
    marker_prefix = [];
    active = some (fresh_control id (Parser.push Parser.new control_start_marker).1);
    next_connection_id = id + 1;
  };
  events = e ++ connection_started id ∷ control id started ∷ [];
  direct = [];
}

start_connection-started :
    (id : ℕ) (e : List GatewayEvent)
    → id < u64_max
    → start_connection (idle id [] e []) ≡ consumed (started_in id e)
unfolding start_connection
start_connection-started id e bound =
    let fits : leb u64_max id ≡ false = ground arith in rw (fits, marker-Parser.1) refl

abbrev cleared : Loop → Loop
cleared l = record l { router = record l.router { marker_prefix = [] } }

abbrev almost : Bytes
almost = take 6 control_start_marker

last_round :
    (id : ℕ) (d : Bytes)
    → id < u64_max
    → round (idle id almost [] d) b'p' ≡ consumed (started_in id (emitted [] d))
unfolding round round_in direct_round
last_round id d bound =
    ap (λ l. start_connection (cleared l)) (emit_direct-emitted (idle id almost [] d).router [] d)
    ∙ start_connection-started id (emitted [] d) bound

last_byte :
    (id : ℕ) (d : Bytes)
    → id < u64_max
    → take_byte (idle id almost [] d) b'p' ≡ consumed (started_in id (emitted [] d))
unfolding take_byte
last_byte id d bound =
    ap (λ m. again_once m λ l1. again_once (round l1 b'p') λ l2. round l2 b'p')
      (last_round id d bound)

middle_bytes :
    (id : ℕ) (d : Bytes)
    → take_bytes (idle id (0x1b ∷ []) [] d) (bytes "P1000p")
      ≡ take_bytes (idle id almost [] d) (bytes "p")
unfolding take_bytes take_byte round round_in direct_round
middle_bytes id d = refl

finished : (l : Loop) → l.direct ≡ [] → take_bytes l [] ≡ some (pushed l.events l.router)
unfolding take_bytes emit_direct
finished l h = rw h refl

-- In direct mode, in a router that keeps the invariant and whose id is below the largest `u64`,
-- whatever prefix of the marker is kept, pushing the marker starts the connection `id`: the kept bytes
-- are released as direct output, then come the start and the parser's first event, and the router
-- holds a fresh parser that has taken the marker.
pub push-control_start_marker :
    (id : ℕ) (r : TmuxGatewayRouter)
    → id < u64_max
    → IsRouted id r
    → r.active ≡ none
    → push r control_start_marker
      ≡ some (pushed (started_in id (emitted [] r.marker_prefix)).events (started_in id []).router)
push-control_start_marker id r bound h direct_mode =
    let next_id : r.next_connection_id ≡ id =
      subst (λ o. Connected id o r.next_connection_id r.marker_prefix) direct_mode h.connected in
    let held : r.marker_prefix ≡ take (length r.marker_prefix) control_start_marker = h.is_prefix in
    let at : Bytes → Option ActiveControl → ℕ → Option Outcome = λ prefix o n.
      take_bytes
        (record {
          router = record { marker_prefix = prefix; active = o; next_connection_id = n };
          events = [];
          direct = [];
        })
        control_start_marker in
    let start : Loop = idle id (take (length r.marker_prefix) control_start_marker) [] [] in
    push-take_bytes r control_start_marker
    ∙ ap (λ xs. at xs r.active r.next_connection_id) held
    ∙ ap (λ o. at (take (length r.marker_prefix) control_start_marker) o r.next_connection_id)
        direct_mode
    ∙ ap (λ n. at (take (length r.marker_prefix) control_start_marker) none n) next_id
    ∙ take_bytes-cons start 0x1b (bytes "P1000p")
    ∙ ap (continue_take (bytes "P1000p")) (restart id (length r.marker_prefix) [] h.is_proper)
    ∙ middle_bytes id (take (length r.marker_prefix) control_start_marker)
    ∙ take_bytes-cons _ b'p' []
    ∙ ap (continue_take [])
        (last_byte id (take (length r.marker_prefix) control_start_marker) bound)
    ∙ finished (started_in id _) refl
    ∙ ap (λ xs. some (pushed (started_in id (emitted [] xs)).events (started_in id []).router))
        (sym held)
