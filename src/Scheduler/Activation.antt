-- ===== src/Scheduler/Activation.antt =====
-- What becomes active in src/output_scheduler.rs: the order of the pending work, and the bytes of each.
use lector.Prelude.{
  ℕ, zero, suc, Bool, true, false, not, Option, none, some, List, [], ◌∷◌, ◌++◌, Bytes, is_empty,
  if◌then◌else◌,
}
use lector.Scheduler.Effects.{encode_terminal_effect}
use lector.Scheduler.Markers.{
  synchronized_output_start, synchronized_output_end, contains_synchronization_marker,
  append_without_synchronization_markers,
}
use lector.Scheduler.State.{
  PendingBytes, ScheduledTerminalEffect, control, render, effect, bells, PendingRender,
  ActiveTransaction, OutputScheduler,
}

unfoldable pub append_all : Bytes → List Bytes → Bytes
unfolding append_without_synchronization_markers
append_all target [] = target
append_all target (t ∷ ts) = append_all (append_without_synchronization_markers target t) ts

unfoldable pub single : Bytes → Bytes
unfolding contains_synchronization_marker append_without_synchronization_markers
single t =
    if contains_synchronization_marker t then append_without_synchronization_markers [] t else t

-- The bytes of a render when it is activated
unfoldable pub render_bytes : Bool → List Bytes → Bytes
unfolding append_all single
render_bytes true ts = append_all synchronized_output_start ts ++ synchronized_output_end
render_bytes false (t ∷ []) = single t
render_bytes false [] = []
render_bytes false (t ∷ u ∷ ts) = append_all [] (t ∷ u ∷ ts)

-- `vec![b'\x07'; count]`
unfoldable pub bell_bytes : ℕ → Bytes
bell_bytes zero = []
bell_bytes (suc n) = 7 ∷ bell_bytes n

module _ {S B : Type 0} where
  unfoldable pub activate_bytes : List PendingBytes → List (ActiveTransaction S B)
  activate_bytes [] = []
  activate_bytes (p ∷ ps) =
      record {
        kind = control;
        bytes = p.bytes;
        offset = 0;
        completed_render = none;
        completed_effects = [];
      }
      ∷ activate_bytes ps

  unfoldable pub activate_effects : List ScheduledTerminalEffect → List (ActiveTransaction S B)
  unfolding encode_terminal_effect
  activate_effects [] = []
  activate_effects (e ∷ es) =
      record {
        kind = effect;
        bytes = encode_terminal_effect e.event;
        offset = 0;
        completed_render = none;
        completed_effects = e ∷ [];
      }
      ∷ activate_effects es

  unfoldable pub activate_render : Bool → Option (PendingRender S B) → List (ActiveTransaction S B)
  unfolding render_bytes
  activate_render supported none = []
  activate_render supported (some r) =
      record {
        kind = render;
        bytes = render_bytes supported r.batch.transactions;
        offset = 0;
        completed_render = some (record {
          predicted = r.batch.predicted;
          generation = r.generation;
          accessibility = r.accessibility;
        });
        completed_effects = [];
      }
      ∷ []

  unfoldable pub activate_bells : ℕ → List (ActiveTransaction S B)
  unfolding bell_bytes
  activate_bells zero = []
  activate_bells (suc n) =
      record {
        kind = bells;
        bytes = bell_bytes (suc n);
        offset = 0;
        completed_render = none;
        completed_effects = [];
      }
      ∷ []

  -- The transactions that the pending work becomes
  unfoldable pub pending_transactions : OutputScheduler S B → List (ActiveTransaction S B)
  unfolding activate_bytes activate_effects activate_render activate_bells
  pending_transactions s =
      activate_bytes s.queued_bytes
      ++ (activate_effects s.pending_effects
          ++ (activate_render s.synchronized_output_supported s.pending_render
              ++ activate_bells s.pending_bells))

  unfoldable pub activate_pending : OutputScheduler S B → OutputScheduler S B
  unfolding pending_transactions
  activate_pending s = if not (is_empty s.active) then s else record s {
    active = pending_transactions s;
    queued_bytes = [];
    pending_effects = [];
    pending_render = none;
    pending_bells = 0;
    pending_since_ms = none;
  }
