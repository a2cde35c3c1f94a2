-- ===== src/Scheduler/EventQueue.antt =====
-- The terminal effects that are queued, in src/output_scheduler.rs.
use lector.Prelude.{ℕ, Bool, not, ◌&&◌, ◌||◌, List, [], ◌∷◌, ◌++◌, any, ltb, ◌==◌, if◌then◌else◌}
use lector.Scheduler.Effects.{
  sat_add, TerminalEvent, TerminalEventKind, title_kind, working_directory_kind,
  terminal_event_kind, kind_eq, terminal_event_retained_bytes, bound_terminal_effect,
}
use lector.Scheduler.State.{
  ScheduledTerminalEffect, is_effect, ActiveTransaction, OutputScheduler, pending_bytes,
  retained_effect_bytes, note_pending,
}

-- The effect is of the owner and the kind.
is_like : ℕ → TerminalEventKind → ScheduledTerminalEffect → Bool
unfolding kind_eq terminal_event_kind
is_like owner kind pending =
    pending.owner == owner && kind_eq (terminal_event_kind pending.event) kind

unfoldable pub without_like :
    ℕ → TerminalEventKind → List ScheduledTerminalEffect → List ScheduledTerminalEffect
unfolding is_like
without_like owner kind [] = []
without_like owner kind (e ∷ es) =
    let rest = without_like owner kind es in if is_like owner kind e then rest else e ∷ rest

unfoldable pub without_first_like :
    ℕ → TerminalEventKind → List ScheduledTerminalEffect → List ScheduledTerminalEffect
unfolding is_like
without_first_like owner kind [] = []
without_first_like owner kind (e ∷ es) =
    let rest = without_first_like owner kind es in if is_like owner kind e then es else e ∷ rest

module _ {S B : Type 0} where
  -- An effect that has not begun and is of the owner and the kind goes.
  unfoldable pub without_active_like :
      ℕ → TerminalEventKind → List (ActiveTransaction S B) → List (ActiveTransaction S B)
  unfolding is_like
  without_active_like owner kind [] = []
  without_active_like owner kind (t ∷ ts) =
      let rest = without_active_like owner kind ts in
      if ltb 0 t.offset
        || not (is_effect t.kind)
        || not (any (is_like owner kind) t.completed_effects)
      then t ∷ rest
      else rest

  -- Only the newest title and working directory of an owner are kept.
  unfoldable pub supersede : OutputScheduler S B → ℕ → TerminalEventKind → OutputScheduler S B
  unfolding without_like without_active_like kind_eq
  supersede s owner kind =
      if kind_eq kind title_kind || kind_eq kind working_directory_kind
      then record s {
        pending_effects = without_like owner kind s.pending_effects;
        active = without_active_like owner kind s.active;
      }
      else s

  unfoldable pub make_room : OutputScheduler S B → ℕ → TerminalEventKind → ℕ → OutputScheduler S B
  unfolding retained_effect_bytes without_first_like
  make_room s owner kind retained =
      if ltb s.config.maximum_pending_bytes (sat_add (retained_effect_bytes s) retained)
      then record s { pending_effects = without_first_like owner kind s.pending_effects }
      else s

  unfoldable pub push_effect :
      OutputScheduler S B → ScheduledTerminalEffect → ℕ → OutputScheduler S B
  unfolding pending_bytes note_pending terminal_event_retained_bytes
  push_effect s effect now_ms =
      if ltb s.config.maximum_pending_bytes
        (sat_add (pending_bytes s) (terminal_event_retained_bytes effect.event))
      then s
      else record (note_pending s now_ms) { pending_effects = s.pending_effects ++ effect ∷ [] }

  unfoldable pub enqueue_terminal_effect :
      OutputScheduler S B → ℕ → TerminalEvent → ℕ → OutputScheduler S B
  unfolding bound_terminal_effect terminal_event_kind supersede make_room push_effect
      terminal_event_retained_bytes
  enqueue_terminal_effect s owner event now_ms =
      let bound = bound_terminal_effect event s.config.maximum_pending_bytes in
      let kind = terminal_event_kind bound in
      let room =
        make_room (supersede s owner kind) owner kind (terminal_event_retained_bytes bound) in
      push_effect room (record { owner = owner; event = bound }) now_ms
