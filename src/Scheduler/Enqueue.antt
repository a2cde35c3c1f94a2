-- ===== src/Scheduler/Enqueue.antt =====
-- What the application queues, in src/output_scheduler.rs: bytes, renders, effects and bells, and the
-- state of the application's own synchronized output.
use lector.Prelude.{
  ℕ, Bool, true, false, ◌&&◌, ◌||◌, Option, none, some, List, [], ◌∷◌, ◌++◌, Bytes, is_empty,
  length, ltb, leb, if◌then◌else◌,
}
use lector.Scheduler.Effects.{sat_add}
use lector.Scheduler.State.{
  ScheduledOutputClass, control_class, PendingBytes, control_backlog_limit_bytes, is_control,
  PendingRender, TrackedRender, ActiveTransaction, OutputScheduler, is_generation, pending_bytes,
  control_bytes, note_pending,
}

-- `last.class == class`
same_class : ScheduledOutputClass → ScheduledOutputClass → Bool
same_class control_class control_class = true

-- `back_mut()` is extended, or the bytes are pushed behind it.
unfoldable pub push_queued :
    ℕ → ScheduledOutputClass → Bytes → List PendingBytes → List PendingBytes
unfolding same_class
push_queued maximum class bs [] = record { class = class; bytes = bs } ∷ []
push_queued maximum class bs (p ∷ []) =
    if same_class p.class class && leb (sat_add (length p.bytes) (length bs)) maximum
    then record p { bytes = p.bytes ++ bs } ∷ []
    else p ∷ record { class = class; bytes = bs } ∷ []
push_queued maximum class bs (p ∷ q ∷ ps) = p ∷ push_queued maximum class bs (q ∷ ps)

module _ {S B : Type 0} where
  -- A generation that ends a hold of the application's synchronization
  unfoldable pub is_boundary : OutputScheduler S B → ℕ → Bool
  is_boundary s generation =
      is_generation s.release_generation generation || is_generation s.bypass_generation generation

  unfoldable pub keep_render :
      OutputScheduler S B → Option (PendingRender S B) → Option (PendingRender S B)
  unfolding is_boundary
  keep_render s none = none
  keep_render s (some r) = if is_boundary s r.generation then some r else none

  unfoldable pub completes_boundary : OutputScheduler S B → Option (TrackedRender S B) → Bool
  unfolding is_boundary
  completes_boundary s none = false
  completes_boundary s (some r) = is_boundary s r.generation

  -- What is kept of the active transactions when visual work is discarded
  unfoldable pub keep_active :
      OutputScheduler S B → List (ActiveTransaction S B) → List (ActiveTransaction S B)
  unfolding completes_boundary
  keep_active s [] = []
  keep_active s (t ∷ ts) =
      let rest = keep_active s ts in
      if ltb 0 t.offset || is_control t.kind || completes_boundary s t.completed_render
      then t ∷ rest
      else rest

  unfoldable pub discard_visual : OutputScheduler S B → OutputScheduler S B
  unfolding keep_render keep_active
  discard_visual s = record s {
    pending_render = keep_render s s.pending_render;
    pending_effects = [];
    pending_bells = 0;
    active = keep_active s s.active;
  }

  unfoldable pub queue_bytes :
      OutputScheduler S B → ScheduledOutputClass → Bytes → ℕ → OutputScheduler S B
  unfolding note_pending push_queued
  queue_bytes s class bs now_ms = record (note_pending s now_ms) {
    queued_bytes = push_queued s.config.maximum_pending_bytes class bs s.queued_bytes;
  }

  -- `self.pending_bytes().saturating_add(len) > self.config.maximum_pending_bytes`
  unfoldable pub exceeds : OutputScheduler S B → ℕ → Bool
  unfolding pending_bytes
  exceeds s len = ltb s.config.maximum_pending_bytes (sat_add (pending_bytes s) len)

  -- The bytes are dropped if they do not fit behind the discarding.
  unfoldable pub queue_if_fits :
      OutputScheduler S B → ScheduledOutputClass → Bytes → ℕ → OutputScheduler S B
  unfolding exceeds queue_bytes
  queue_if_fits s class bs now_ms =
      if exceeds s (length bs) then s else queue_bytes s class bs now_ms

  unfoldable pub over_backlog : OutputScheduler S B → ℕ → Bool
  unfolding control_bytes
  over_backlog s len =
      ltb control_backlog_limit_bytes len
      || ltb control_backlog_limit_bytes (sat_add (control_bytes s) len)

  unfoldable pub enqueue_bytes :
      OutputScheduler S B → ScheduledOutputClass → Bytes → ℕ → OutputScheduler S B
  unfolding over_backlog exceeds discard_visual queue_if_fits queue_bytes
  enqueue_bytes s class bs now_ms =
      if is_empty bs
      then s
      else if over_backlog s (length bs)
      then s
      else if exceeds s (length bs)
      then queue_if_fits (discard_visual s) class bs now_ms
      else queue_bytes s class bs now_ms

  unfoldable pub keep_started : List (ActiveTransaction S B) → List (ActiveTransaction S B)
  keep_started [] = []
  keep_started (t ∷ ts) = let rest = keep_started ts in if ltb 0 t.offset then t ∷ rest else rest

  unfoldable pub prepare_for_lifecycle_cleanup : OutputScheduler S B → OutputScheduler S B
  unfolding keep_started
  prepare_for_lifecycle_cleanup s = record s {
    queued_bytes = [];
    pending_render = none;
    pending_effects = [];
    pending_bells = 0;
    active = keep_started s.active;
    awaiting_flush_renders = [];
    application_synchronization = none;
    bypass_next_render = false;
    bypass_generation = none;
    release_generation = none;
    pending_since_ms =
        if is_empty (keep_started s.active) && is_empty s.awaiting_flush_effects
        then none
        else s.pending_since_ms;
  }
