-- ===== src/Scheduler/State.antt =====
-- The state of `OutputScheduler` in src/output_scheduler.rs, and what is read from it. The presented
-- scene and the accessibility bundle of a render are only carried, and are two parameters. The sums over
-- the queues are those of the lengths, which fit a `usize` since the bytes are in memory.
use lector.Prelude.{
  ℕ, ◌+◌, ◌-◌, ◌*◌, ◌^◌, min, Bool, true, false, not, ◌&&◌, ◌||◌, Option, none, some, List, [], ◌∷◌,
  Bytes, is_empty, is_some, any, length, drop, ltb, ◌==◌, if◌then◌else◌,
}
use lector.Scheduler.Effects.{sat_add, TerminalEvent, terminal_event_retained_bytes}

abbrev pub control_backlog_limit_bytes : ℕ
control_backlog_limit_bytes = 64 * 1024

pub record OutputSchedulerConfig : Type 0 where
  pub latency_budget_ms : ℕ
  pub synchronization_timeout_ms : ℕ
  pub synchronization_hard_timeout_ms : ℕ
  pub write_budget_bytes : ℕ
  pub maximum_pending_bytes : ℕ

abbrev pub default_config : OutputSchedulerConfig
default_config = record {
  latency_budget_ms = 0;
  synchronization_timeout_ms = 100;
  synchronization_hard_timeout_ms = 2_000;
  write_budget_bytes = 64 * 1024;
  maximum_pending_bytes = 2 * 1024 * 1024;
}

-- `u128::saturating_add` of times
abbrev pub add_ms : ℕ → ℕ → ℕ
add_ms a b = min (a + b) (2 ^ 128 - 1)

pub data ScheduledOutputClass : Type 0 where
  control_class : ScheduledOutputClass

pub data EnqueueOutcome : Type 0 where
  queued replaced_obsolete_render dropped_for_capacity : EnqueueOutcome

pub record PendingBytes : Type 0 where
  pub class : ScheduledOutputClass
  pub bytes : Bytes

pub record ScheduledTerminalEffect : Type 0 where
  pub owner : ℕ
  pub event : TerminalEvent

pub data ActiveTransactionKind : Type 0 where
  control render effect bells : ActiveTransactionKind

abbrev pub is_control : ActiveTransactionKind → Bool
is_control control = true
is_control _ = false

abbrev pub is_render : ActiveTransactionKind → Bool
is_render render = true
is_render _ = false

abbrev pub is_effect : ActiveTransactionKind → Bool
is_effect effect = true
is_effect _ = false

abbrev pub is_bells : ActiveTransactionKind → Bool
is_bells bells = true
is_bells _ = false

pub data ApplicationSynchronization : Type 0 where
  -- started_ms, last_activity_ms
  synchronizing : ℕ → ℕ → ApplicationSynchronization
  ignoring_until_close : ApplicationSynchronization

module _ (Scene Bundle : Type 0) where
  -- The bytes of the transactions, without their resizes, which the scheduler does not read.
  pub record RenderBatch : Type 0 where
    pub transactions : List Bytes
    pub predicted : Scene

  pub record PendingRender : Type 0 where
    pub batch : RenderBatch
    pub byte_len : ℕ
    pub generation : ℕ
    pub accessibility : Bundle

  pub record TrackedRender : Type 0 where
    pub predicted : Scene
    pub generation : ℕ
    pub accessibility : Bundle

  pub record ActiveTransaction : Type 0 where
    pub kind : ActiveTransactionKind
    pub bytes : Bytes
    pub offset : ℕ
    pub completed_render : Option TrackedRender
    pub completed_effects : List ScheduledTerminalEffect

  pub record OutputScheduler : Type 0 where
    pub config : OutputSchedulerConfig
    pub synchronized_output_supported : Bool
    pub queued_bytes : List PendingBytes
    pub pending_render : Option PendingRender
    pub pending_effects : List ScheduledTerminalEffect
    pub pending_bells : ℕ
    pub pending_since_ms : Option ℕ
    pub active : List ActiveTransaction
    pub awaiting_flush_renders : List TrackedRender
    pub awaiting_flush_effects : List ScheduledTerminalEffect
    pub flush_required : Bool
    pub waiting_for_writable : Bool
    pub application_synchronization : Option ApplicationSynchronization
    pub bypass_next_render : Bool
    pub bypass_generation : Option ℕ
    pub next_render_generation : ℕ
    pub release_generation : Option ℕ
    pub needs_reconciliation : Bool

-- `Some(generation) == other`
abbrev pub is_generation : Option ℕ → ℕ → Bool
is_generation none generation = false
is_generation (some other) generation = other == generation

-- Sums over the queues
unfoldable pub sum_queued : List PendingBytes → ℕ
sum_queued [] = 0
sum_queued (p ∷ ps) = length p.bytes + sum_queued ps

unfoldable pub sum_effects : List ScheduledTerminalEffect → ℕ
sum_effects [] = 0
sum_effects (e ∷ es) = terminal_event_retained_bytes e.event + sum_effects es

module _ {Scene Bundle : Type 0} where
  unfoldable pub new : OutputSchedulerConfig → Bool → OutputScheduler Scene Bundle
  new config supported = record {
    config = config;
    synchronized_output_supported = supported;
    queued_bytes = [];
    pending_render = none;
    pending_effects = [];
    pending_bells = 0;
    pending_since_ms = none;
    active = [];
    awaiting_flush_renders = [];
    awaiting_flush_effects = [];
    flush_required = false;
    waiting_for_writable = false;
    application_synchronization = none;
    bypass_next_render = false;
    bypass_generation = none;
    next_render_generation = 1;
    release_generation = none;
    needs_reconciliation = false;
  }

  abbrev pub remaining : ActiveTransaction Scene Bundle → Bytes
  remaining t = drop t.offset t.bytes

  abbrev pub remaining_len : ActiveTransaction Scene Bundle → ℕ
  remaining_len t = length t.bytes - t.offset

  -- The generation of the render that a transaction completes is the one given.
  unfoldable pub completes : Option ℕ → Option (TrackedRender Scene Bundle) → Bool
  completes generation none = false
  completes generation (some r) = is_generation generation r.generation

  unfoldable pub sum_active : List (ActiveTransaction Scene Bundle) → ℕ
  sum_active [] = 0
  sum_active (t ∷ ts) = remaining_len t + sum_active ts

  unfoldable pub render_len : Option (PendingRender Scene Bundle) → ℕ
  render_len none = 0
  render_len (some r) = r.byte_len

  unfoldable pub pending_bytes : OutputScheduler Scene Bundle → ℕ
  unfolding sum_active sum_queued render_len sum_effects
  pending_bytes s =
      sat_add
        (sat_add
          (sat_add (sat_add (sum_active s.active) (sum_queued s.queued_bytes))
            (render_len s.pending_render))
          (sum_effects s.pending_effects))
        s.pending_bells

  unfoldable pub sum_control : List (ActiveTransaction Scene Bundle) → ℕ
  sum_control [] = 0
  sum_control (t ∷ ts) =
      let rest = sum_control ts in if is_control t.kind then remaining_len t + rest else rest

  unfoldable pub control_bytes : OutputScheduler Scene Bundle → ℕ
  unfolding sum_control sum_queued
  control_bytes s = sat_add (sum_queued s.queued_bytes) (sum_control s.active)

  unfoldable pub sum_active_effects : List (ActiveTransaction Scene Bundle) → ℕ
  unfolding sum_effects
  sum_active_effects [] = 0
  sum_active_effects (t ∷ ts) = sum_effects t.completed_effects + sum_active_effects ts

  unfoldable pub retained_effect_bytes : OutputScheduler Scene Bundle → ℕ
  unfolding sum_active_effects sum_effects
  retained_effect_bytes s =
      sum_effects s.pending_effects
      + sum_effects s.awaiting_flush_effects
      + sum_active_effects s.active

  count_active_effects : List (ActiveTransaction Scene Bundle) → ℕ
  count_active_effects [] = 0
  count_active_effects (t ∷ ts) = length t.completed_effects + count_active_effects ts

  pub pending_effect_count : OutputScheduler Scene Bundle → ℕ
  unfolding count_active_effects
  pending_effect_count s =
      length s.pending_effects + length s.awaiting_flush_effects + count_active_effects s.active

  pub has_render_work : OutputScheduler Scene Bundle → Bool
  has_render_work s =
      is_some s.pending_render
      || not (is_empty s.awaiting_flush_renders)
      || any (λ (t : ActiveTransaction Scene Bundle). is_render t.kind) s.active

  pub has_started_render_work : OutputScheduler Scene Bundle → Bool
  has_started_render_work s =
      not (is_empty s.awaiting_flush_renders)
      || any (λ (t : ActiveTransaction Scene Bundle). is_render t.kind && ltb 0 t.offset) s.active

  -- `self.pending_since_ms.get_or_insert(now_ms)`
  unfoldable pub note_pending : OutputScheduler Scene Bundle → ℕ → OutputScheduler Scene Bundle
  note_pending s now_ms = record s { pending_since_ms = noted s.pending_since_ms }
    where
      noted : Option ℕ → Option ℕ
      noted none = some now_ms
      noted (some started) = some started
