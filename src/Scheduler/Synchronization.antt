-- ===== src/Scheduler/Synchronization.antt =====
-- The application's own synchronized output, and the deadlines, in src/output_scheduler.rs.
use lector.Prelude.{
  ℕ, min, Bool, true, false, not, ◌&&◌, ◌||◌, Option, none, some, List, [], ◌∷◌, is_empty, is_some,
  ◌==◌, if◌then◌else◌,
}
use lector.Scheduler.State.{
  OutputSchedulerConfig, ApplicationSynchronization, synchronizing, ignoring_until_close,
  ActiveTransaction, OutputScheduler, add_ms,
}

abbrev pub is_synchronizing : Option ApplicationSynchronization → Bool
is_synchronizing (some (synchronizing _ _)) = true
is_synchronizing (some ignoring_until_close) = false
is_synchronizing none = false

synchronization_deadline : OutputSchedulerConfig → Option ApplicationSynchronization → Option ℕ
synchronization_deadline c (some (synchronizing started last)) = some (
    min (add_ms last c.synchronization_timeout_ms)
      (add_ms started c.synchronization_hard_timeout_ms))
synchronization_deadline c (some ignoring_until_close) = none
synchronization_deadline c none = none

-- The earlier of the two, where there are two
earliest : Option ℕ → Option ℕ → Option ℕ
earliest none b = b
earliest (some a) none = some a
earliest (some a) (some b) = some (min a b)

module _ {S B : Type 0} where
  -- The application holds its output.
  unfoldable pub hold :
      OutputScheduler S B
      → Option ApplicationSynchronization
      → Bool
      → Bool
      → ℕ
      → OutputScheduler S B
  hold s (some ignoring_until_close) true activity now_ms = record s {
    application_synchronization = some (synchronizing now_ms now_ms);
    release_generation = none;
  }
  hold s (some (synchronizing started last)) opened true now_ms = record s {
    application_synchronization = some (synchronizing started now_ms);
  }
  hold s (some (synchronizing started last)) opened false now_ms = s
  hold s (some ignoring_until_close) false activity now_ms = s
  hold s none opened activity now_ms = record s {
    application_synchronization = some (synchronizing now_ms now_ms);
  }

  unfoldable pub observe_application_synchronization :
      OutputScheduler S B → Bool → Bool → Bool → ℕ → OutputScheduler S B
  unfolding hold
  observe_application_synchronization s true opened activity now_ms =
      hold s s.application_synchronization opened activity now_ms
  observe_application_synchronization s false opened activity now_ms = record s {
    application_synchronization = none;
    bypass_next_render = false;
    release_generation = none;
  }

  pub set_application_synchronization : OutputScheduler S B → Bool → Bool → ℕ → OutputScheduler S B
  unfolding observe_application_synchronization
  set_application_synchronization s synchronized opened now_ms =
      observe_application_synchronization s synchronized opened true now_ms

  pub set_application_synchronized : OutputScheduler S B → Bool → ℕ → OutputScheduler S B
  unfolding set_application_synchronization
  set_application_synchronized s synchronized now_ms =
      set_application_synchronization s synchronized false now_ms

  unfoldable pub set_application_synchronization_bypassed :
      OutputScheduler S B → Bool → OutputScheduler S B
  set_application_synchronization_bypassed s bypassed = record s {
    bypass_next_render = bypassed && is_some s.application_synchronization;
  }

  unfoldable pub recover : OutputScheduler S B → OutputScheduler S B
  recover s = record s { needs_reconciliation = false; waiting_for_writable = false }

  unfoldable pub notify_writable : OutputScheduler S B → OutputScheduler S B
  notify_writable s = record s { waiting_for_writable = false }

  pub application_synchronization_holds_output : OutputScheduler S B → Bool
  application_synchronization_holds_output s = is_synchronizing s.application_synchronization

  pub application_synchronization_is_ignored : OutputScheduler S B → Bool
  application_synchronization_is_ignored s = ignored s.application_synchronization
    where
      ignored : Option ApplicationSynchronization → Bool
      ignored (some ignoring_until_close) = true
      ignored (some (synchronizing _ _)) = false
      ignored none = false

  is_idle : OutputScheduler S B → Bool
  is_idle s =
      is_empty s.active
      && is_empty s.queued_bytes
      && not (is_some s.pending_render)
      && is_empty s.pending_effects
      && s.pending_bells == 0
      && not s.flush_required

  -- The front of the active transactions has not begun.
  unfoldable pub front_unstarted : List (ActiveTransaction S B) → Bool
  front_unstarted [] = false
  front_unstarted (t ∷ ts) = t.offset == 0

  hold_blocks : OutputScheduler S B → Bool
  unfolding front_unstarted
  hold_blocks s =
      is_synchronizing s.application_synchronization
      && not (is_some s.bypass_generation)
      && front_unstarted s.active

  latency_deadline : OutputScheduler S B → Option ℕ
  latency_deadline s = elim s.pending_since_ms [
    | none ↦ none
    | some started ↦ some (add_ms started s.config.latency_budget_ms)
  ]

  pub next_deadline_ms : OutputScheduler S B → Option ℕ
  unfolding synchronization_deadline is_idle hold_blocks earliest latency_deadline
  next_deadline_ms s =
      let deadline = synchronization_deadline s.config s.application_synchronization in
      if s.waiting_for_writable
      then none
      else if is_idle s
      then deadline
      else if (not (is_empty s.active) || s.flush_required) && not (hold_blocks s)
      then some 0
      else if not (is_some s.bypass_generation) && is_some deadline
      then deadline
      else earliest (latency_deadline s) deadline
