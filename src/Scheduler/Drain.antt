-- ===== src/Scheduler/Drain.antt =====
-- `drain_ready` in src/output_scheduler.rs.
use lector.Prelude.{
  ℕ, max, Bool, true, false, not, ◌&&◌, ◌||◌, Option, none, some, List, [], ◌∷◌, is_empty, is_some,
  ltb, leb, ◌==◌, if◌then◌else◌,
}
use lector.Scheduler.State.{
  ApplicationSynchronization, synchronizing, ignoring_until_close, TrackedRender, ActiveTransaction,
  OutputScheduler, add_ms,
}
use lector.Scheduler.Activation.{activate_pending}
use lector.Scheduler.Writing.{
  LoopLimits, LoopEnd, stopped, loop_blocked, loop_failed, Loop, write_loop, pop_completed,
}
use lector.Scheduler.Completion.{
  Writer, DrainReport, Drained, reported, failed, empty_report, Progress, goes_on, returns, fails,
  fail, complete_awaiting_renders, flush_if_required,
}

is_early : ℕ → ℕ → Option ℕ → Bool
is_early now_ms latency none = false
is_early now_ms latency (some started) = ltb now_ms (add_ms started latency)

module _ {S B : Type 0} where
  -- The generation that a timeout releases: of the pending render, else of the last active one, else of
  -- the last that awaits its flush
  last_active_generation : List (ActiveTransaction S B) → Option ℕ
  last_active_generation [] = none
  last_active_generation (t ∷ ts) = elim (last_active_generation ts) [
    | some generation ↦ some generation
    | none ↦ elim t.completed_render [ none ↦ none | some r ↦ some r.generation ]
  ]

  last_awaiting_generation : List (TrackedRender S B) → Option ℕ
  last_awaiting_generation [] = none
  last_awaiting_generation (r ∷ []) = some r.generation
  last_awaiting_generation (r ∷ q ∷ rs) = last_awaiting_generation (q ∷ rs)

  pub released_generation : OutputScheduler S B → Option ℕ
  unfolding last_active_generation last_awaiting_generation
  released_generation s = elim s.pending_render [
    | some r ↦ some r.generation
    | none ↦ elim (last_active_generation s.active) [
      | some generation ↦ some generation
      | none ↦ last_awaiting_generation s.awaiting_flush_renders
    ]
  ]

  pub timed_out : OutputScheduler S B → ℕ → ℕ → ℕ → Bool
  timed_out s now_ms started last =
      leb (add_ms last s.config.synchronization_timeout_ms) now_ms
      || leb (add_ms started s.config.synchronization_hard_timeout_ms) now_ms

  -- `self.active.front().is_some_and(|transaction| transaction.offset > 0)`
  pub front_started : List (ActiveTransaction S B) → Bool
  front_started [] = false
  front_started (t ∷ ts) = ltb 0 t.offset

  -- The hold of the application is over.
  unfoldable pub release :
      OutputScheduler S B → DrainReport S B → OutputScheduler S B × DrainReport S B
  unfolding released_generation
  release s r = (
    record s {
      application_synchronization = some ignoring_until_close;
      release_generation = released_generation s;
    },
    if is_some (released_generation s) then r else record r { synchronization_timed_out = true },
  )

-- What the hold of the application lets the drain do
pub data Allowed : Type 0 where
  nothing only_started everything : Allowed

module _ {S B : Type 0} where
  unfoldable pub with_allowed :
      Allowed
      → OutputScheduler S B × DrainReport S B
      → Allowed × OutputScheduler S B × DrainReport S B
  with_allowed allowed (s, r) = (allowed, s, r)

  unfoldable pub held :
      OutputScheduler S B
      → DrainReport S B
      → Bool
      → Bool
      → Allowed × OutputScheduler S B × DrainReport S B
  unfolding front_started release with_allowed
  held s r force over =
      if not force && not over && not (is_some s.bypass_generation)
      then (if front_started s.active then only_started else nothing, s, r)
      else with_allowed everything (if over then release s r else (s, r))

  unfoldable pub observe_hold :
      OutputScheduler S B
      → DrainReport S B
      → ℕ
      → Bool
      → Option ApplicationSynchronization
      → Allowed × OutputScheduler S B × DrainReport S B
  unfolding held timed_out
  observe_hold s r now_ms force (some (synchronizing started last)) =
      held s r force (timed_out s now_ms started last)
  observe_hold s r now_ms force (some ignoring_until_close) = (everything, s, r)
  observe_hold s r now_ms force none = (everything, s, r)

  -- The latency budget of pending work is not over.
  unfoldable pub waits_for_latency : OutputScheduler S B → ℕ → Bool → Bool
  unfolding is_early
  waits_for_latency s now_ms force =
      not force
      && is_empty s.active
      && is_early now_ms s.config.latency_budget_ms s.pending_since_ms

  -- `active`, what awaits the flush, and the flag, behind the loop
  unfoldable pub store_loop : OutputScheduler S B → Loop S B → OutputScheduler S B
  store_loop s l = record s {
    active = l.active;
    awaiting_flush_renders = l.awaiting_renders;
    awaiting_flush_effects = l.awaiting_effects;
    flush_required = l.flush_required;
  }

  unfoldable pub has_boundary_work : OutputScheduler S B → Bool
  has_boundary_work s =
      not (is_empty s.active)
      || not (is_empty s.queued_bytes)
      || is_some s.pending_render
      || not (is_empty s.pending_effects)
      || not (s.pending_bells == 0)

  unfoldable pub report_all :
      OutputScheduler S B × DrainReport S B → Writer → OutputScheduler S B × Writer × Drained S B
  unfolding has_boundary_work
  report_all (s, r) w = (s, w, reported (record r { write_budget_exhausted = has_boundary_work s }))

  -- Behind the last flush
  unfoldable pub finish_drain : Progress S B → OutputScheduler S B × Writer × Drained S B
  unfolding complete_awaiting_renders report_all
  finish_drain (goes_on s r w) =
      report_all (if s.flush_required then (s, r) else complete_awaiting_renders s r) w
  finish_drain (returns s r w) = (s, w, reported r)
  finish_drain (fails s reason w) = (s, w, failed reason)

  -- Behind the loop of writes
  unfoldable pub after_writes :
      OutputScheduler S B
      → DrainReport S B
      → Writer
      → LoopEnd
      → Loop S B
      → OutputScheduler S B × Writer × Drained S B
  unfolding store_loop fail finish_drain flush_if_required pop_completed
  after_writes s r w (loop_failed reason) l = (fail (store_loop s l), w, failed reason)
  after_writes s r w loop_blocked l = (
    record (store_loop s l) { waiting_for_writable = true },
    w,
    reported (record r { bytes_written = l.bytes_written; blocked = true }),
  )
  after_writes s r w (stopped true) l =
      finish_drain
        (flush_if_required (store_loop s l) (record r { bytes_written = l.bytes_written }) w)
  after_writes s r w (stopped false) l = finish_drain (
      flush_if_required (store_loop s (pop_completed s.bypass_generation l.active l))
        (record r { bytes_written = l.bytes_written }) w)

  abbrev pub initial_loop : OutputScheduler S B → DrainReport S B → Writer → Loop S B
  initial_loop s r w = record {
    active = s.active;
    awaiting_renders = s.awaiting_flush_renders;
    awaiting_effects = s.awaiting_flush_effects;
    bytes_written = r.bytes_written;
    flush_required = s.flush_required;
    output = w.output;
  }

  abbrev pub limits : OutputScheduler S B → Bool → LoopLimits
  limits s started_only = record {
    budget = max s.config.write_budget_bytes 1;
    started_only = started_only;
    bypass_generation = s.bypass_generation;
  }

  unfoldable pub write_active :
      OutputScheduler S B
      → DrainReport S B
      → Writer
      → Bool
      → OutputScheduler S B × Writer × Drained S B
  unfolding write_loop after_writes
  write_active s r w started_only =
      let (ending, writes, l) =
        write_loop (limits s started_only) w.writes s.active (initial_loop s r w) in
      after_writes s r (record w { writes = writes; output = l.output }) ending l

  unfoldable pub drain_allowed :
      OutputScheduler S B
      → DrainReport S B
      → Writer
      → ℕ
      → Bool
      → Allowed
      → OutputScheduler S B × Writer × Drained S B
  unfolding waits_for_latency activate_pending write_active
  drain_allowed s r w now_ms force nothing = (s, w, reported r)
  drain_allowed s r w now_ms force only_started =
      if waits_for_latency s now_ms force
      then (s, w, reported r)
      else write_active (activate_pending s) r w true
  drain_allowed s r w now_ms force everything =
      if waits_for_latency s now_ms force
      then (s, w, reported r)
      else write_active (activate_pending s) r w false

  -- Behind the first flush
  unfoldable pub drain_flushed :
      ℕ → Bool → Progress S B → OutputScheduler S B × Writer × Drained S B
  unfolding observe_hold drain_allowed
  drain_flushed now_ms force (goes_on s r w) =
      let (allowed, s', r') = observe_hold s r now_ms force s.application_synchronization in
      drain_allowed s' r' w now_ms force allowed
  drain_flushed now_ms force (returns s r w) = (s, w, reported r)
  drain_flushed now_ms force (fails s reason w) = (s, w, failed reason)

  unfoldable pub drain_ready :
      OutputScheduler S B → ℕ → Bool → Writer → OutputScheduler S B × Writer × Drained S B
  unfolding drain_flushed flush_if_required
  drain_ready s now_ms force w =
      if s.needs_reconciliation
      then (s, w, reported empty_report)
      else if s.waiting_for_writable && not force
      then (s, w, reported empty_report)
      else drain_flushed now_ms force (
          flush_if_required
            (record s { waiting_for_writable = if force then false else s.waiting_for_writable })
            empty_report w)
