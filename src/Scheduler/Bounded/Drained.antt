-- ===== src/Scheduler/Bounded/Drained.antt =====
-- The bound, when src/output_scheduler.rs drains.
use lector.Prelude.{
  ℕ, ◌+◌, ◌≤◌, ◌<◌, ◌≡◌, Bool, true, false, not, ◌&&◌, Option, none, some, List, ◌∷◌, ◌++◌, arith,
  usize_max, Bytes, if◌then◌else◌, if_cases, is_empty, is_some,
}
use lector.Scheduler.State.{
  TrackedRender, ApplicationSynchronization, synchronizing, ignoring_until_close, ActiveTransaction,
  OutputScheduler, sum_active, remaining,
}
use lector.Scheduler.Activation.{activate_pending}
use lector.Scheduler.Completion.{
  Writer, DrainReport, Drained, reported, empty_report, Progress, goes_on, returns, fails,
  flush_if_required,
}
use lector.Scheduler.Writing.{
  await_render, advance, LoopEnd, stopped, loop_blocked, loop_failed, Loop, write_loop,
  pop_completed,
}
use lector.Scheduler.Drain.{
  Allowed, nothing, only_started, everything, observe_hold, held, release, with_allowed,
  waits_for_latency, store_loop, after_writes, initial_loop, limits, write_active, drain_allowed,
  drain_flushed, drain_ready, front_started, timed_out,
}
use lector.Scheduler.Loops.{write_loop-Holds, pop_completed-Holds}
use lector.Scheduler.Capacity.{total, IsBounded}
use lector.Scheduler.Bounded.Activated.{activate_pending-IsBounded}
use lector.Scheduler.Bounded.Flushed.{
  BoundedEnd, Keeps, keeps_on, keeps_back, keeps_broken, fail-IsBounded, flush_if_required-Keeps,
  finish_drain-IsBounded,
}

module _ {S B : Type 0} where
  -- The loops add no bytes.
  Shrinks : ℕ → List (ActiveTransaction S B) → List (TrackedRender S B) → Bytes → Type 0
  Shrinks before ts renders output = sum_active ts ≤ before

  popped-Shrinks :
      (before : ℕ) (t : ActiveTransaction S B) (ts : List (ActiveTransaction S B))
      (renders : List (TrackedRender S B)) (output : Bytes)
      → is_empty (remaining t) ≡ true
      → Shrinks before (t ∷ ts) renders output
      → Shrinks before ts (await_render t.completed_render renders) output
  unfolding Shrinks sum_active
  popped-Shrinks before t ts renders output e h = omega (arith, h)

  written-Shrinks :
      (before : ℕ) (t : ActiveTransaction S B) (ts : List (ActiveTransaction S B))
      (renders : List (TrackedRender S B)) (output taken : Bytes)
      → taken ++ remaining (advance taken t) ≡ remaining t
      → Shrinks before (t ∷ ts) renders output
      → Shrinks before (advance taken t ∷ ts) renders (output ++ taken)
  unfolding Shrinks sum_active
  written-Shrinks before t ts renders output taken e h = omega (arith, h)

module _ {S B : Type 0} (maximum : ℕ) (fits : maximum + 16 < usize_max) where
  abbrev Bounded : OutputScheduler S B → Type 0
  Bounded s = IsBounded maximum s

  store_loop-IsBounded :
      (s : OutputScheduler S B) (l : Loop S B)
      → sum_active l.active ≤ sum_active s.active
      → Bounded s
      → Bounded (store_loop s l)
  unfolding store_loop total
  store_loop-IsBounded s l h b = record {
    limit = b.limit;
    sized = b.sized;
    bound = let k = b.bound in omega (arith, h, k);
  }

  waiting-IsBounded :
      (s : OutputScheduler S B) (waiting : Bool)
      → Bounded s
      → Bounded (record s { waiting_for_writable = waiting })
  unfolding total
  waiting-IsBounded s waiting b = record { limit = b.limit; sized = b.sized; bound = b.bound }

  after_writes-IsBounded :
      (s : OutputScheduler S B) (r : DrainReport S B) (w : Writer) (ending : LoopEnd) (l : Loop S B)
      → sum_active l.active ≤ sum_active s.active
      → Bounded s
      → BoundedEnd maximum fits (after_writes s r w ending l)
  unfolding after_writes Shrinks
  after_writes-IsBounded s r w (loop_failed reason) l h b =
      fail-IsBounded maximum fits (store_loop s l) (store_loop-IsBounded s l h b)
  after_writes-IsBounded s r w loop_blocked l h b =
      waiting-IsBounded (store_loop s l) true (store_loop-IsBounded s l h b)
  after_writes-IsBounded s r w (stopped true) l h b =
      finish_drain-IsBounded maximum fits
        (flush_if_required (store_loop s l) (record r { bytes_written = l.bytes_written }) w)
        (flush_if_required-Keeps maximum fits (store_loop s l)
          (record r { bytes_written = l.bytes_written }) w (store_loop-IsBounded s l h b))
  after_writes-IsBounded s r w (stopped false) l h b =
      let l' = pop_completed s.bypass_generation l.active l in
      finish_drain-IsBounded maximum fits
        (flush_if_required (store_loop s l') (record r { bytes_written = l.bytes_written }) w)
        (flush_if_required-Keeps maximum fits (store_loop s l')
          (record r { bytes_written = l.bytes_written }) w
          (store_loop-IsBounded s l'
            (pop_completed-Holds (Shrinks (sum_active s.active))
              (popped-Shrinks (sum_active s.active)) (written-Shrinks (sum_active s.active))
              s.bypass_generation l.active l h)
            b))

  write_active-IsBounded :
      (s : OutputScheduler S B) (r : DrainReport S B) (w : Writer) (started_only : Bool)
      → Bounded s
      → BoundedEnd maximum fits (write_active s r w started_only)
  unfolding write_active Shrinks
  write_active-IsBounded s r w started_only b =
      let (ending, writes, l) =
        write_loop (limits s started_only) w.writes s.active (initial_loop s r w) in
      after_writes-IsBounded s r (record w { writes = writes; output = l.output }) ending l
        (write_loop-Holds (Shrinks (sum_active s.active)) (popped-Shrinks (sum_active s.active))
          (written-Shrinks (sum_active s.active)) (limits s started_only) w.writes s.active
          (initial_loop s r w) (omega arith))
        b

  drain_allowed-IsBounded :
      (s : OutputScheduler S B) (r : DrainReport S B) (w : Writer) (now_ms : ℕ) (force : Bool)
      (allowed : Allowed)
      → Bounded s
      → BoundedEnd maximum fits (drain_allowed s r w now_ms force allowed)
  unfolding drain_allowed
  drain_allowed-IsBounded s r w now_ms force nothing b = b
  drain_allowed-IsBounded s r w now_ms force only_started b =
      if_cases (BoundedEnd maximum fits) (waits_for_latency s now_ms force) (s, w, reported r)
        (write_active (activate_pending s) r w true) (λ _. b)
        (λ _.
          write_active-IsBounded (activate_pending s) r w true
            (activate_pending-IsBounded maximum fits s b))
  drain_allowed-IsBounded s r w now_ms force everything b =
      if_cases (BoundedEnd maximum fits) (waits_for_latency s now_ms force) (s, w, reported r)
        (write_active (activate_pending s) r w false) (λ _. b)
        (λ _.
          write_active-IsBounded (activate_pending s) r w false
            (activate_pending-IsBounded maximum fits s b))

  release-IsBounded :
      (s : OutputScheduler S B) (r : DrainReport S B) → Bounded s → Bounded (release s r).0
  unfolding release total
  release-IsBounded s r b = record { limit = b.limit; sized = b.sized; bound = b.bound }

  held-IsBounded :
      (s : OutputScheduler S B) (r : DrainReport S B) (force over : Bool)
      → Bounded s
      → Bounded (held s r force over).1
  unfolding held with_allowed
  held-IsBounded s r force over b =
      if_cases (λ (q : Allowed × OutputScheduler S B × DrainReport S B). Bounded q.1)
        (not force && not over && not (is_some s.bypass_generation))
        (if front_started s.active then only_started else nothing, s, r)
        (with_allowed everything (if over then release s r else (s, r))) (λ _. b)
        (λ _.
          if_cases
            (λ (q : OutputScheduler S B × DrainReport S B). Bounded (with_allowed everything q).1)
            over (release s r) (s, r) (λ _. release-IsBounded s r b) (λ _. b))

  observe_hold-IsBounded :
      (s : OutputScheduler S B) (r : DrainReport S B) (now_ms : ℕ) (force : Bool)
      (hold : Option ApplicationSynchronization)
      → Bounded s
      → Bounded (observe_hold s r now_ms force hold).1
  unfolding observe_hold
  observe_hold-IsBounded s r now_ms force none b = b
  observe_hold-IsBounded s r now_ms force (some ignoring_until_close) b = b
  observe_hold-IsBounded s r now_ms force (some (synchronizing started last)) b =
      held-IsBounded s r force (timed_out s now_ms started last) b

  drain_flushed-IsBounded :
      (now_ms : ℕ) (force : Bool) (p : Progress S B)
      → Keeps maximum fits p
      → BoundedEnd maximum fits (drain_flushed now_ms force p)
  unfolding drain_flushed
  drain_flushed-IsBounded now_ms force (goes_on s r w) (keeps_on b) =
      let (allowed, s', r') = observe_hold s r now_ms force s.application_synchronization in
      drain_allowed-IsBounded s' r' w now_ms force allowed
        (observe_hold-IsBounded s r now_ms force s.application_synchronization b)
  drain_flushed-IsBounded now_ms force (returns s r w) (keeps_back b) = b
  drain_flushed-IsBounded now_ms force (fails s e w) (keeps_broken b) = b

  pub drain_ready-IsBounded :
      (s : OutputScheduler S B) (now_ms : ℕ) (force : Bool) (w : Writer)
      → Bounded s
      → Bounded (drain_ready s now_ms force w).0
  unfolding drain_ready
  drain_ready-IsBounded s now_ms force w b =
      if_cases (BoundedEnd maximum fits) s.needs_reconciliation (s, w, reported empty_report) ready
        (λ _. b)
        (λ _.
          if_cases (BoundedEnd maximum fits) (s.waiting_for_writable && not force)
            (s, w, reported empty_report)
            (drain_flushed now_ms force (flush_if_required unblocked empty_report w)) (λ _. b)
            (λ _.
              drain_flushed-IsBounded now_ms force (flush_if_required unblocked empty_report w) (
                flush_if_required-Keeps maximum fits unblocked empty_report w
                  (waiting-IsBounded s (if force then false else s.waiting_for_writable) b))))
    where
      unblocked : OutputScheduler S B
      unblocked = record s {
        waiting_for_writable = if force then false else s.waiting_for_writable;
      }

      ready : OutputScheduler S B × Writer × Drained S B
      ready =
          if s.waiting_for_writable && not force
          then (s, w, reported empty_report)
          else drain_flushed now_ms force (flush_if_required unblocked empty_report w)
