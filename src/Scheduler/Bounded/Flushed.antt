-- ===== src/Scheduler/Bounded/Flushed.antt =====
-- The bound, when src/output_scheduler.rs flushes.
use lector.Prelude.{ℕ, ◌+◌, ◌<◌, refl, false, List, [], ◌∷◌, arith, usize_max, if_cases}
use lector.Scheduler.State.{
  TrackedRender, OutputScheduler, sum_active, render_len, sum_queued, sum_effects,
}
use lector.Scheduler.Completion.{
  FlushEnd, flush_done, flush_blocked, flush_failed, flush_loop, flush_end, flush_writer, IoError,
  Writer, DrainReport, Drained, Progress, goes_on, returns, fails, fail, flush_if_required,
  complete_render, complete_renders, complete_awaiting_renders,
}
use lector.Scheduler.Drain.{report_all, finish_drain}
use lector.Scheduler.Capacity.{total, IsSized, IsBounded}

module _ {S B : Type 0} (maximum : ℕ) (fits : maximum + 16 < usize_max) where
  abbrev Bounded : OutputScheduler S B → Type 0
  Bounded s = IsBounded maximum s

  -- The scheduler that a call of `drain_ready` leaves
  abbrev pub BoundedEnd : OutputScheduler S B × Writer × Drained S B → Type 0
  BoundedEnd q = IsBounded maximum q.0

  pub data Keeps : Progress S B → Type 0 where
    keeps_on :
        {s : OutputScheduler S B} {r : DrainReport S B} {w : Writer}
        → Bounded s
        → Keeps (goes_on s r w)
    keeps_back :
        {s : OutputScheduler S B} {r : DrainReport S B} {w : Writer}
        → Bounded s
        → Keeps (returns s r w)
    keeps_broken :
        {s : OutputScheduler S B} {e : IoError} {w : Writer} → Bounded s → Keeps (fails s e w)

  complete_renders-IsBounded :
      (s : OutputScheduler S B) (r : DrainReport S B) (renders : List (TrackedRender S B))
      → Bounded s
      → Bounded (complete_renders s r renders).0
  unfolding complete_renders complete_render total
  complete_renders-IsBounded s r [] b = b
  complete_renders-IsBounded s r (tracked ∷ renders) b =
      let (s', r') = complete_render s r tracked in
      complete_renders-IsBounded s' r' renders
        (record { limit = b.limit; sized = b.sized; bound = b.bound })

  complete_awaiting-IsBounded :
      (s : OutputScheduler S B) (r : DrainReport S B)
      → Bounded s
      → Bounded (complete_awaiting_renders s r).0
  unfolding complete_awaiting_renders total
  complete_awaiting-IsBounded s r b =
      let c = complete_renders-IsBounded s r s.awaiting_flush_renders b in
      record { limit = c.limit; sized = c.sized; bound = c.bound }

  pub fail-IsBounded : (s : OutputScheduler S B) → Bounded s → Bounded (fail s)
  unfolding fail total sum_active sum_queued sum_effects render_len IsSized
  fail-IsBounded s b = record { limit = b.limit; sized = refl; bound = omega arith }

  flush_end-Keeps :
      (s : OutputScheduler S B) (r : DrainReport S B) (w : Writer) (ending : FlushEnd)
      → Bounded s
      → Keeps (flush_end s r w ending)
  unfolding flush_end total
  flush_end-Keeps s r w flush_done b = keeps_on (
      complete_awaiting-IsBounded (record s { flush_required = false }) r
        (record { limit = b.limit; sized = b.sized; bound = b.bound }))
  flush_end-Keeps s r w flush_blocked b =
      keeps_back (record { limit = b.limit; sized = b.sized; bound = b.bound })
  flush_end-Keeps s r w (flush_failed reason) b = keeps_broken (fail-IsBounded s b)

  pub flush_if_required-Keeps :
      (s : OutputScheduler S B) (r : DrainReport S B) (w : Writer)
      → Bounded s
      → Keeps (flush_if_required s r w)
  unfolding flush_if_required flush_writer
  flush_if_required-Keeps s r w b =
      if_cases Keeps s.flush_required (flush_writer s r w) (goes_on s r w)
        (λ _.
          flush_end-Keeps s r (record w { flushes = (flush_loop w.flushes).1 })
            (flush_loop w.flushes).0 b)
        (λ _. keeps_on b)

  pub finish_drain-IsBounded : (p : Progress S B) → Keeps p → BoundedEnd (finish_drain p)
  unfolding finish_drain report_all
  finish_drain-IsBounded (goes_on s r w) (keeps_on b) =
      if_cases (λ (q : OutputScheduler S B × DrainReport S B). BoundedEnd (report_all q w))
        s.flush_required (s, r) (complete_awaiting_renders s r) (λ _. b)
        (λ _. complete_awaiting-IsBounded s r b)
  finish_drain-IsBounded (returns s r w) (keeps_back b) = b
  finish_drain-IsBounded (fails s e w) (keeps_broken b) = b
