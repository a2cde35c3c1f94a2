-- ===== src/Scheduler/Reporting.antt =====
-- The renders that a whole call of `drain_ready` of src/output_scheduler.rs reports.
use lector.Prelude.{◌≡◌, ◌++◌}
use lector.Scheduler.State.{OutputScheduler}
use lector.Scheduler.Completion.{DrainReport}
use lector.Scheduler.Drain.{Allowed}
use lector.Scheduler.Delivery.{scheduled_renders}

module _ {S B : Type 0} where
  -- What the hold of the application makes of the state and the report keeps the renders.
  abbrev KeepsRenders :
      OutputScheduler S B
      → DrainReport S B
      → Allowed × OutputScheduler S B × DrainReport S B
      → Type 0
  KeepsRenders s r q =
      q.2.completed_renders ++ scheduled_renders q.1 ≡ r.completed_renders ++ scheduled_renders s
