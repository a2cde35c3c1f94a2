-- ===== src/Scheduler/Conservation.antt =====
-- The bytes that `drain_ready` of src/output_scheduler.rs writes, and those that it keeps.
use lector.Prelude.{◌≡◌, List}
use lector.Scheduler.State.{OutputScheduler}
use lector.Scheduler.Completion.{Writer, WriteReply, DrainReport}
use lector.Scheduler.Writing.{Loop}
use lector.Scheduler.Drain.{Allowed}
use lector.Scheduler.Stream.{stream}

module _ {S B : Type 0} where
  -- The writer has taken the output of the loop.
  abbrev take_output : Writer → List WriteReply → Loop S B → Writer
  take_output w writes l = record w { writes = writes; output = l.output }

  -- What the hold of the application makes of the state keeps the bytes.
  abbrev Keeps : OutputScheduler S B → Allowed × OutputScheduler S B × DrainReport S B → Type 0
  Keeps s q = stream q.1 ≡ stream s
