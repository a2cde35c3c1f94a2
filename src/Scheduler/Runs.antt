-- ===== src/Scheduler/Runs.antt =====
-- Whole runs of src/output_scheduler.rs: the calls of the application and the drains, in any order.
use lector.Prelude.{ℕ, ◌+◌, ◌<◌, ◌≤◌, refl, Bool, arith, usize_max}
use lector.Scheduler.State.{
  OutputSchedulerConfig, OutputScheduler, new, pending_bytes, sum_active, sum_queued, sum_effects,
  render_len,
}
use lector.Scheduler.Completion.{Writer}
use lector.Scheduler.Drain.{drain_ready}
use lector.Scheduler.Requests.{Request}
use lector.Scheduler.Capacity.{total, IsSized, IsBounded}
use lector.Scheduler.Bounded.{pending-le}
use lector.Scheduler.Bounded.Calls.{Request-IsBounded}
use lector.Scheduler.Bounded.Drained.{drain_ready-IsBounded}

module _ {S B : Type 0} where
  -- Any number of calls and drains
  pub data Runs : OutputScheduler S B → OutputScheduler S B → Type 0 where
    ends : (s : OutputScheduler S B) → Runs s s
    calls : {s u v : OutputScheduler S B} → Request s u → Runs u v → Runs s v
    drains :
        {v : OutputScheduler S B} (s : OutputScheduler S B) (now_ms : ℕ) (force : Bool) (w : Writer)
        → Runs (drain_ready s now_ms force w).0 v
        → Runs s v

  Runs-IsBounded :
      {s s' : OutputScheduler S B} (maximum : ℕ)
      → maximum + 16 < usize_max
      → Runs s s'
      → IsBounded maximum s
      → IsBounded maximum s'
  Runs-IsBounded maximum fits (ends s) b = b
  Runs-IsBounded maximum fits (calls r rest) b =
      Runs-IsBounded maximum fits rest (Request-IsBounded maximum (omega (arith, fits)) r b)
  Runs-IsBounded maximum fits (drains s now_ms force w rest) b =
      Runs-IsBounded maximum fits rest (drain_ready-IsBounded maximum fits s now_ms force w b)

  new-IsBounded :
      (config : OutputSchedulerConfig) (supported : Bool)
      → IsBounded {S = S} {B = B} config.maximum_pending_bytes (new config supported)
  unfolding new total IsSized sum_active sum_queued sum_effects render_len
  new-IsBounded config supported = record { limit = refl; sized = refl; bound = omega arith }

  -- However the application queues and drains, from a new scheduler on, the pending bytes never pass the
  -- maximum of the configuration by more than the 16 bytes of the markers of synchronized output, provided
  -- that this bound is below the largest `usize`.
  pub Runs-pending_bytes :
      (config : OutputSchedulerConfig) (supported : Bool) (s : OutputScheduler S B)
      → config.maximum_pending_bytes + 16 < usize_max
      → Runs (new config supported) s
      → pending_bytes s ≤ config.maximum_pending_bytes + 16
  Runs-pending_bytes config supported s fits run =
      pending-le config.maximum_pending_bytes (omega (arith, fits)) s
        (Runs-IsBounded config.maximum_pending_bytes fits run (new-IsBounded config supported))
