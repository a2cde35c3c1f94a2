-- ===== src/Tests/Scheduler.antt =====
-- Runs of the model of src/output_scheduler.rs.
use lector.Prelude.{ℕ, ◌+◌, ◌≤◌, arith, true, ◌≡◌, refl, false, none, [], ◌∷◌, ◌++◌, bytes}
use lector.Scheduler.State.{
  OutputSchedulerConfig, default_config, control_class, control, ActiveTransaction, OutputScheduler,
  new, pending_bytes,
}
use lector.Scheduler.Enqueue.{enqueue_bytes}
use lector.Scheduler.Visual.{
  enqueue_render_with_accessibility, enqueue_bell, set_synchronized_output_supported,
}
use lector.Scheduler.Completion.{Writer, wrote, interrupted, would_block, flushed}
use lector.Scheduler.Drain.{drain_ready}
use lector.Scheduler.Leading.{Leads}
use lector.Scheduler.Started.{Requests-Leads}
use lector.Scheduler.Requests.{
  queues_bytes, queues_render, queues_bells, Requests, no_request, then_request,
}
use lector.Scheduler.Runs.{Runs, ends, calls, drains, Runs-pending_bytes}
use lector.Scheduler.Markers.{
  contains_synchronization_marker, append_without_synchronization_markers,
}

abbrev greeting : OutputScheduler ℕ ℕ
greeting = enqueue_bytes (new default_config false) control_class (bytes "hello") 0

abbrev shown : OutputScheduler ℕ ℕ
shown =
    (enqueue_render_with_accessibility greeting
      (record { transactions = bytes "AB" ∷ []; predicted = 5 }) 6 0).0

-- A writer that takes the bytes in pieces, and then blocks
abbrev slow_writer : Writer
slow_writer = record {
  writes = wrote 3 ∷ interrupted ∷ wrote 9 ∷ wrote 1 ∷ would_block ∷ [];
  flushes = flushed ∷ [];
  output = [];
}

-- What the slow writer has taken: the control bytes, and the first byte of the render
slow_output : (drain_ready shown 10 false slow_writer).1.output ≡ bytes "helloA"
unfolding drain_ready enqueue_bytes enqueue_render_with_accessibility new
slow_output = refl

abbrev half_written : ActiveTransaction ℕ ℕ
half_written = record {
  kind = control;
  bytes = bytes "hello";
  offset = 2;
  completed_render = none;
  completed_effects = [];
}

abbrev interrupted_greeting : OutputScheduler ℕ ℕ
unfolding new
interrupted_greeting = record (new default_config false) { active = half_written ∷ [] }

abbrev more_bytes : OutputScheduler ℕ ℕ
more_bytes = enqueue_bytes interrupted_greeting control_class (bytes "bye") 3

abbrev more_shown : OutputScheduler ℕ ℕ
more_shown =
    (enqueue_render_with_accessibility more_bytes
      (record { transactions = bytes "AB" ∷ []; predicted = 5 }) 6 4).0

later-Requests : Requests interrupted_greeting more_shown
later-Requests = then_request (queues_bytes interrupted_greeting control_class (bytes "bye") 3) (
    then_request
      (queues_render more_bytes (record { transactions = bytes "AB" ∷ []; predicted = 5 }) 6 4)
      (no_request more_shown))

half_written-Leads : Leads half_written interrupted_greeting.active
unfolding Leads new
half_written-Leads = refl

Requests-Leads_example : Leads half_written more_shown.active
Requests-Leads_example = Requests-Leads half_written refl later-Requests half_written-Leads

abbrev fresh : OutputScheduler ℕ ℕ
fresh = new default_config false

abbrev drained : OutputScheduler ℕ ℕ
drained = (drain_ready shown 10 false slow_writer).0

-- Bytes and a render are queued, a part is written, and bells follow.
abbrev belled : OutputScheduler ℕ ℕ
belled = enqueue_bell drained 2 12

later-Runs : Runs fresh belled
later-Runs = calls (queues_bytes fresh control_class (bytes "hello") 0) (
    calls (queues_render greeting (record { transactions = bytes "AB" ∷ []; predicted = 5 }) 6 0)
      (drains shown 10 false slow_writer (calls (queues_bells drained 2 12) (ends belled))))

Runs-pending_bytes_example : pending_bytes belled ≤ default_config.maximum_pending_bytes + 16
Runs-pending_bytes_example = Runs-pending_bytes default_config false belled (omega arith) later-Runs

-- The second byte of the render, and the bells
pending_belled : pending_bytes belled ≡ 3
unfolding pending_bytes drain_ready enqueue_bell enqueue_bytes enqueue_render_with_accessibility new
pending_belled = refl

abbrev tight_config : OutputSchedulerConfig
tight_config = record default_config { maximum_pending_bytes = 2 }

abbrev tight : OutputScheduler ℕ ℕ
tight =
    (enqueue_render_with_accessibility (new tight_config false)
      (record { transactions = bytes "AB" ∷ []; predicted = 5 }) 6 0).0

-- A render that fits gets its markers later, and passes the maximum by them.
enlarged_render : pending_bytes (set_synchronized_output_supported tight true) ≡ 18
unfolding pending_bytes set_synchronized_output_supported enqueue_render_with_accessibility new
enlarged_render = refl

-- Taking one marker out of another one leaves a marker.
joined_marker :
    contains_synchronization_marker (
      append_without_synchronization_markers []
        (0x1b ∷ bytes "[?20" ++ 0x1b ∷ bytes "[?2026h" ++ bytes "26h"))
    ≡ true
unfolding contains_synchronization_marker append_without_synchronization_markers
joined_marker = refl

abbrev fast_writer : Writer
fast_writer = record { writes = wrote 9 ∷ wrote 9 ∷ []; flushes = flushed ∷ []; output = [] }
