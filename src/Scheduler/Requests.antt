-- ===== src/Scheduler/Requests.antt =====
-- The calls of the application, of src/output_scheduler.rs, as steps.
use lector.Prelude.{ℕ, Bool, Bytes}
use lector.Scheduler.Effects.{TerminalEvent}
use lector.Scheduler.State.{ScheduledOutputClass, RenderBatch, OutputScheduler}
use lector.Scheduler.Enqueue.{enqueue_bytes, prepare_for_lifecycle_cleanup}
use lector.Scheduler.Visual.{
  enqueue_render_with_accessibility, enqueue_bell, set_synchronized_output_supported,
}
use lector.Scheduler.EventQueue.{enqueue_terminal_effect}
use lector.Scheduler.Synchronization.{
  observe_application_synchronization, set_application_synchronization_bypassed, recover,
  notify_writable,
}

module _ {S B : Type 0} where
  -- One call of the application
  pub data Request : OutputScheduler S B → OutputScheduler S B → Type 0 where
    queues_bytes :
        (s : OutputScheduler S B) (class : ScheduledOutputClass) (bs : Bytes) (now_ms : ℕ)
        → Request s (enqueue_bytes s class bs now_ms)
    cleans_up : (s : OutputScheduler S B) → Request s (prepare_for_lifecycle_cleanup s)
    queues_render :
        (s : OutputScheduler S B) (batch : RenderBatch S B) (accessibility : B) (now_ms : ℕ)
        → Request s (enqueue_render_with_accessibility s batch accessibility now_ms).0
    queues_effect :
        (s : OutputScheduler S B) (owner : ℕ) (event : TerminalEvent) (now_ms : ℕ)
        → Request s (enqueue_terminal_effect s owner event now_ms)
    queues_bells :
        (s : OutputScheduler S B) (count now_ms : ℕ) → Request s (enqueue_bell s count now_ms)
    sets_support :
        (s : OutputScheduler S B) (b : Bool) → Request s (set_synchronized_output_supported s b)
    observes :
        (s : OutputScheduler S B) (synchronized opened activity : Bool) (now_ms : ℕ)
        → Request s (observe_application_synchronization s synchronized opened activity now_ms)
    sets_bypass :
        (s : OutputScheduler S B) (b : Bool)
        → Request s (set_application_synchronization_bypassed s b)
    recovers : (s : OutputScheduler S B) → Request s (recover s)
    notifies : (s : OutputScheduler S B) → Request s (notify_writable s)

  -- Any number of calls
  pub data Requests : OutputScheduler S B → OutputScheduler S B → Type 0 where
    no_request : (s : OutputScheduler S B) → Requests s s
    then_request : {s u v : OutputScheduler S B} → Request s u → Requests u v → Requests s v
