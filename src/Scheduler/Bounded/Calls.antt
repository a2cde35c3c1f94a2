-- ===== src/Scheduler/Bounded/Calls.antt =====
-- The bound and all calls of the application of src/output_scheduler.rs.
use lector.Prelude.{ℕ, ◌+◌, ◌≤◌, Bool, true, false, Option, none, some, usize_max}
use lector.Scheduler.State.{
  OutputScheduler, ApplicationSynchronization, synchronizing, ignoring_until_close,
}
use lector.Scheduler.Visual.{render_batch_byte_len, enqueue_render_with_accessibility}
use lector.Scheduler.Synchronization.{
  observe_application_synchronization, hold, set_application_synchronization_bypassed, recover,
  notify_writable,
}
use lector.Scheduler.Requests.{
  Request, queues_bytes, cleans_up, queues_render, queues_effect, queues_bells, sets_support,
  observes, sets_bypass, recovers, notifies,
}
use lector.Scheduler.Capacity.{total, IsBounded}
use lector.Scheduler.Bounded.{enqueue_bytes-IsBounded, cleanup-IsBounded, enqueue_bell-IsBounded}
use lector.Scheduler.Bounded.Effects.{enqueue_terminal_effect-IsBounded}
use lector.Scheduler.Bounded.Renders.{
  support-IsBounded, accept_sized-IsBounded, render_batch_byte_len-IsLength,
}

module _ {S B : Type 0} (maximum : ℕ) (fits : maximum + 16 ≤ usize_max) where
  abbrev Bounded : OutputScheduler S B → Type 0
  Bounded s = IsBounded maximum s

  hold-IsBounded :
      (s : OutputScheduler S B) (state : Option ApplicationSynchronization) (opened activity : Bool)
      (now_ms : ℕ)
      → Bounded s
      → Bounded (hold s state opened activity now_ms)
  unfolding hold total
  hold-IsBounded s (some ignoring_until_close) true activity now_ms b = record {
    limit = b.limit;
    sized = b.sized;
    bound = b.bound;
  }
  hold-IsBounded s (some (synchronizing started last)) opened true now_ms b = record {
    limit = b.limit;
    sized = b.sized;
    bound = b.bound;
  }
  hold-IsBounded s (some (synchronizing started last)) opened false now_ms b = b
  hold-IsBounded s (some ignoring_until_close) false activity now_ms b = b
  hold-IsBounded s none opened activity now_ms b = record {
    limit = b.limit;
    sized = b.sized;
    bound = b.bound;
  }

  pub Request-IsBounded : {s s' : OutputScheduler S B} → Request s s' → Bounded s → Bounded s'
  unfolding recover notify_writable set_application_synchronization_bypassed
      observe_application_synchronization enqueue_render_with_accessibility total
  Request-IsBounded (queues_bytes s class bs now_ms) b =
      enqueue_bytes-IsBounded maximum fits s class bs now_ms b
  Request-IsBounded (cleans_up s) b = cleanup-IsBounded maximum fits s b
  Request-IsBounded (queues_render s batch accessibility now_ms) b =
      accept_sized-IsBounded maximum fits s batch accessibility now_ms
        (render_batch_byte_len batch s.synchronized_output_supported)
        (render_batch_byte_len-IsLength maximum fits batch s.synchronized_output_supported) b
  Request-IsBounded (queues_effect s owner event now_ms) b =
      enqueue_terminal_effect-IsBounded maximum fits s owner event now_ms b
  Request-IsBounded (queues_bells s count now_ms) b =
      enqueue_bell-IsBounded maximum fits s count now_ms b
  Request-IsBounded (sets_support s supported) b = support-IsBounded maximum fits s supported b
  Request-IsBounded (observes s true opened activity now_ms) b =
      hold-IsBounded s s.application_synchronization opened activity now_ms b
  Request-IsBounded (observes s false opened activity now_ms) b = record {
    limit = b.limit;
    sized = b.sized;
    bound = b.bound;
  }
  Request-IsBounded (sets_bypass s bypassed) b = record {
    limit = b.limit;
    sized = b.sized;
    bound = b.bound;
  }
  Request-IsBounded (recovers s) b = record { limit = b.limit; sized = b.sized; bound = b.bound }
  Request-IsBounded (notifies s) b = record { limit = b.limit; sized = b.sized; bound = b.bound }
