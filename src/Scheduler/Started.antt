-- ===== src/Scheduler/Started.antt =====
-- The first transaction and the calls of the application in src/output_scheduler.rs.
use lector.Prelude.{
  ℕ, ◌≡◌, Bool, true, false, ◌||◌, Option, none, some, [], ◌∷◌, ◌++◌, Bytes, is_empty, length, ◌-◌,
  min, ltb, ◌==◌, if◌then◌else◌, if_cases,
}
use lector.Scheduler.Effects.{
  sat_add, TerminalEvent, terminal_event_kind, terminal_event_retained_bytes, bound_terminal_effect,
  TerminalEventKind, title_kind, working_directory_kind, kind_eq,
}
use lector.Scheduler.State.{
  ScheduledOutputClass, EnqueueOutcome, ActiveTransaction, RenderBatch, OutputScheduler,
  note_pending, retained_effect_bytes, ApplicationSynchronization, synchronizing,
  ignoring_until_close, pending_bytes, ScheduledTerminalEffect,
}
use lector.Scheduler.Enqueue.{
  discard_visual, exceeds, over_backlog, queue_bytes, queue_if_fits, enqueue_bytes,
  prepare_for_lifecycle_cleanup,
}
use lector.Scheduler.Visual.{
  render_batch_byte_len, accept_render, drop_render, retained_bytes, accept_sized,
  enqueue_render_with_accessibility, enqueue_bell, set_synchronized_output_supported,
}
use lector.Scheduler.EventQueue.{
  without_like, without_first_like, supersede, make_room, push_effect, enqueue_terminal_effect,
  without_active_like,
}
use lector.Scheduler.Synchronization.{
  observe_application_synchronization, hold, set_application_synchronization_bypassed, recover,
  notify_writable,
}
use lector.Scheduler.Requests.{
  Request, queues_bytes, cleans_up, queues_render, queues_effect, queues_bells, sets_support,
  observes, sets_bypass, recovers, notifies, Requests, no_request, then_request,
}
use lector.Scheduler.Leading.{
  Leads, keep_active-Leads, keep_started-Leads, without_active_like-Leads, accept_render-Leads,
}

module _ {S B : Type 0} where
  module _ (t : ActiveTransaction S B) (begun : ltb 0 t.offset ≡ true) where
    LeadsState : OutputScheduler S B → Type 0
    LeadsState s = Leads t s.active

    queue_if_fits-Leads :
        (s : OutputScheduler S B) (class : ScheduledOutputClass) (bs : Bytes) (now_ms : ℕ)
        → Leads t s.active
        → Leads t (queue_if_fits s class bs now_ms).active
    unfolding queue_if_fits queue_bytes note_pending LeadsState
    queue_if_fits-Leads s class bs now_ms h =
        if_cases LeadsState (exceeds s (length bs)) s (queue_bytes s class bs now_ms) (λ _. h)
          (λ _. h)

    enqueue_bytes-Leads :
        (s : OutputScheduler S B) (class : ScheduledOutputClass) (bs : Bytes) (now_ms : ℕ)
        → Leads t s.active
        → Leads t (enqueue_bytes s class bs now_ms).active
    unfolding enqueue_bytes queue_bytes discard_visual note_pending LeadsState
    enqueue_bytes-Leads s class bs now_ms h =
        if_cases LeadsState (is_empty bs) s beyond (λ _. h)
          (λ _.
            if_cases LeadsState (over_backlog s (length bs)) s fitting (λ _. h)
              (λ _.
                if_cases LeadsState (exceeds s (length bs))
                  (queue_if_fits (discard_visual s) class bs now_ms) (queue_bytes s class bs now_ms)
                  (λ _.
                    queue_if_fits-Leads (discard_visual s) class bs now_ms
                      (keep_active-Leads t begun s s.active h))
                  (λ _. h)))
      where
        fitting : OutputScheduler S B
        fitting =
            if exceeds s (length bs)
            then queue_if_fits (discard_visual s) class bs now_ms
            else queue_bytes s class bs now_ms

        beyond : OutputScheduler S B
        beyond = if over_backlog s (length bs) then s else fitting

    supersede-Leads :
        (s : OutputScheduler S B) (owner : ℕ) (kind : TerminalEventKind)
        → Leads t s.active
        → Leads t (supersede s owner kind).active
    unfolding supersede LeadsState
    supersede-Leads s owner kind h =
        if_cases LeadsState (kind_eq kind title_kind || kind_eq kind working_directory_kind)
          (record s {
            pending_effects = without_like owner kind s.pending_effects;
            active = without_active_like owner kind s.active;
          })
          s (λ _. without_active_like-Leads t begun owner kind s.active h) (λ _. h)

    make_room-Leads :
        (s : OutputScheduler S B) (owner : ℕ) (kind : TerminalEventKind) (retained : ℕ)
        → Leads t s.active
        → Leads t (make_room s owner kind retained).active
    unfolding make_room LeadsState
    make_room-Leads s owner kind retained h =
        if_cases LeadsState
          (ltb s.config.maximum_pending_bytes (sat_add (retained_effect_bytes s) retained))
          (record s { pending_effects = without_first_like owner kind s.pending_effects }) s
          (λ _. h) (λ _. h)

    push_effect-Leads :
        (s : OutputScheduler S B) (effect : ScheduledTerminalEffect) (now_ms : ℕ)
        → Leads t s.active
        → Leads t (push_effect s effect now_ms).active
    unfolding push_effect note_pending LeadsState
    push_effect-Leads s effect now_ms h =
        if_cases LeadsState
          (ltb s.config.maximum_pending_bytes
            (sat_add (pending_bytes s) (terminal_event_retained_bytes effect.event)))
          s (record (note_pending s now_ms) { pending_effects = s.pending_effects ++ effect ∷ [] })
          (λ _. h) (λ _. h)

    enqueue_terminal_effect-Leads :
        (s : OutputScheduler S B) (owner : ℕ) (event : TerminalEvent) (now_ms : ℕ)
        → Leads t s.active
        → Leads t (enqueue_terminal_effect s owner event now_ms).active
    unfolding enqueue_terminal_effect
    enqueue_terminal_effect-Leads s owner event now_ms h =
        let bound = bound_terminal_effect event s.config.maximum_pending_bytes in
        let kind = terminal_event_kind bound in
        let retained = terminal_event_retained_bytes bound in
        let room = make_room (supersede s owner kind) owner kind retained in
        push_effect-Leads room (record { owner = owner; event = bound }) now_ms
          (make_room-Leads (supersede s owner kind) owner kind retained
            (supersede-Leads s owner kind h))

    enqueue_bell-Leads :
        (s : OutputScheduler S B) (count now_ms : ℕ)
        → Leads t s.active
        → Leads t (enqueue_bell s count now_ms).active
    unfolding enqueue_bell note_pending LeadsState
    enqueue_bell-Leads s count now_ms h =
        let retained = min count (s.config.maximum_pending_bytes - pending_bytes s) in
        if_cases LeadsState (retained == 0) s
          (record (note_pending s now_ms) { pending_bells = sat_add s.pending_bells retained })
          (λ _. h) (λ _. h)

    hold-Leads :
        (s : OutputScheduler S B) (state : Option ApplicationSynchronization)
        (opened activity : Bool) (now_ms : ℕ)
        → Leads t s.active
        → Leads t (hold s state opened activity now_ms).active
    unfolding hold
    hold-Leads s (some ignoring_until_close) true activity now_ms h = h
    hold-Leads s (some (synchronizing started last)) opened true now_ms h = h
    hold-Leads s (some (synchronizing started last)) opened false now_ms h = h
    hold-Leads s (some ignoring_until_close) false activity now_ms h = h
    hold-Leads s none opened activity now_ms h = h

    accept_sized-Leads :
        (s : OutputScheduler S B) (batch : RenderBatch S B) (accessibility : B) (now_ms : ℕ)
        (len : Option ℕ)
        → Leads t s.active
        → Leads t (accept_sized s batch accessibility now_ms len).0.active
    unfolding accept_sized drop_render LeadsState
    accept_sized-Leads s batch accessibility now_ms none h = h
    accept_sized-Leads s batch accessibility now_ms (some len) h =
        if_cases (λ (q : OutputScheduler S B × EnqueueOutcome). LeadsState q.0)
          (ltb s.config.maximum_pending_bytes len
            || ltb s.config.maximum_pending_bytes (sat_add (retained_bytes s) len))
          (drop_render s) (accept_render s batch accessibility len now_ms) (λ _. h)
          (λ _. accept_render-Leads t begun s batch accessibility len now_ms h)

    enqueue_render-Leads :
        (s : OutputScheduler S B) (batch : RenderBatch S B) (accessibility : B) (now_ms : ℕ)
        → Leads t s.active
        → Leads t (enqueue_render_with_accessibility s batch accessibility now_ms).0.active
    unfolding enqueue_render_with_accessibility
    enqueue_render-Leads s batch accessibility now_ms h =
        accept_sized-Leads s batch accessibility now_ms
          (render_batch_byte_len batch s.synchronized_output_supported) h

    Request-Leads :
        {s s' : OutputScheduler S B} → Request s s' → Leads t s.active → Leads t s'.active
    unfolding recover notify_writable set_application_synchronization_bypassed
        set_synchronized_output_supported prepare_for_lifecycle_cleanup
        observe_application_synchronization
    Request-Leads (queues_bytes s class bs now_ms) h = enqueue_bytes-Leads s class bs now_ms h
    Request-Leads (cleans_up s) h = keep_started-Leads t begun s.active h
    Request-Leads (queues_render s batch accessibility now_ms) h =
        enqueue_render-Leads s batch accessibility now_ms h
    Request-Leads (queues_effect s owner event now_ms) h =
        enqueue_terminal_effect-Leads s owner event now_ms h
    Request-Leads (queues_bells s count now_ms) h = enqueue_bell-Leads s count now_ms h
    Request-Leads (sets_support s b) h = h
    Request-Leads (observes s true opened activity now_ms) h =
        hold-Leads s s.application_synchronization opened activity now_ms h
    Request-Leads (observes s false opened activity now_ms) h = h
    Request-Leads (sets_bypass s b) h = h
    Request-Leads (recovers s) h = h
    Request-Leads (notifies s) h = h

  -- A transaction of which bytes are written and that is the first stays the first, as it is, whatever the
  -- application queues, replaces or discards: nothing gets in between its bytes.
  pub Requests-Leads :
      {s s' : OutputScheduler S B} (t : ActiveTransaction S B)
      → ltb 0 t.offset ≡ true
      → Requests s s'
      → Leads t s.active
      → Leads t s'.active
  Requests-Leads t begun (no_request s) h = h
  Requests-Leads t begun (then_request r rs) h =
      Requests-Leads t begun rs (Request-Leads t begun r h)
