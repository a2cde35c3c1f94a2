-- ===== src/Scheduler/Bounded.antt =====
-- The bound on the pending bytes in src/output_scheduler.rs: bytes, bells and the cleanup.
use lector.Prelude.{
  ℕ, zero, suc, ◌+◌, ◌-◌, ◌≤◌, min, ◌≡◌, refl, sym, ap, ◌∙◌, Bool, true, false, not, ◌&&◌, ◌||◌,
  Option, none, some, List, [], ◌∷◌, ◌++◌, arith, usize_max, ltb, leb, ◌==◌, length, is_empty,
  Bytes, if◌then◌else◌, if_cases, Bool-cases, inl, inr, subst,
}
use lector.Scheduler.Effects.{
  sat_add, TerminalEvent, TerminalEventKind, title_kind, working_directory_kind,
  terminal_event_kind, kind_eq, terminal_event_retained_bytes, bound_terminal_effect,
}
use lector.Scheduler.State.{
  ActiveTransaction, OutputSchedulerConfig, OutputScheduler, RenderBatch, PendingBytes,
  ScheduledOutputClass, ScheduledTerminalEffect, PendingRender, pending_bytes, sum_active,
  sum_queued, sum_effects, render_len, EnqueueOutcome, retained_effect_bytes, note_pending,
  ApplicationSynchronization, synchronizing, ignoring_until_close,
}
use lector.Scheduler.Enqueue.{
  push_queued, keep_render, keep_active, keep_started, discard_visual, exceeds, over_backlog,
  queue_bytes, queue_if_fits, enqueue_bytes, prepare_for_lifecycle_cleanup, is_boundary,
}
use lector.Scheduler.Visual.{
  sum_transactions, markers_len, take_bells, take_replaceable, replaced_len, render_batch_byte_len,
  replace_active, accept_render, drop_render, retained_bytes, accept_sized,
  enqueue_render_with_accessibility, enqueue_bell, resized, set_synchronized_output_supported,
}
use lector.Scheduler.EventQueue.{
  without_like, without_first_like, without_active_like, supersede, make_room, push_effect,
  enqueue_terminal_effect,
}
use lector.Scheduler.Synchronization.{
  observe_application_synchronization, hold, set_application_synchronization_bypassed, recover,
  notify_writable,
}
use lector.Scheduler.Requests.{
  Request, queues_bytes, cleans_up, queues_render, queues_effect, queues_bells, sets_support,
  observes, sets_bypass, recovers, notifies, Requests, no_request, then_request,
}
use lector.Scheduler.Capacity.{
  total, pending_bytes-total, IsSized, slack, IsBounded, keep_active-sum, keep_started-sum,
  without_active_like-sum, without_like-sum, without_first_like-sum, sum_effects-append,
  sum_queued-push_queued, take_bells-sum, others_sum, take_replaceable-sum,
}
use lector.Scheduler.Capacity.{slack-le}
pub mod Effects
pub mod Renders
pub mod Calls
pub mod Activated
pub mod Flushed
pub mod Drained

module _ {S B : Type 0} (maximum : ℕ) (fits : maximum + 16 ≤ usize_max) where
  abbrev Bounded : OutputScheduler S B → Type 0
  Bounded s = IsBounded maximum s

  pub pending-le : (s : OutputScheduler S B) → Bounded s → pending_bytes s ≤ maximum + 16
  pending-le s b =
      let e = pending_bytes-total s in
      let l = slack-le s.synchronized_output_supported s.pending_render in
      let h = b.bound in omega (arith, e, l, h)

  -- Where the sum does not saturate, the pending bytes are the sum.
  pub pending-exact : (s : OutputScheduler S B) → Bounded s → pending_bytes s ≡ total s
  pending-exact s b =
      let e = pending_bytes-total s in
      let l = slack-le s.synchronized_output_supported s.pending_render in
      let h = b.bound in omega (arith, e, l, h, fits)

  -- What fits, by the tests of the code
  pub fitting :
      (s : OutputScheduler S B) (len : ℕ)
      → Bounded s
      → exceeds s len ≡ false
      → total s + len ≤ maximum
  unfolding exceeds
  fitting s len b e =
      let p = pending-exact s b in
      let h : ltb maximum (sat_add (pending_bytes s) len) ≡ false =
        subst (λ m. ltb m (sat_add (pending_bytes s) len) ≡ false) b.limit e in
      ground (arith, p, h, fits)

  queue_bytes-IsBounded :
      (s : OutputScheduler S B) (class : ScheduledOutputClass) (bs : Bytes) (now_ms : ℕ)
      → Bounded s
      → exceeds s (length bs) ≡ false
      → Bounded (queue_bytes s class bs now_ms)
  unfolding queue_bytes note_pending total
  queue_bytes-IsBounded s class bs now_ms b e = record {
    limit = b.limit;
    sized = b.sized;
    bound =
        let f = fitting s (length bs) b e in
        let q = sum_queued-push_queued s.config.maximum_pending_bytes class bs s.queued_bytes in
        omega (arith, f, q);
  }

  keep_render-IsSized :
      (s : OutputScheduler S B) (supported : Bool) (r : Option (PendingRender S B))
      → IsSized supported r
      → IsSized supported (keep_render s r)
  unfolding keep_render IsSized
  keep_render-IsSized s supported none h = h
  keep_render-IsSized s supported (some r) h =
      if_cases (IsSized supported) (is_boundary s r.generation) (some r) none (λ _. h) (λ _. refl)

  keep_render-slack :
      (s : OutputScheduler S B) (supported : Bool) (r : Option (PendingRender S B))
      → render_len (keep_render s r) + slack supported r
        ≤ render_len r + slack supported (keep_render s r)
  unfolding keep_render render_len slack
  keep_render-slack s supported none = omega arith
  keep_render-slack s supported (some r) =
      if_cases
        (λ (q : Option (PendingRender S B)).
          render_len q + slack supported (some r) ≤ r.byte_len + slack supported q)
        (is_boundary s r.generation) (some r) none (λ _. omega arith)
        (λ _. less (slack-le supported (some r)))
    where
      less : slack supported (some r) ≤ 16 → 0 + slack supported (some r) ≤ r.byte_len + 16
      less h = omega (arith, h)

  discard_visual-IsBounded : (s : OutputScheduler S B) → Bounded s → Bounded (discard_visual s)
  unfolding discard_visual total sum_effects
  discard_visual-IsBounded s b = record {
    limit = b.limit;
    sized = keep_render-IsSized s s.synchronized_output_supported s.pending_render b.sized;
    bound =
        let h = b.bound in
        let a = keep_active-sum s s.active in
        let r = keep_render-slack s s.synchronized_output_supported s.pending_render in
        omega (arith, h, a, r, none_left);
  }
    where
      none_left : sum_effects [] ≡ 0
      none_left = refl

  queue_if_fits-IsBounded :
      (s : OutputScheduler S B) (class : ScheduledOutputClass) (bs : Bytes) (now_ms : ℕ)
      → Bounded s
      → Bounded (queue_if_fits s class bs now_ms)
  unfolding queue_if_fits
  queue_if_fits-IsBounded s class bs now_ms b =
      if_cases Bounded (exceeds s (length bs)) s (queue_bytes s class bs now_ms) (λ _. b)
        (λ e. queue_bytes-IsBounded s class bs now_ms b e)

  pub enqueue_bytes-IsBounded :
      (s : OutputScheduler S B) (class : ScheduledOutputClass) (bs : Bytes) (now_ms : ℕ)
      → Bounded s
      → Bounded (enqueue_bytes s class bs now_ms)
  unfolding enqueue_bytes
  enqueue_bytes-IsBounded s class bs now_ms b =
      if_cases Bounded (is_empty bs) s beyond (λ _. b)
        (λ _.
          if_cases Bounded (over_backlog s (length bs)) s within (λ _. b)
            (λ _.
              if_cases Bounded (exceeds s (length bs))
                (queue_if_fits (discard_visual s) class bs now_ms) (queue_bytes s class bs now_ms)
                (λ _.
                  queue_if_fits-IsBounded (discard_visual s) class bs now_ms
                    (discard_visual-IsBounded s b))
                (λ e. queue_bytes-IsBounded s class bs now_ms b e)))
    where
      within : OutputScheduler S B
      within =
          if exceeds s (length bs)
          then queue_if_fits (discard_visual s) class bs now_ms
          else queue_bytes s class bs now_ms

      beyond : OutputScheduler S B
      beyond = if over_backlog s (length bs) then s else within

  pub cleanup-IsBounded :
      (s : OutputScheduler S B) → Bounded s → Bounded (prepare_for_lifecycle_cleanup s)
  unfolding prepare_for_lifecycle_cleanup total IsSized slack sum_queued sum_effects render_len
  cleanup-IsBounded s b = record {
    limit = b.limit;
    sized = refl;
    bound =
        let h = b.bound in
        let a = keep_started-sum s.active in
        let l = slack-le s.synchronized_output_supported s.pending_render in omega (arith, h, a, l);
  }

  pub enqueue_bell-IsBounded :
      (s : OutputScheduler S B) (count now_ms : ℕ)
      → Bounded s
      → Bounded (enqueue_bell s count now_ms)
  unfolding enqueue_bell note_pending total
  enqueue_bell-IsBounded s count now_ms b =
      let retained = min count (s.config.maximum_pending_bytes - pending_bytes s) in
      if_cases Bounded (retained == 0) s
        (record (note_pending s now_ms) { pending_bells = sat_add s.pending_bells retained })
        (λ _. b)
        (λ e. record {
          limit = b.limit;
          sized = b.sized;
          bound =
              let p = pending-exact s b in
              let h = b.bound in let m = b.limit in ground (arith, p, h, m, e);
        })
