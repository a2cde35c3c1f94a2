-- ===== src/Scheduler/Bounded/Effects.antt =====
-- The bound and the terminal effects of src/output_scheduler.rs.
use lector.Prelude.{
  ℕ, ◌+◌, ◌≤◌, ◌≡◌, refl, ap, ◌∙◌, ◌||◌, [], ◌∷◌, ◌++◌, arith, usize_max, ltb, if_cases,
}
use lector.Scheduler.Effects.{
  sat_add, TerminalEvent, TerminalEventKind, title_kind, working_directory_kind,
  terminal_event_kind, kind_eq, terminal_event_retained_bytes, bound_terminal_effect,
}
use lector.Scheduler.State.{
  OutputSchedulerConfig, OutputScheduler, ScheduledTerminalEffect, retained_effect_bytes,
  note_pending,
}
use lector.Scheduler.Enqueue.{exceeds}
use lector.Scheduler.EventQueue.{
  without_like, without_first_like, without_active_like, supersede, make_room, push_effect,
  enqueue_terminal_effect,
}
use lector.Scheduler.Capacity.{
  total, slack, IsBounded, without_active_like-sum, without_like-sum, without_first_like-sum,
  sum_effects-append,
}
use lector.Scheduler.Bounded.{fitting}

module _ {S B : Type 0} (maximum : ℕ) (fits : maximum + 16 ≤ usize_max) where
  abbrev Bounded : OutputScheduler S B → Type 0
  Bounded s = IsBounded maximum s

  -- A state with the same configuration, render and support, and no more bytes
  lower-IsBounded :
      (s s' : OutputScheduler S B)
      → s'.config ≡ s.config
      → s'.synchronized_output_supported ≡ s.synchronized_output_supported
      → s'.pending_render ≡ s.pending_render
      → total s' ≤ total s
      → Bounded s
      → Bounded s'
  lower-IsBounded s s' c u r h b = record {
    limit = ap (λ (k : OutputSchedulerConfig). k.maximum_pending_bytes) c ∙ b.limit;
    sized = rw (u, r) b.sized;
    bound =
        let k = b.bound in
        let same : slack s'.synchronized_output_supported s'.pending_render
            ≡ slack s.synchronized_output_supported s.pending_render =
          rw (u, r) refl in
        omega (arith, k, same, h);
  }

  supersede-IsBounded :
      (s : OutputScheduler S B) (owner : ℕ) (kind : TerminalEventKind)
      → Bounded s
      → Bounded (supersede s owner kind)
  unfolding supersede total
  supersede-IsBounded s owner kind b =
      if_cases Bounded (kind_eq kind title_kind || kind_eq kind working_directory_kind)
        (record s {
          pending_effects = without_like owner kind s.pending_effects;
          active = without_active_like owner kind s.active;
        })
        s
        (λ _.
          lower-IsBounded s
            (record s {
              pending_effects = without_like owner kind s.pending_effects;
              active = without_active_like owner kind s.active;
            })
            refl refl refl
            (let a = without_active_like-sum owner kind s.active in
              let e = without_like-sum owner kind s.pending_effects in omega (arith, a, e))
            b)
        (λ _. b)

  make_room-IsBounded :
      (s : OutputScheduler S B) (owner : ℕ) (kind : TerminalEventKind) (retained : ℕ)
      → Bounded s
      → Bounded (make_room s owner kind retained)
  unfolding make_room total
  make_room-IsBounded s owner kind retained b =
      if_cases Bounded
        (ltb s.config.maximum_pending_bytes (sat_add (retained_effect_bytes s) retained))
        (record s { pending_effects = without_first_like owner kind s.pending_effects }) s
        (λ _.
          lower-IsBounded s
            (record s { pending_effects = without_first_like owner kind s.pending_effects }) refl
            refl refl
            (let e = without_first_like-sum owner kind s.pending_effects in omega (arith, e)) b)
        (λ _. b)

  push_effect-IsBounded :
      (s : OutputScheduler S B) (effect : ScheduledTerminalEffect) (now_ms : ℕ)
      → Bounded s
      → Bounded (push_effect s effect now_ms)
  unfolding push_effect note_pending exceeds total
  push_effect-IsBounded s effect now_ms b =
      if_cases Bounded (exceeds s (terminal_event_retained_bytes effect.event)) s
        (record (note_pending s now_ms) { pending_effects = s.pending_effects ++ effect ∷ [] })
        (λ _. b)
        (λ e. record {
          limit = b.limit;
          sized = b.sized;
          bound =
              let f = fitting maximum fits s (terminal_event_retained_bytes effect.event) b e in
              let q = sum_effects-append s.pending_effects effect in omega (arith, f, q);
        })

  pub enqueue_terminal_effect-IsBounded :
      (s : OutputScheduler S B) (owner : ℕ) (event : TerminalEvent) (now_ms : ℕ)
      → Bounded s
      → Bounded (enqueue_terminal_effect s owner event now_ms)
  unfolding enqueue_terminal_effect
  enqueue_terminal_effect-IsBounded s owner event now_ms b =
      let bound = bound_terminal_effect event s.config.maximum_pending_bytes in
      let kind = terminal_event_kind bound in
      let retained = terminal_event_retained_bytes bound in
      let room = make_room (supersede s owner kind) owner kind retained in
      push_effect-IsBounded room (record { owner = owner; event = bound }) now_ms
        (make_room-IsBounded (supersede s owner kind) owner kind retained
          (supersede-IsBounded s owner kind b))
