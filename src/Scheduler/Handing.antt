-- ===== src/Scheduler/Handing.antt =====
-- The renders through the loops of `drain_ready` of src/output_scheduler.rs.
use lector.Prelude.{
  ◌≡◌, refl, sym, ap, ◌∙◌, Bool, true, false, Option, none, some, List, [], ◌∷◌, ◌++◌, append-nil,
  append_assoc, Bytes, is_empty, Bool-cases, inl, inr, subst,
}
use lector.Scheduler.State.{TrackedRender, ActiveTransaction, OutputScheduler, remaining}
use lector.Scheduler.Activation.{pending_transactions, activate_pending}
use lector.Scheduler.Completion.{Writer, flush_if_required, DrainReport}
use lector.Scheduler.Writing.{
  await_render, advance, LoopEnd, stopped, loop_blocked, loop_failed, Loop, write_loop,
  pop_completed,
}
use lector.Scheduler.Drain.{
  store_loop, finish_drain, after_writes, initial_loop, limits, write_active,
}
use lector.Scheduler.Loops.{write_loop-Holds, pop_completed-Holds}
use lector.Scheduler.Delivery.{
  render_of, active_renders, scheduled_renders, Delivers, delivered, abandoned, fail-abandons,
  flush_if_required-Hands, finish_drain-Delivers,
}

module _ {S B : Type 0} where
  active_renders-append :
      (ts us : List (ActiveTransaction S B))
      → active_renders (ts ++ us) ≡ active_renders ts ++ active_renders us
  unfolding active_renders
  active_renders-append [] us = refl
  active_renders-append (t ∷ ts) us =
      ap (λ (xs : List (TrackedRender S B)). render_of t.completed_render ++ xs)
        (active_renders-append ts us)
      ∙ sym (append_assoc (render_of t.completed_render) (active_renders ts) (active_renders us))

  await_render-append :
      (r : Option (TrackedRender S B)) (renders rest : List (TrackedRender S B))
      → await_render r renders ++ rest ≡ renders ++ (render_of r ++ rest)
  unfolding await_render render_of
  await_render-append none renders rest = refl
  await_render-append (some r) renders rest = append_assoc renders (r ∷ []) rest

module _ {S B : Type 0} (whole : List (TrackedRender S B)) where
  -- What awaits the flush and what is active make up the whole.
  Queues : List (ActiveTransaction S B) → List (TrackedRender S B) → Bytes → Type 0
  Queues ts renders output = renders ++ active_renders ts ≡ whole

  popped-Queues :
      (t : ActiveTransaction S B) (ts : List (ActiveTransaction S B))
      (renders : List (TrackedRender S B)) (output : Bytes)
      → is_empty (remaining t) ≡ true
      → Queues (t ∷ ts) renders output
      → Queues ts (await_render t.completed_render renders) output
  unfolding Queues active_renders
  popped-Queues t ts renders output e h =
      await_render-append t.completed_render renders (active_renders ts) ∙ h

  written-Queues :
      (t : ActiveTransaction S B) (ts : List (ActiveTransaction S B))
      (renders : List (TrackedRender S B)) (output taken : Bytes)
      → taken ++ remaining (advance taken t) ≡ remaining t
      → Queues (t ∷ ts) renders output
      → Queues (advance taken t ∷ ts) renders (output ++ taken)
  unfolding Queues active_renders
  written-Queues t ts renders output taken e h = h

module _ {S B : Type 0} where
  -- Behind the loop, when the report and the scheduler hold the whole
  finish_stored :
      (total : List (TrackedRender S B)) (s : OutputScheduler S B) (r : DrainReport S B)
      (w : Writer)
      → r.completed_renders ++ scheduled_renders s ≡ total
      → Delivers total (finish_drain (flush_if_required s r w))
  finish_stored total s r w h =
      subst (λ (t : List (TrackedRender S B)). Delivers t (finish_drain (flush_if_required s r w)))
        h
        (finish_drain-Delivers (r.completed_renders ++ scheduled_renders s)
          (flush_if_required s r w) (flush_if_required-Hands s r w))

  store_loop-renders :
      (s : OutputScheduler S B) (l : Loop S B)
      → l.awaiting_renders ++ active_renders l.active
        ≡ s.awaiting_flush_renders ++ active_renders s.active
      → scheduled_renders (store_loop s l) ≡ scheduled_renders s
  unfolding store_loop scheduled_renders pending_transactions
  store_loop-renders s l h =
      sym (
        append_assoc l.awaiting_renders (active_renders l.active)
          (active_renders (pending_transactions s)))
      ∙ (ap (λ (xs : List (TrackedRender S B)). xs ++ active_renders (pending_transactions s)) h
          ∙ append_assoc s.awaiting_flush_renders (active_renders s.active)
              (active_renders (pending_transactions s)))

  after_writes-Delivers :
      (s : OutputScheduler S B) (r : DrainReport S B) (w : Writer) (ending : LoopEnd) (l : Loop S B)
      → l.awaiting_renders ++ active_renders l.active
        ≡ s.awaiting_flush_renders ++ active_renders s.active
      → Delivers (r.completed_renders ++ scheduled_renders s) (after_writes s r w ending l)
  unfolding after_writes Queues scheduled_renders pending_transactions
  after_writes-Delivers s r w (loop_failed reason) l h = abandoned (fail-abandons (store_loop s l))
  after_writes-Delivers s r w loop_blocked l h =
      delivered (
        ap (λ (xs : List (TrackedRender S B)). r.completed_renders ++ xs)
          (store_loop-renders s l h))
  after_writes-Delivers s r w (stopped true) l h =
      finish_stored (r.completed_renders ++ scheduled_renders s) (store_loop s l)
        (record r { bytes_written = l.bytes_written }) w
        (ap (λ (xs : List (TrackedRender S B)). r.completed_renders ++ xs)
          (store_loop-renders s l h))
  after_writes-Delivers s r w (stopped false) l h =
      let l' = pop_completed s.bypass_generation l.active l in
      let whole = s.awaiting_flush_renders ++ active_renders s.active in
      finish_stored (r.completed_renders ++ scheduled_renders s) (store_loop s l')
        (record r { bytes_written = l.bytes_written }) w
        (ap (λ (xs : List (TrackedRender S B)). r.completed_renders ++ xs)
          (store_loop-renders s l' (
            pop_completed-Holds (Queues whole) (popped-Queues whole) (written-Queues whole)
              s.bypass_generation l.active l h)))

  write_active-Delivers :
      (s : OutputScheduler S B) (r : DrainReport S B) (w : Writer) (started_only : Bool)
      → Delivers (r.completed_renders ++ scheduled_renders s) (write_active s r w started_only)
  unfolding write_active Queues
  write_active-Delivers s r w started_only =
      let (ending, writes, l) =
        write_loop (limits s started_only) w.writes s.active (initial_loop s r w) in
      let whole = s.awaiting_flush_renders ++ active_renders s.active in
      after_writes-Delivers s r (record w { writes = writes; output = l.output }) ending l
        (write_loop-Holds (Queues whole) (popped-Queues whole) (written-Queues whole)
          (limits s started_only) w.writes s.active (initial_loop s r w) refl)

  is_empty-active_renders :
      (ts : List (ActiveTransaction S B)) → is_empty ts ≡ true → active_renders ts ≡ []
  unfolding active_renders
  is_empty-active_renders [] h = refl
  is_empty-active_renders (t ∷ ts) h = cc

  activate_pending-renders :
      (s : OutputScheduler S B) → scheduled_renders (activate_pending s) ≡ scheduled_renders s
  unfolding scheduled_renders activate_pending pending_transactions
  activate_pending-renders s = elim (Bool-cases (is_empty s.active)) [
    | inr f ↦ rw (f, activate_pending) refl
    | inl t ↦
        rw (t, activate_pending)
          (ap (λ (xs : List (TrackedRender S B)). s.awaiting_flush_renders ++ xs)
            (append-nil (active_renders (pending_transactions s))
              ∙ ap
                  (λ (xs : List (TrackedRender S B)). xs ++ active_renders (pending_transactions s))
                  (sym (is_empty-active_renders s.active t))))
  ]

  pub activated :
      (s : OutputScheduler S B) (r : DrainReport S B) (w : Writer) (started_only : Bool)
      → Delivers
          (r.completed_renders ++ scheduled_renders s)
          (write_active (activate_pending s) r w started_only)
  activated s r w started_only =
      subst
        (λ (xs : List (TrackedRender S B)).
          Delivers (r.completed_renders ++ xs) (write_active (activate_pending s) r w started_only))
        (activate_pending-renders s) (write_active-Delivers (activate_pending s) r w started_only)
