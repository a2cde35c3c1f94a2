-- ===== src/Scheduler/Delivery.antt =====
-- The renders that `drain_ready` of src/output_scheduler.rs reports, and those that it keeps.
use lector.Prelude.{
  ◌≡◌, refl, sym, ap, ◌∙◌, false, Option, none, some, List, [], ◌∷◌, ◌++◌, append-nil, append_assoc,
  if_cases,
}
use lector.Scheduler.State.{TrackedRender, ActiveTransaction, OutputScheduler}
use lector.Scheduler.Activation.{pending_transactions}
use lector.Scheduler.Completion.{
  IoError, Writer, FlushEnd, flush_done, flush_blocked, flush_failed, flush_loop, flush_end,
  flush_writer, flush_if_required, DrainReport, Drained, reported, failed, Progress, goes_on,
  returns, fails, fail, complete_render, complete_renders, complete_awaiting_renders,
}
use lector.Scheduler.Drain.{report_all, finish_drain}

module _ {S B : Type 0} where
  unfoldable pub render_of : Option (TrackedRender S B) → List (TrackedRender S B)
  render_of none = []
  render_of (some r) = r ∷ []

  unfoldable pub active_renders : List (ActiveTransaction S B) → List (TrackedRender S B)
  unfolding render_of
  active_renders [] = []
  active_renders (t ∷ ts) = render_of t.completed_render ++ active_renders ts

  -- The renders that are written but not flushed, then those that are not written
  unfoldable pub scheduled_renders : OutputScheduler S B → List (TrackedRender S B)
  unfolding pending_transactions active_renders
  scheduled_renders s =
      s.awaiting_flush_renders
      ++ (active_renders s.active ++ active_renders (pending_transactions s))

  -- The renders that are reported, followed by those that are still scheduled, make up the whole; a failure
  -- leaves none.
  pub data Delivers (total : List (TrackedRender S B))
      : OutputScheduler S B × Writer × Drained S B → Type 0 where
    delivered :
        {s : OutputScheduler S B} {w : Writer} {r : DrainReport S B}
        → r.completed_renders ++ scheduled_renders s ≡ total
        → Delivers total (s, w, reported r)
    abandoned :
        {s : OutputScheduler S B} {w : Writer} {reason : IoError}
        → scheduled_renders s ≡ []
        → Delivers total (s, w, failed reason)

  -- The same of a step within the drain
  pub data Hands (total : List (TrackedRender S B)) : Progress S B → Type 0 where
    on :
        {s : OutputScheduler S B} {r : DrainReport S B} {w : Writer}
        → r.completed_renders ++ scheduled_renders s ≡ total
        → Hands total (goes_on s r w)
    back :
        {s : OutputScheduler S B} {r : DrainReport S B} {w : Writer}
        → r.completed_renders ++ scheduled_renders s ≡ total
        → Hands total (returns s r w)
    broken :
        {s : OutputScheduler S B} {reason : IoError} {w : Writer}
        → scheduled_renders s ≡ []
        → Hands total (fails s reason w)

  complete_renders-reports :
      (s : OutputScheduler S B) (r : DrainReport S B) (renders : List (TrackedRender S B))
      → (complete_renders s r renders).1.completed_renders ≡ r.completed_renders ++ renders
  unfolding complete_renders complete_render
  complete_renders-reports s r [] = sym (append-nil r.completed_renders)
  complete_renders-reports s r (tracked ∷ renders) =
      let (s', r') = complete_render s r tracked in
      complete_renders-reports s' r' renders
      ∙ append_assoc r.completed_renders (tracked ∷ []) renders

  -- The renders that are not written
  unfoldable pub unwritten_renders : OutputScheduler S B → List (TrackedRender S B)
  unwritten_renders s = active_renders s.active ++ active_renders (pending_transactions s)

  complete_renders-unwritten :
      (s : OutputScheduler S B) (r : DrainReport S B) (renders : List (TrackedRender S B))
      → unwritten_renders (complete_renders s r renders).0 ≡ unwritten_renders s
  unfolding complete_renders complete_render unwritten_renders pending_transactions
  complete_renders-unwritten s r [] = refl
  complete_renders-unwritten s r (tracked ∷ renders) =
      let (s', r') = complete_render s r tracked in complete_renders-unwritten s' r' renders

  complete_awaiting-delivers :
      (s : OutputScheduler S B) (r : DrainReport S B)
      → (complete_awaiting_renders s r).1.completed_renders
          ++ scheduled_renders (complete_awaiting_renders s r).0
        ≡ r.completed_renders ++ scheduled_renders s
  unfolding complete_awaiting_renders scheduled_renders unwritten_renders pending_transactions
  complete_awaiting-delivers s r =
      let renders = s.awaiting_flush_renders in
      ap
        (λ (xs : List (TrackedRender S B)).
          xs ++ unwritten_renders (complete_renders s r renders).0)
        (complete_renders-reports s r renders)
      ∙ (ap (λ (xs : List (TrackedRender S B)). (r.completed_renders ++ renders) ++ xs)
            (complete_renders-unwritten s r renders)
          ∙ append_assoc r.completed_renders renders (unwritten_renders s))

  pub fail-abandons : (s : OutputScheduler S B) → scheduled_renders (fail s) ≡ []
  unfolding fail scheduled_renders pending_transactions
  fail-abandons s = refl

  flush_end-Hands :
      (s : OutputScheduler S B) (r : DrainReport S B) (w : Writer) (ending : FlushEnd)
      → Hands (r.completed_renders ++ scheduled_renders s) (flush_end s r w ending)
  unfolding flush_end scheduled_renders pending_transactions
  flush_end-Hands s r w flush_done =
      on (complete_awaiting-delivers (record s { flush_required = false }) r)
  flush_end-Hands s r w flush_blocked = back refl
  flush_end-Hands s r w (flush_failed reason) = broken (fail-abandons s)

  pub flush_if_required-Hands :
      (s : OutputScheduler S B) (r : DrainReport S B) (w : Writer)
      → Hands (r.completed_renders ++ scheduled_renders s) (flush_if_required s r w)
  unfolding flush_if_required flush_writer
  flush_if_required-Hands s r w =
      if_cases (Hands (r.completed_renders ++ scheduled_renders s)) s.flush_required
        (flush_writer s r w) (goes_on s r w)
        (λ _.
          flush_end-Hands s r (record w { flushes = (flush_loop w.flushes).1 })
            (flush_loop w.flushes).0)
        (λ _. on refl)

  pub finish_drain-Delivers :
      (total : List (TrackedRender S B)) (p : Progress S B)
      → Hands total p
      → Delivers total (finish_drain p)
  unfolding finish_drain report_all
  finish_drain-Delivers total (goes_on s r w) (on h) =
      if_cases (λ (q : OutputScheduler S B × DrainReport S B). Delivers total (report_all q w))
        s.flush_required (s, r) (complete_awaiting_renders s r) (λ _. delivered h)
        (λ _. delivered (complete_awaiting-delivers s r ∙ h))
  finish_drain-Delivers total (returns s r w) (back h) = delivered h
  finish_drain-Delivers total (fails s reason w) (broken h) = abandoned h
