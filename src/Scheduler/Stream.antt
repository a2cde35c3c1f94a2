-- ===== src/Scheduler/Stream.antt =====
-- What becomes of the scheduled bytes in `drain_ready` of src/output_scheduler.rs.
use lector.Prelude.{
  ◌≡◌, refl, sym, ap, ◌∙◌, true, false, List, [], ◌∷◌, ◌++◌, append-nil, Bytes, is_empty, if_cases,
  Bool-cases, inl, inr,
}
use lector.Scheduler.State.{TrackedRender, ActiveTransaction, OutputScheduler}
use lector.Scheduler.Activation.{pending_transactions, activate_pending}
use lector.Scheduler.Completion.{
  IoError, Writer, FlushEnd, flush_done, flush_blocked, flush_failed, flush_loop, flush_end,
  flush_writer, flush_if_required, DrainReport, Drained, reported, failed, Progress, goes_on,
  returns, fails, fail, complete_render, complete_renders, complete_awaiting_renders,
}
use lector.Scheduler.Drain.{report_all, finish_drain}
use lector.Scheduler.Order.{unwritten}

module _ {S B : Type 0} where
  -- All bytes that are scheduled, in the order in which they will be written
  unfoldable pub stream : OutputScheduler S B → Bytes
  unfolding pending_transactions unwritten
  stream s = unwritten s.active ++ unwritten (pending_transactions s)

  -- What has been written and what is still scheduled make up the whole; behind a failure, when nothing
  -- is scheduled any more, what has been written is the beginning of the whole.
  pub data Drains (total : Bytes) : OutputScheduler S B × Writer × Drained S B → Type 0 where
    conserved :
        {s : OutputScheduler S B} {w : Writer} {r : DrainReport S B}
        → w.output ++ stream s ≡ total
        → Drains total (s, w, reported r)
    cut_off :
        {s : OutputScheduler S B} {w : Writer} {reason : IoError}
        → (lost : Bytes) → w.output ++ lost ≡ total
        → stream s ≡ []
        → s.needs_reconciliation ≡ true
        → Drains total (s, w, failed reason)

  pub data Proceeds (total : Bytes) : Progress S B → Type 0 where
    on :
        {s : OutputScheduler S B} {r : DrainReport S B} {w : Writer}
        → w.output ++ stream s ≡ total
        → Proceeds total (goes_on s r w)
    back :
        {s : OutputScheduler S B} {r : DrainReport S B} {w : Writer}
        → w.output ++ stream s ≡ total
        → Proceeds total (returns s r w)
    broken :
        {s : OutputScheduler S B} {reason : IoError} {w : Writer}
        → (lost : Bytes) → w.output ++ lost ≡ total
        → stream s ≡ []
        → s.needs_reconciliation ≡ true
        → Proceeds total (fails s reason w)

  pub stream-fail : (s : OutputScheduler S B) → stream (fail s) ≡ []
  unfolding stream fail
  stream-fail s = refl

  stream-complete_renders :
      (s : OutputScheduler S B) (r : DrainReport S B) (renders : List (TrackedRender S B))
      → stream (complete_renders s r renders).0 ≡ stream s
  unfolding stream complete_renders complete_render
  stream-complete_renders s r [] = refl
  stream-complete_renders s r (tracked ∷ renders) =
      let (s', r') = complete_render s r tracked in stream-complete_renders s' r' renders

  stream-complete_awaiting_renders :
      (s : OutputScheduler S B) (r : DrainReport S B)
      → stream (complete_awaiting_renders s r).0 ≡ stream s
  unfolding complete_awaiting_renders stream
  stream-complete_awaiting_renders s r = stream-complete_renders s r s.awaiting_flush_renders

  is_empty-unwritten : (ts : List (ActiveTransaction S B)) → is_empty ts ≡ true → unwritten ts ≡ []
  unfolding unwritten
  is_empty-unwritten [] h = refl
  is_empty-unwritten (t ∷ ts) h = cc

  pub stream-activate_pending : (s : OutputScheduler S B) → stream (activate_pending s) ≡ stream s
  unfolding stream activate_pending
  stream-activate_pending s = elim (Bool-cases (is_empty s.active)) [
    | inr f ↦ rw (f, activate_pending) refl
    | inl t ↦
        rw (t, activate_pending)
          (append-nil (unwritten (pending_transactions s))
            ∙ ap (λ (bs : Bytes). bs ++ unwritten (pending_transactions s))
                (sym (is_empty-unwritten s.active t)))
  ]

  flush_end-Proceeds :
      (s : OutputScheduler S B) (r : DrainReport S B) (w : Writer) (ending : FlushEnd)
      → Proceeds (w.output ++ stream s) (flush_end s r w ending)
  unfolding flush_end stream
  flush_end-Proceeds s r w flush_done = on (
      ap (λ (bs : Bytes). w.output ++ bs)
        (stream-complete_awaiting_renders (record s { flush_required = false }) r))
  flush_end-Proceeds s r w flush_blocked = back refl
  flush_end-Proceeds s r w (flush_failed reason) = broken (stream s) refl (stream-fail s) fail_asks
    where
      fail_asks : (fail s).needs_reconciliation ≡ true
      fail_asks = refl

  pub flush_if_required-Proceeds :
      (s : OutputScheduler S B) (r : DrainReport S B) (w : Writer)
      → Proceeds (w.output ++ stream s) (flush_if_required s r w)
  unfolding flush_if_required flush_writer
  flush_if_required-Proceeds s r w =
      if_cases (Proceeds (w.output ++ stream s)) s.flush_required (flush_writer s r w)
        (goes_on s r w)
        (λ _.
          flush_end-Proceeds s r (record w { flushes = (flush_loop w.flushes).1 })
            (flush_loop w.flushes).0)
        (λ _. on refl)

  report_all-Drains :
      (total : Bytes) (s : OutputScheduler S B) (r : DrainReport S B) (w : Writer)
      → w.output ++ stream s ≡ total
      → Drains total (report_all (s, r) w)
  unfolding report_all
  report_all-Drains total s r w h = conserved h

  pub finish_drain-Drains :
      (total : Bytes) (p : Progress S B) → Proceeds total p → Drains total (finish_drain p)
  unfolding finish_drain
  finish_drain-Drains total (goes_on s r w) (on h) =
      if_cases (λ (q : OutputScheduler S B × DrainReport S B). Drains total (report_all q w))
        s.flush_required (s, r) (complete_awaiting_renders s r)
        (λ _. report_all-Drains total s r w h)
        (λ _.
          let (s', r') = complete_awaiting_renders s r in
          report_all-Drains total s' r' w
            (ap (λ (bs : Bytes). w.output ++ bs) (stream-complete_awaiting_renders s r) ∙ h))
  finish_drain-Drains total (returns s r w) (back h) = conserved h
  finish_drain-Drains total (fails s reason w) (broken lost h e n) = cut_off lost h e n
