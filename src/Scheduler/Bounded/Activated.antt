-- ===== src/Scheduler/Bounded/Activated.antt =====
-- The bound, when the pending work of src/output_scheduler.rs becomes active.
use lector.Prelude.{
  ℕ, zero, suc, ◌+◌, ◌≤◌, ◌<◌, ◌≡◌, refl, Bool, not, Option, none, some, List, [], ◌∷◌, ◌++◌, arith,
  usize_max, if_cases, is_empty,
}
use lector.Scheduler.Effects.{terminal_event_retained_bytes}
use lector.Scheduler.State.{
  ActiveTransaction, OutputScheduler, PendingBytes, ScheduledTerminalEffect, PendingRender,
  sum_active, sum_queued, sum_effects, render_len,
}
use lector.Scheduler.Activation.{
  activate_bytes, activate_effects, activate_render, activate_bells, pending_transactions,
  activate_pending,
}
use lector.Scheduler.Capacity.{total, IsSized, slack, slack-le, IsBounded}
use lector.Scheduler.Capacity.Encoded.{encode-length, render_bytes-length, bell_bytes-length}

module _ (S B : Type 0) where
  activate_bytes-sum :
      (ps : List PendingBytes) → sum_active (activate_bytes {S = S} {B = B} ps) ≡ sum_queued ps
  unfolding sum_active sum_queued activate_bytes
  activate_bytes-sum [] = refl
  activate_bytes-sum (p ∷ ps) = let h = activate_bytes-sum ps in omega (arith, h)

  -- An effect is written in no more bytes than were counted, where the count does not saturate.
  activate_effects-sum :
      (es : List ScheduledTerminalEffect)
      → sum_effects es < usize_max
      → sum_active (activate_effects {S = S} {B = B} es) ≤ sum_effects es
  unfolding sum_active sum_effects activate_effects terminal_event_retained_bytes
  activate_effects-sum [] h = omega arith
  activate_effects-sum (e ∷ es) h =
      let rest = activate_effects-sum es (omega (arith, h)) in
      let l = encode-length e.event in omega (arith, rest, l, h)

  activate_bells-sum : (n : ℕ) → sum_active (activate_bells {S = S} {B = B} n) ≡ n
  unfolding sum_active activate_bells
  activate_bells-sum zero = refl
  activate_bells-sum (suc n) = let l = bell_bytes-length (suc n) in omega (arith, l)

module _ {S B : Type 0} where
  sum_active-append :
      (ts us : List (ActiveTransaction S B)) → sum_active (ts ++ us) ≡ sum_active ts + sum_active us
  unfolding sum_active
  sum_active-append [] us = omega arith
  sum_active-append (t ∷ ts) us = let h = sum_active-append ts us in omega (arith, h)

  activate_render-sum :
      (supported : Bool) (r : Option (PendingRender S B))
      → IsSized supported r
      → sum_active (activate_render supported r) ≤ render_len r
  unfolding sum_active render_len activate_render IsSized
  activate_render-sum supported none h = omega arith
  activate_render-sum supported (some r) h =
      let l = render_bytes-length supported r.batch.transactions in omega (arith, h, l)

  pending_transactions-sum :
      (s : OutputScheduler S B)
      → IsSized s.synchronized_output_supported s.pending_render
      → sum_effects s.pending_effects < usize_max
      → sum_active (pending_transactions s)
        ≤ sum_queued s.queued_bytes
          + render_len s.pending_render
          + sum_effects s.pending_effects
          + s.pending_bells
  unfolding pending_transactions
  pending_transactions-sum s z h =
      let queued : List (ActiveTransaction S B) = activate_bytes s.queued_bytes in
      let effects : List (ActiveTransaction S B) = activate_effects s.pending_effects in
      let shown : List (ActiveTransaction S B) =
        activate_render s.synchronized_output_supported s.pending_render in
      let rung : List (ActiveTransaction S B) = activate_bells s.pending_bells in
      let a = sum_active-append queued (effects ++ (shown ++ rung)) in
      let b = sum_active-append effects (shown ++ rung) in
      let c = sum_active-append shown rung in
      let q = activate_bytes-sum S B s.queued_bytes in
      let e = activate_effects-sum S B s.pending_effects h in
      let r = activate_render-sum s.synchronized_output_supported s.pending_render z in
      let n = activate_bells-sum S B s.pending_bells in omega (arith, a, b, c, q, e, r, n)

  pub activate_pending-IsBounded :
      (maximum : ℕ)
      → maximum + 16 < usize_max
      → (s : OutputScheduler S B) → IsBounded maximum s
      → IsBounded maximum (activate_pending s)
  unfolding activate_pending total IsSized slack render_len sum_queued sum_effects
  activate_pending-IsBounded maximum fits s b =
      if_cases (IsBounded maximum) (not (is_empty s.active)) s activated (λ _. b)
        (λ _. record {
          limit = b.limit;
          sized = refl;
          bound =
              let l = slack-le s.synchronized_output_supported s.pending_render in
              let h = b.bound in
              let p = pending_transactions-sum s b.sized (omega (arith, l, h, fits)) in
              omega (arith, p, l, h);
        })
    where
      activated : OutputScheduler S B
      activated = record s {
        active = pending_transactions s;
        queued_bytes = [];
        pending_effects = [];
        pending_render = none;
        pending_bells = 0;
        pending_since_ms = none;
      }
