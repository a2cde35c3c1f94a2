-- ===== src/Scheduler/Bounded/Renders.antt =====
-- The bound and the renders of src/output_scheduler.rs.
use lector.Prelude.{
  ℕ, ◌+◌, ◌≤◌, ◌≡◌, refl, ap, ◌∙◌, Bool, true, false, ◌||◌, Option, none, some, List, arith,
  usize_max, ltb, leb, if_cases, subst,
}
use lector.Scheduler.Effects.{sat_add}
use lector.Scheduler.State.{
  ActiveTransaction, OutputSchedulerConfig, OutputScheduler, RenderBatch, PendingRender, sum_active,
  sum_queued, sum_effects, render_len, EnqueueOutcome, note_pending,
}
use lector.Scheduler.Visual.{
  sum_transactions, markers_len, take_replaceable, render_batch_byte_len, replace_active,
  accept_render, drop_render, retained_bytes, accept_sized, resized,
  set_synchronized_output_supported,
}
use lector.Scheduler.Capacity.{
  total, IsSized, slack, IsBounded, take_bells-sum, others_sum, take_replaceable-sum,
}
use lector.Scheduler.Bounded.{pending-exact}

or-false : (a b : Bool) → (a || b) ≡ false → b ≡ false
or-false true b h = cc
or-false false b h = h

module _ {S B : Type 0} (maximum : ℕ) (fits : maximum + 16 ≤ usize_max) where
  abbrev Bounded : OutputScheduler S B → Type 0
  Bounded s = IsBounded maximum s

  resized-IsSized :
      (was now : Bool) (r : Option (PendingRender S B))
      → IsSized was r
      → render_len r ≤ maximum + slack was r
      → IsSized now (resized was now r)
  unfolding resized IsSized render_len slack
  resized-IsSized was now none h l = refl
  resized-IsSized false true (some r) h l = omega (arith, h, l, fits)
  resized-IsSized true false (some r) h l = omega (arith, h)
  resized-IsSized false false (some r) h l = h
  resized-IsSized true true (some r) h l = h

  resized-slack :
      (was now : Bool) (r : Option (PendingRender S B))
      → IsSized was r
      → render_len (resized was now r) + slack was r ≤ render_len r + slack now (resized was now r)
  unfolding resized IsSized render_len slack
  resized-slack was now none h = omega arith
  resized-slack false true (some r) h = omega arith
  resized-slack true false (some r) h = omega (arith, h)
  resized-slack false false (some r) h = omega arith
  resized-slack true true (some r) h = omega arith

  pub support-IsBounded :
      (s : OutputScheduler S B) (supported : Bool)
      → Bounded s
      → Bounded (set_synchronized_output_supported s supported)
  unfolding set_synchronized_output_supported total
  support-IsBounded s supported b = record {
    limit = b.limit;
    sized =
        let h = b.bound in
        resized-IsSized s.synchronized_output_supported supported s.pending_render b.sized
          (omega (arith, h));
    bound =
        let h = b.bound in
        let r = resized-slack s.synchronized_output_supported supported s.pending_render b.sized in
        omega (arith, h, r);
  }

  -- The sum behind the replacement of a render that has not begun
  replace_active-sum :
      (s : OutputScheduler S B)
      (replaced : Option (ActiveTransaction S B × List (ActiveTransaction S B))) (now_ms : ℕ)
      → sum_active (replace_active s replaced now_ms).active
          + (replace_active s replaced now_ms).pending_bells
        ≤ others_sum s.active replaced + s.pending_bells
  unfolding replace_active others_sum
  replace_active-sum s none now_ms = omega arith
  replace_active-sum s (some (found, others)) now_ms =
      let h = take_bells-sum s.pending_bells others in omega (arith, h)

  -- What the render does not change
  replace_active-config :
      (s : OutputScheduler S B)
      (replaced : Option (ActiveTransaction S B × List (ActiveTransaction S B))) (now_ms : ℕ)
      → (replace_active s replaced now_ms).config ≡ s.config
  unfolding replace_active
  replace_active-config s none now_ms = refl
  replace_active-config s (some (found, others)) now_ms = refl

  replace_active-support :
      (s : OutputScheduler S B)
      (replaced : Option (ActiveTransaction S B × List (ActiveTransaction S B))) (now_ms : ℕ)
      → (replace_active s replaced now_ms).synchronized_output_supported
        ≡ s.synchronized_output_supported
  unfolding replace_active
  replace_active-support s none now_ms = refl
  replace_active-support s (some (found, others)) now_ms = refl

  replace_active-queues :
      (s : OutputScheduler S B)
      (replaced : Option (ActiveTransaction S B × List (ActiveTransaction S B))) (now_ms : ℕ)
      → sum_queued (replace_active s replaced now_ms).queued_bytes
          + sum_effects (replace_active s replaced now_ms).pending_effects
        ≡ sum_queued s.queued_bytes + sum_effects s.pending_effects
  unfolding replace_active
  replace_active-queues s none now_ms = refl
  replace_active-queues s (some (found, others)) now_ms = refl

  -- What stays fits together with the render.
  kept-le :
      (s : OutputScheduler S B) (len : ℕ)
      → Bounded s
      → ltb s.config.maximum_pending_bytes (sat_add (retained_bytes s) len) ≡ false
      → retained_bytes s + len ≤ maximum
  kept-le s len b e =
      let h : ltb maximum (sat_add (retained_bytes s) len) ≡ false =
        subst (λ m. ltb m (sat_add (retained_bytes s) len) ≡ false) b.limit e in
      ground (arith, h, fits)

  accept_render-IsBounded :
      (s : OutputScheduler S B) (batch : RenderBatch S B) (accessibility : B) (len now_ms : ℕ)
      → Bounded s
      → len ≡ sum_transactions batch.transactions + markers_len s.synchronized_output_supported
      → ltb s.config.maximum_pending_bytes (sat_add (retained_bytes s) len) ≡ false
      → Bounded (accept_render s batch accessibility len now_ms).0
  unfolding accept_render note_pending retained_bytes total IsSized slack render_len
  accept_render-IsBounded s batch accessibility len now_ms b n e =
      let replaced = take_replaceable s.active in
      record {
        limit =
            ap (λ (k : OutputSchedulerConfig). k.maximum_pending_bytes)
              (replace_active-config s replaced now_ms)
            ∙ b.limit;
        sized = rw (replace_active-support s replaced now_ms) n;
        bound =
            let r = take_replaceable-sum s.active in
            let a = replace_active-sum s replaced now_ms in
            let q = replace_active-queues s replaced now_ms in
            let p = pending-exact maximum fits s b in
            let f = kept-le s len b e in omega (arith, r, a, q, p, f);
      }

  -- A length of the bytes, where there is one
  abbrev IsLength : RenderBatch S B → Bool → Option ℕ → Type 0
  IsLength batch supported none = true ≡ true
  IsLength batch supported (some len) =
      len ≡ sum_transactions batch.transactions + markers_len supported

  pub accept_sized-IsBounded :
      (s : OutputScheduler S B) (batch : RenderBatch S B) (accessibility : B) (now_ms : ℕ)
      (len : Option ℕ)
      → IsLength batch s.synchronized_output_supported len
      → Bounded s
      → Bounded (accept_sized s batch accessibility now_ms len).0
  unfolding accept_sized drop_render total
  accept_sized-IsBounded s batch accessibility now_ms none h b = record {
    limit = b.limit;
    sized = b.sized;
    bound = b.bound;
  }
  accept_sized-IsBounded s batch accessibility now_ms (some len) h b =
      if_cases (λ (q : OutputScheduler S B × EnqueueOutcome). Bounded q.0)
        (ltb s.config.maximum_pending_bytes len
          || ltb s.config.maximum_pending_bytes (sat_add (retained_bytes s) len))
        (drop_render s) (accept_render s batch accessibility len now_ms)
        (λ _. record { limit = b.limit; sized = b.sized; bound = b.bound })
        (λ e. accept_render-IsBounded s batch accessibility len now_ms b h (
          or-false (ltb s.config.maximum_pending_bytes len)
            (ltb s.config.maximum_pending_bytes (sat_add (retained_bytes s) len)) e))

  pub render_batch_byte_len-IsLength :
      (batch : RenderBatch S B) (supported : Bool)
      → IsLength batch supported (render_batch_byte_len batch supported)
  unfolding render_batch_byte_len
  render_batch_byte_len-IsLength batch supported =
      let sum = sum_transactions batch.transactions + markers_len supported in
      if_cases (IsLength batch supported) (leb sum usize_max) (some sum) none (λ _. refl)
        (λ _. refl)
