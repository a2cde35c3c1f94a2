-- ===== src/Scheduler/Visual.antt =====
-- The visual work that the application queues, in src/output_scheduler.rs: renders, effects and bells.
use lector.Prelude.{
  ℕ, ◌+◌, ◌-◌, ◌%◌, ◌^◌, min, max, usize_max, Bool, true, false, ◌&&◌, ◌||◌, Option, none, some,
  List, [], ◌∷◌, Bytes, is_some, length, ltb, leb, ◌==◌, if◌then◌else◌,
}
use lector.Scheduler.Effects.{sat_add}
use lector.Scheduler.State.{
  EnqueueOutcome, queued, replaced_obsolete_render, dropped_for_capacity, is_render, is_bells,
  RenderBatch, PendingRender, ActiveTransaction, OutputScheduler, is_generation, completes,
  pending_bytes, render_len, note_pending,
}

unfoldable pub sum_transactions : List Bytes → ℕ
sum_transactions [] = 0
sum_transactions (t ∷ ts) = length t + sum_transactions ts

-- `wrapping_add(1).max(1)` of a `u64`
next_generation : ℕ → ℕ
next_generation generation = max ((generation + 1) % 2 ^ 64) 1

abbrev pub markers_len : Bool → ℕ
markers_len true = 16
markers_len false = 0

module _ {S B : Type 0} where
  -- The checked sums; `none` when one overflows, and then the whole one does.
  unfoldable pub render_batch_byte_len : RenderBatch S B → Bool → Option ℕ
  unfolding sum_transactions
  render_batch_byte_len batch supported =
      let total = sum_transactions batch.transactions + markers_len supported in
      if leb total usize_max then some total else none

  unfoldable pub is_replaceable : ActiveTransaction S B → Bool
  is_replaceable t = is_render t.kind && t.offset == 0

  -- The first render that has not begun, and the transactions without it
  unfoldable pub take_replaceable :
      List (ActiveTransaction S B) → Option (ActiveTransaction S B × List (ActiveTransaction S B))
  unfolding is_replaceable
  take_replaceable [] = none
  take_replaceable (t ∷ ts) =
      let rest = take_replaceable ts in
      if is_replaceable t
      then some (t, ts)
      else elim rest [ none ↦ none | some (found, others) ↦ some (found, t ∷ others) ]

  unfoldable pub is_unstarted_bell : ActiveTransaction S B → Bool
  is_unstarted_bell t = is_bells t.kind && t.offset == 0

  -- The bells that have not begun, counted, and the transactions without them
  unfoldable pub take_bells : ℕ → List (ActiveTransaction S B) → ℕ × List (ActiveTransaction S B)
  unfolding is_unstarted_bell
  take_bells count [] = (count, [])
  take_bells count (t ∷ ts) =
      let bell = is_unstarted_bell t in
      let (total, kept) = take_bells (if bell then sat_add count (length t.bytes) else count) ts in
      (total, if bell then kept else t ∷ kept)

  -- `render.generation` of the pending render, which is about to be replaced, is the one given.
  pending_completes : Option ℕ → Option (PendingRender S B) → Bool
  pending_completes generation none = false
  pending_completes generation (some r) = is_generation generation r.generation

  -- A render in the place of an active one that has not begun
  unfoldable pub replace_active :
      OutputScheduler S B
      → Option (ActiveTransaction S B × List (ActiveTransaction S B))
      → ℕ
      → OutputScheduler S B
  unfolding take_bells
  replace_active s none now_ms = s
  replace_active s (some (found, others)) now_ms =
      let (total, kept) = take_bells s.pending_bells others in
      record s {
        active = kept;
        pending_bells = total;
        pending_since_ms = some (now_ms - s.config.latency_budget_ms);
      }

  replaced_completes :
      Option ℕ → Option (ActiveTransaction S B × List (ActiveTransaction S B)) → Bool
  unfolding completes
  replaced_completes generation none = false
  replaced_completes generation (some (found, others)) = completes generation found.completed_render

  unfoldable pub replaced_len : Option (ActiveTransaction S B × List (ActiveTransaction S B)) → ℕ
  replaced_len none = 0
  replaced_len (some (found, others)) = length found.bytes

  -- The render is accepted, with the length of its bytes.
  unfoldable pub accept_render :
      OutputScheduler S B → RenderBatch S B → B → ℕ → ℕ → OutputScheduler S B × EnqueueOutcome
  unfolding pending_completes replace_active replaced_completes next_generation take_replaceable
      note_pending
  accept_render s batch accessibility render_bytes now_ms =
      let replaced = take_replaceable s.active in
      let generation = s.next_render_generation in
      let releases =
        pending_completes s.release_generation s.pending_render
        || replaced_completes s.release_generation replaced in
      let bypasses =
        s.bypass_next_render
        || pending_completes s.bypass_generation s.pending_render
        || replaced_completes s.bypass_generation replaced in
      (
        record (note_pending (replace_active s replaced now_ms) now_ms) {
          bypass_next_render = false;
          next_render_generation = next_generation generation;
          release_generation = if releases then some generation else s.release_generation;
          bypass_generation = if bypasses then some generation else s.bypass_generation;
          pending_render = some (record {
            batch = batch;
            byte_len = render_bytes;
            generation = generation;
            accessibility = accessibility;
          });
        },
        if is_some s.pending_render || is_some replaced then replaced_obsolete_render else queued,
      )

  unfoldable pub drop_render : OutputScheduler S B → OutputScheduler S B × EnqueueOutcome
  drop_render s = (record s { bypass_next_render = false }, dropped_for_capacity)

  -- What stays when the render replaces those that have not begun
  unfoldable pub retained_bytes : OutputScheduler S B → ℕ
  unfolding pending_bytes render_len replaced_len take_replaceable
  retained_bytes s =
      pending_bytes s - render_len s.pending_render - replaced_len (take_replaceable s.active)

  -- Of the length of its bytes, if there is one
  unfoldable pub accept_sized :
      OutputScheduler S B
      → RenderBatch S B
      → B
      → ℕ
      → Option ℕ
      → OutputScheduler S B × EnqueueOutcome
  unfolding drop_render retained_bytes accept_render
  accept_sized s batch accessibility now_ms none = drop_render s
  accept_sized s batch accessibility now_ms (some render_bytes) =
      if ltb s.config.maximum_pending_bytes render_bytes
        || ltb s.config.maximum_pending_bytes (sat_add (retained_bytes s) render_bytes)
      then drop_render s
      else accept_render s batch accessibility render_bytes now_ms

  -- A render of too many bytes is dropped; the request of a bypass is taken in each case.
  unfoldable pub enqueue_render_with_accessibility :
      OutputScheduler S B → RenderBatch S B → B → ℕ → OutputScheduler S B × EnqueueOutcome
  unfolding render_batch_byte_len accept_sized
  enqueue_render_with_accessibility s batch accessibility now_ms =
      accept_sized s batch accessibility now_ms
        (render_batch_byte_len batch s.synchronized_output_supported)

  -- The default of `PresentedAccessibilityBundle` is an argument.
  pub enqueue_render :
      OutputScheduler S B → RenderBatch S B → B → ℕ → OutputScheduler S B × EnqueueOutcome
  unfolding enqueue_render_with_accessibility
  enqueue_render s batch default now_ms = enqueue_render_with_accessibility s batch default now_ms

  unfoldable pub enqueue_bell : OutputScheduler S B → ℕ → ℕ → OutputScheduler S B
  unfolding pending_bytes note_pending
  enqueue_bell s count now_ms =
      let retained = min count (s.config.maximum_pending_bytes - pending_bytes s) in
      if retained == 0
      then s
      else record (note_pending s now_ms) { pending_bells = sat_add s.pending_bells retained }

  -- The length of a pending render, when the support of the markers changes
  unfoldable pub resized : Bool → Bool → Option (PendingRender S B) → Option (PendingRender S B)
  resized was now none = none
  resized false true (some r) = some (record r { byte_len = sat_add r.byte_len 16 })
  resized true false (some r) = some (record r { byte_len = r.byte_len - 16 })
  resized false false (some r) = some r
  resized true true (some r) = some r

  unfoldable pub set_synchronized_output_supported :
      OutputScheduler S B → Bool → OutputScheduler S B
  unfolding resized
  set_synchronized_output_supported s supported = record s {
    synchronized_output_supported = supported;
    pending_render = resized s.synchronized_output_supported supported s.pending_render;
  }
