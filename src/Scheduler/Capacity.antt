-- ===== src/Scheduler/Capacity.antt =====
-- The bound on the pending bytes in src/output_scheduler.rs, and what it counts.
use lector.Prelude.{
  ℕ, ◌+◌, ◌≤◌, min, ◌≡◌, refl, Bool, true, false, ◌&&◌, Option, none, some, List, [], ◌∷◌, ◌++◌,
  arith, usize_max, ◌==◌, length, length-append, Bytes, Bool-cases, inl, inr,
}
use lector.Scheduler.Effects.{sat_add, TerminalEventKind, terminal_event_retained_bytes}
use lector.Scheduler.State.{
  ActiveTransaction, OutputScheduler, PendingBytes, ScheduledOutputClass, ScheduledTerminalEffect,
  PendingRender, pending_bytes, sum_active, sum_queued, sum_effects, render_len, remaining_len,
  is_bells, is_render,
}
use lector.Scheduler.Enqueue.{push_queued, keep_active, keep_started}
use lector.Scheduler.Visual.{
  sum_transactions, markers_len, take_bells, take_replaceable, replaced_len, is_unstarted_bell,
  is_replaceable,
}
use lector.Scheduler.EventQueue.{without_like, without_first_like, without_active_like}
pub mod Encoded

module _ {S B : Type 0} where
  -- The pending bytes, as a sum that does not saturate
  unfoldable pub total : OutputScheduler S B → ℕ
  total s =
      sum_active s.active
      + sum_queued s.queued_bytes
      + render_len s.pending_render
      + sum_effects s.pending_effects
      + s.pending_bells

  pub pending_bytes-total : (s : OutputScheduler S B) → pending_bytes s ≡ min (total s) usize_max
  unfolding pending_bytes total
  pending_bytes-total s = omega arith

  -- The length that is noted for a render is that of its transactions, and of the markers around them.
  unfoldable pub IsSized : Bool → Option (PendingRender S B) → Type 0
  IsSized supported none = true ≡ true
  IsSized supported (some r) =
      r.byte_len ≡ sum_transactions r.batch.transactions + markers_len supported

  -- How far the pending bytes may pass the maximum: by the markers, which a render may get later
  unfoldable pub slack : Bool → Option (PendingRender S B) → ℕ
  slack supported none = 16
  slack supported (some r) = markers_len supported

  -- A slack is at most the length of the markers.
  pub slack-le : (supported : Bool) (r : Option (PendingRender S B)) → slack supported r ≤ 16
  unfolding slack
  slack-le supported none = omega arith
  slack-le true (some r) = omega arith
  slack-le false (some r) = omega arith

  pub record IsBounded (maximum : ℕ) (s : OutputScheduler S B) : Type 0 where
    pub limit : s.config.maximum_pending_bytes ≡ maximum
    pub sized : IsSized s.synchronized_output_supported s.pending_render
    pub bound : total s ≤ maximum + slack s.synchronized_output_supported s.pending_render

  pub keep_active-sum :
      (s : OutputScheduler S B) (ts : List (ActiveTransaction S B))
      → sum_active (keep_active s ts) ≤ sum_active ts
  unfolding keep_active sum_active
  keep_active-sum s [] = omega arith
  keep_active-sum s (t ∷ ts) = let h = keep_active-sum s ts in ground (arith, h)

  pub keep_started-sum :
      (ts : List (ActiveTransaction S B)) → sum_active (keep_started ts) ≤ sum_active ts
  unfolding keep_started sum_active
  keep_started-sum [] = omega arith
  keep_started-sum (t ∷ ts) = let h = keep_started-sum ts in ground (arith, h)

  pub without_active_like-sum :
      (owner : ℕ) (kind : TerminalEventKind) (ts : List (ActiveTransaction S B))
      → sum_active (without_active_like owner kind ts) ≤ sum_active ts
  unfolding without_active_like sum_active
  without_active_like-sum owner kind [] = omega arith
  without_active_like-sum owner kind (t ∷ ts) =
      let h = without_active_like-sum owner kind ts in ground (arith, h)

pub without_like-sum :
    (owner : ℕ) (kind : TerminalEventKind) (es : List ScheduledTerminalEffect)
    → sum_effects (without_like owner kind es) ≤ sum_effects es
unfolding without_like sum_effects
without_like-sum owner kind [] = omega arith
without_like-sum owner kind (e ∷ es) = let h = without_like-sum owner kind es in ground (arith, h)

pub without_first_like-sum :
    (owner : ℕ) (kind : TerminalEventKind) (es : List ScheduledTerminalEffect)
    → sum_effects (without_first_like owner kind es) ≤ sum_effects es
unfolding without_first_like sum_effects
without_first_like-sum owner kind [] = omega arith
without_first_like-sum owner kind (e ∷ es) =
    let h = without_first_like-sum owner kind es in ground (arith, h)

pub sum_effects-append :
    (es : List ScheduledTerminalEffect) (e : ScheduledTerminalEffect)
    → sum_effects (es ++ e ∷ []) ≡ sum_effects es + terminal_event_retained_bytes e.event
unfolding sum_effects
sum_effects-append [] e = omega arith
sum_effects-append (f ∷ es) e = let h = sum_effects-append es e in omega (arith, h)

pub sum_queued-push_queued :
    (maximum : ℕ) (class : ScheduledOutputClass) (bs : Bytes) (ps : List PendingBytes)
    → sum_queued (push_queued maximum class bs ps) ≡ sum_queued ps + length bs
unfolding sum_queued push_queued
sum_queued-push_queued maximum class bs [] = omega arith
sum_queued-push_queued maximum class bs (p ∷ []) =
    let h = length-append p.bytes bs in ground (arith, h)
sum_queued-push_queued maximum class bs (p ∷ q ∷ ps) =
    let h = sum_queued-push_queued maximum class bs (q ∷ ps) in omega (arith, h)

module _ {S B : Type 0} where
  and-offset : (b : Bool) (t : ActiveTransaction S B) → (b && t.offset == 0) ≡ true → t.offset ≡ 0
  and-offset true t e = ground (arith, e)
  and-offset false t e = cc

  pub take_bells-sum :
      (count : ℕ) (ts : List (ActiveTransaction S B))
      → (take_bells count ts).0 + sum_active (take_bells count ts).1 ≤ count + sum_active ts
  unfolding take_bells is_unstarted_bell sum_active
  take_bells-sum count [] = omega arith
  take_bells-sum count (t ∷ ts) = elim (Bool-cases (is_unstarted_bell t)) [
    | inl e ↦
        let h = take_bells-sum (sat_add count (length t.bytes)) ts in
        let start = and-offset (is_bells t.kind) t e in rw e (omega (arith, h, start))
    | inr e ↦ let h = take_bells-sum count ts in rw e (omega (arith, h))
  ]

  -- The bytes of the transactions beside the replaced one
  unfoldable pub others_sum :
      List (ActiveTransaction S B)
      → Option (ActiveTransaction S B × List (ActiveTransaction S B))
      → ℕ
  unfolding sum_active
  others_sum ts none = sum_active ts
  others_sum ts (some (found, others)) = sum_active others

  extended-sum :
      (t : ActiveTransaction S B) (ts : List (ActiveTransaction S B))
      (rest : Option (ActiveTransaction S B × List (ActiveTransaction S B)))
      → replaced_len rest + others_sum ts rest ≡ sum_active ts
      → (let extended : Option (ActiveTransaction S B × List (ActiveTransaction S B)) = elim rest [
        | none ↦ none
        | some (found, others) ↦ some (found, t ∷ others)
      ] in
          replaced_len extended + others_sum (t ∷ ts) extended)
        ≡ remaining_len t + sum_active ts
  unfolding sum_active replaced_len others_sum
  extended-sum t ts none h = omega arith
  extended-sum t ts (some (found, others)) h = omega (arith, h)

  pub take_replaceable-sum :
      (ts : List (ActiveTransaction S B))
      → replaced_len (take_replaceable ts) + others_sum ts (take_replaceable ts) ≡ sum_active ts
  unfolding take_replaceable is_replaceable sum_active replaced_len others_sum
  take_replaceable-sum [] = refl
  take_replaceable-sum (t ∷ ts) = elim (Bool-cases (is_replaceable t)) [
    | inl e ↦ let start = and-offset (is_render t.kind) t e in rw e (omega (arith, start))
    | inr e ↦ rw e (extended-sum t ts (take_replaceable ts) (take_replaceable-sum ts))
  ]
