-- ===== src/Scheduler/Leading.antt =====
-- The first of the active transactions of src/output_scheduler.rs, when it has begun.
use lector.Prelude.{
  ℕ, ◌≡◌, refl, ap, ◌∙◌, Bool, true, false, ◌&&◌, Option, none, some, List, [], ◌∷◌, arith, ltb,
  ◌==◌,
}
use lector.Scheduler.Effects.{TerminalEventKind}
use lector.Scheduler.State.{
  ActiveTransaction, RenderBatch, OutputScheduler, is_bells, is_render, note_pending,
}
use lector.Scheduler.Enqueue.{keep_active, keep_started}
use lector.Scheduler.Visual.{
  take_replaceable, is_replaceable, take_bells, is_unstarted_bell, replace_active, accept_render,
}
use lector.Scheduler.EventQueue.{without_active_like}

and_false : (b : Bool) → (b && false) ≡ false
and_false true = refl
and_false false = refl

module _ {S B : Type 0} where
  -- The first of the transactions is the one given.
  unfoldable pub Leads : ActiveTransaction S B → List (ActiveTransaction S B) → Type 0
  Leads t [] = false ≡ true
  Leads t (u ∷ us) = u ≡ t

  module _ (t : ActiveTransaction S B) (begun : ltb 0 t.offset ≡ true) where
    begun-first : (u : ActiveTransaction S B) → u ≡ t → ltb 0 u.offset ≡ true
    begun-first u h = ap (λ (x : ActiveTransaction S B). ltb 0 x.offset) h ∙ begun

    first-offset : (u : ActiveTransaction S B) → u ≡ t → (u.offset == 0) ≡ false
    first-offset u h = let e = begun-first u h in ground (arith, e)

    pub keep_active-Leads :
        (s : OutputScheduler S B) (ts : List (ActiveTransaction S B))
        → Leads t ts
        → Leads t (keep_active s ts)
    unfolding keep_active Leads
    keep_active-Leads s [] h = h
    keep_active-Leads s (u ∷ us) h = rw (begun-first u h) h

    pub keep_started-Leads :
        (ts : List (ActiveTransaction S B)) → Leads t ts → Leads t (keep_started ts)
    unfolding keep_started Leads
    keep_started-Leads [] h = h
    keep_started-Leads (u ∷ us) h = rw (begun-first u h) h

    pub without_active_like-Leads :
        (owner : ℕ) (kind : TerminalEventKind) (ts : List (ActiveTransaction S B))
        → Leads t ts
        → Leads t (without_active_like owner kind ts)
    unfolding without_active_like Leads
    without_active_like-Leads owner kind [] h = h
    without_active_like-Leads owner kind (u ∷ us) h = rw (begun-first u h) h

    pub take_bells-Leads :
        (count : ℕ) (ts : List (ActiveTransaction S B))
        → Leads t ts
        → Leads t (take_bells count ts).1
    unfolding take_bells is_unstarted_bell Leads
    take_bells-Leads count [] h = h
    take_bells-Leads count (u ∷ us) h = rw (first-offset u h, and_false (is_bells u.kind)) h

    -- Where a render was found, the transaction leads the others.
    unfoldable pub LeadsOthers :
        Option (ActiveTransaction S B × List (ActiveTransaction S B)) → Type 0
    LeadsOthers none = true ≡ true
    LeadsOthers (some (found, others)) = Leads t others

    LeadsOthers-found :
        (u : ActiveTransaction S B)
        (rest : Option (ActiveTransaction S B × List (ActiveTransaction S B)))
        → u ≡ t
        → LeadsOthers (elim rest [ none ↦ none | some (found, others) ↦ some (found, u ∷ others) ])
    unfolding LeadsOthers Leads
    LeadsOthers-found u none h = refl
    LeadsOthers-found u (some (found, others)) h = h

    pub take_replaceable-LeadsOthers :
        (ts : List (ActiveTransaction S B)) → Leads t ts → LeadsOthers (take_replaceable ts)
    unfolding take_replaceable is_replaceable LeadsOthers Leads
    take_replaceable-LeadsOthers [] h = refl
    take_replaceable-LeadsOthers (u ∷ us) h =
        rw (first-offset u h, and_false (is_render u.kind))
          (LeadsOthers-found u (take_replaceable us) h)

    pub replace_active-Leads :
        (s : OutputScheduler S B)
        (replaced : Option (ActiveTransaction S B × List (ActiveTransaction S B))) (now_ms : ℕ)
        → Leads t s.active
        → LeadsOthers replaced
        → Leads t (replace_active s replaced now_ms).active
    unfolding replace_active LeadsOthers
    replace_active-Leads s none now_ms h o = h
    replace_active-Leads s (some (found, others)) now_ms h o =
        take_bells-Leads s.pending_bells others o

    pub accept_render-Leads :
        (s : OutputScheduler S B) (batch : RenderBatch S B) (accessibility : B) (len now_ms : ℕ)
        → Leads t s.active
        → Leads t (accept_render s batch accessibility len now_ms).0.active
    unfolding accept_render note_pending
    accept_render-Leads s batch accessibility len now_ms h =
        replace_active-Leads s (take_replaceable s.active) now_ms h
          (take_replaceable-LeadsOthers s.active h)
