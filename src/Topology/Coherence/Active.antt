-- ===== src/Topology/Coherence/Active.antt =====
-- The active panes of the windows, as an inventory of src/tmux_model.rs fills them in.
use lector.Prelude.{
  ℕ, ◌≡◌, refl, Bool, true, false, none, Option, some, List, arith, Option-cases, inl, inr,
  if◌then◌else◌, subst,
}
use lector.Topology.Maps.{nat_key, find, insert}
use lector.Topology.Maps.Lookup.{find-insert}
use lector.Topology.Coherence.{belongs, HaveActive}
use lector.Topology.Coherence.Filling.{mark_active}
use lector.Topology.Text.{Result, TopologyError, contradictory_inventory, ok, err}
use lector.Topology.Data.{Window, Pane, TmuxTopology}
use lector.Topology.Records.{WindowRecord}
use lector.Topology.Inventory.{pane_eq, entered_pane, entered_window, fresh_window, link_window}

abbrev differing_pane : TopologyError
differing_pane = contradictory_inventory "linked pane metadata differs"

HaveActive-insert :
    (k : ℕ) (y : Window) (windows : List (ℕ × Window)) (panes : List (ℕ × Pane))
    → ((p : ℕ) → y.active_pane ≡ some p → belongs panes p k ≡ true)
    → HaveActive windows panes
    → HaveActive (insert k y windows) panes
HaveActive-insert k y windows panes new old w p x e a =
    ground (arith, e, a, find-insert k w y windows, new p, old w p x)

pub add_link-HaveActive :
    (t : TmuxTopology) (r : WindowRecord)
    → HaveActive t.windows t.panes
    → HaveActive (insert r.window_id (link_window r (entered_window r t.windows)) t.windows) t.panes
unfolding link_window entered_window fresh_window
add_link-HaveActive t r h =
    HaveActive-insert r.window_id (link_window r (entered_window r t.windows)) t.windows t.panes
      (elim (Option-cases (find r.window_id t.windows)) [
        | inl q ↦ λ p a. ground (arith, a, q)
        | inr (y, q) ↦ λ p a. ground (arith, a, q, h r.window_id p y)
      ])
      h

same_window : (a b : Pane) → pane_eq a b ≡ true → a.window_id ≡ b.window_id
unfolding pane_eq
same_window a b h = ground (arith, h)

-- The pane that is there already is the same.
accepted_old :
    (same : Bool) (panes panes' : List (ℕ × Pane)) (reason : TopologyError)
    → (if same then ok panes else err reason) ≡ ok panes'
    → (same ≡ true) × (panes ≡ panes')
accepted_old true panes panes' reason e = (refl, cc)
accepted_old false panes panes' reason e = cc

found_old :
    (panes : List (ℕ × Pane)) (p x : Pane)
    → find p.id panes ≡ some x
    → x.window_id ≡ p.window_id
    → belongs panes p.id p.window_id ≡ true
found_old panes p x q h = ground (arith, q, h)

found_new :
    (panes : List (ℕ × Pane)) (p : Pane) → belongs (insert p.id p panes) p.id p.window_id ≡ true
found_new panes p = ground (arith, find-insert p.id p.id p panes)

-- Behind an entered pane, the pane is one of its window.
entered_pane-belongs :
    (panes panes' : List (ℕ × Pane)) (p : Pane)
    → entered_pane panes p ≡ ok panes'
    → belongs panes' p.id p.window_id ≡ true
unfolding entered_pane
entered_pane-belongs panes panes' p e = from (find p.id panes) refl e
  where
    from :
        (o : Option Pane)
        → find p.id panes ≡ o
        → elim o as (λ _. Result (List (ℕ × Pane))) [
          | none ↦ ok (insert p.id p panes)
          | some x ↦ if pane_eq x p then ok panes else err differing_pane
        ]
          ≡ ok panes'
        → belongs panes' p.id p.window_id ≡ true
    from none q h =
        subst (λ (m : List (ℕ × Pane)). belongs m p.id p.window_id ≡ true) (cc) (found_new panes p)
    from (some x) q h =
        let (same, kept) = accepted_old (pane_eq x p) panes panes' differing_pane h in
        subst (λ (m : List (ℕ × Pane)). belongs m p.id p.window_id ≡ true) kept
          (found_old panes p x q (same_window x p same))

-- No pane goes, or comes to another window.
entered_pane-keeps :
    (panes panes' : List (ℕ × Pane)) (p : Pane) (q w : ℕ)
    → entered_pane panes p ≡ ok panes'
    → belongs panes q w ≡ true
    → belongs panes' q w ≡ true
unfolding entered_pane
entered_pane-keeps panes panes' p q w e h = elim (Option-cases (find p.id panes)) [
  | inl n ↦
      let same : insert p.id p panes ≡ panes' = ground (arith, e, n) in
      let found : belongs (insert p.id p panes) q w ≡ true =
        ground (arith, n, h, find-insert p.id q p panes) in
      subst (λ (m : List (ℕ × Pane)). belongs m q w ≡ true) same found
  | inr (x, n) ↦
      let same : panes ≡ panes' = ground (arith, e, n) in
      subst (λ (m : List (ℕ × Pane)). belongs m q w ≡ true) same h
]

pub add_pane-HaveActive :
    (t : TmuxTopology) (p : Pane) (active : Bool) (y : Window)
    → find p.window_id t.windows ≡ some y
    → (panes : List (ℕ × Pane)) → entered_pane t.panes p ≡ ok panes
    → HaveActive t.windows t.panes
    → HaveActive (insert p.window_id (mark_active t p active y) t.windows) panes
add_pane-HaveActive t p active y q panes entered h =
    HaveActive-insert p.window_id (mark_active t p active y) t.windows panes
      (λ k a. ground (
        arith,
        a,
        q,
        h p.window_id k y,
        entered_pane-belongs t.panes panes p entered,
        entered_pane-keeps t.panes panes p k p.window_id entered,
      ))
      (λ w k x e a. entered_pane-keeps t.panes panes p k w entered (h w k x e a))
