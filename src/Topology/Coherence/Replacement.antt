-- ===== src/Topology/Coherence/Replacement.antt =====
-- The transaction of src/tmux_model.rs that replaces a topology by an inventory.
use lector.Prelude.{
  ℕ, ◌≡◌, refl, true, false, Option, none, some, List, [], arith, Bytes, Bool-cases, inl, inr,
}
use lector.Topology.Maps.{nat_key, contains_key}
use lector.Topology.Maps.Lookup.{find-nil}
use lector.Topology.Coherence.{AreWired, HaveActive, IsCoherent}
use lector.Topology.Coherence.Sessions.{shown-none}
use lector.Topology.Coherence.Windows.{linked-none}
use lector.Topology.Coherence.Lines.{Filled, IsFor, apply_lines-Filled}
use lector.Topology.Outcomes.{OnOk, returned, refused, OnOk-bind, OnOk-elim}
use lector.Topology.Text.{TopologyError, Result, ok, err}
use lector.Topology.Data.{link_key, Session, Window, Pane, TmuxTopology, new}
use lector.Topology.Replace.{
  apply_lines, attached_is_missing, validate_inventory, fill_inventory, commit, replace_inventory,
}

none_wired : AreWired [] [] []
none_wired = record {
  distinct_sessions = tt;
  distinct_windows = tt;
  distinct_panes = tt;
  sessions_at = λ k s e. cc (e, find-nil {V = Session} k);
  windows_at = λ k w e. cc (e, find-nil {V = Window} k);
  panes_at = λ k p e. cc (e, find-nil {V = Pane} k);
  links = λ s i w. ground (
    arith,
    shown-none [] s i (find-nil s),
    linked-none [] w (record { session_id = s; index = i }) (find-nil w),
  );
}

none_active : HaveActive [] []
none_active w p x e a = cc (e, find-nil {V = Window} w)

pub new-IsCoherent : (connection_id : ℕ) → IsCoherent (new connection_id)
unfolding new
new-IsCoherent connection_id = record { wired = none_wired; attached = λ id e. cc e }

-- The whole result of `replace_inventory`: a failure changes nothing.
pub data Replaces (t : TmuxTopology) : TmuxTopology × Option TopologyError → Type 0 where
  kept : {reason : TopologyError} → Replaces t (t, some reason)
  replaced :
      {filled : TmuxTopology}
      → IsCoherent filled
      → HaveActive filled.windows filled.panes
      → IsFor t.connection_id t.label filled
      → Replaces t (filled, none)

attached_there :
    (t : TmuxTopology)
    → attached_is_missing t ≡ false
    → (id : ℕ) → t.attached_session ≡ some id
    → contains_key id t.sessions ≡ true
unfolding attached_is_missing
attached_there t h id e = ground arith

abbrev Accepted : TmuxTopology → TmuxTopology → Type 0
Accepted t filled =
    IsCoherent filled
    × HaveActive filled.windows filled.panes
    × IsFor t.connection_id t.label filled

validate_inventory-attached :
    (t : TmuxTopology) {done : Unit {0}}
    → validate_inventory t ≡ ok done
    → attached_is_missing t ≡ false
unfolding validate_inventory
validate_inventory-attached t e = elim (Bool-cases (attached_is_missing t)) [
  | inl h ↦ ground (arith, e, h)
  | inr h ↦ h
]

fill_inventory-Accepted :
    (t : TmuxTopology) (lines : List Bytes) → OnOk (Accepted t) (fill_inventory t lines)
unfolding fill_inventory new
fill_inventory-Accepted t lines = OnOk-bind (Accepted t) (apply_lines start lines) _ λ filled e.
    OnOk-bind (Accepted t) (validate_inventory filled) _ λ done valid.
      let (wired, active, for) =
        OnOk-elim (Filled t.connection_id t.label) filled
          (apply_lines-Filled t.connection_id t.label start lines
            (none_wired, none_active, (refl, refl, refl)))
          e in
      returned (
        record {
          wired = wired;
          attached = attached_there filled (validate_inventory-attached filled valid);
        },
        active,
        for,
      )
  where
    start : TmuxTopology
    start = record (new t.connection_id) { label = t.label }

-- Replacing a topology by an inventory either fails and leaves the topology as it was, or gives a
-- topology of the same connection and label that asks for no resync. In it every session, window and
-- pane stands under its id, the active window of a session, the window of a pane and the attached
-- session are there, a session shows a window at an index just when the window has that link, and the
-- active pane of a window is there as one of its panes.
pub replace_inventory-Replaces :
    (t : TmuxTopology) (lines : List Bytes) → Replaces t (replace_inventory t lines)
unfolding replace_inventory commit
replace_inventory-Replaces t lines =
    by_result (fill_inventory t lines) (fill_inventory-Accepted t lines)
  where
    by_result : (r : Result TmuxTopology) → OnOk (Accepted t) r → Replaces t (commit t r)
    by_result (ok filled) (returned p) = replaced p.0 p.1 p.2
    by_result (err reason) refused = kept
