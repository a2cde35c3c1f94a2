-- ===== src/Topology/Replace.antt =====
-- A whole inventory in src/tmux_model.rs: the kind of each record, and the transaction.
use lector.Prelude.{
  ℕ, Bool, true, false, not, Option, none, some, List, [], ◌∷◌, Bytes, ◌==◌, if◌then◌else◌, all,
}
use lector.Topology.Maps.{nat_key, contains_key}
use lector.Topology.Text.{
  Result, ok, err, ◌>>=◌, ◌>>◌, refuse_if, malformed_inventory, contradictory_inventory,
  TopologyError,
}
use lector.Topology.Inventory.{
  inventory_session, inventory_window, inventory_pane, inventory_attached, inventory_key_value,
}
use lector.Topology.Bindings.{inventory_binding, inventory_legacy_binding}
use lector.Topology.Data.{Pane, TmuxTopology, new}

pub data LineKind : Type 0 where
  session_line window_line pane_line attached_line option_line client_line binding_line
        legacy_binding_line unknown_line :
      LineKind

-- The first byte of a record.
unfoldable pub line_kind : Bytes → LineKind
line_kind [] = unknown_line
line_kind (b ∷ bs) =
    if b == b'S'
    then session_line
    else if b == b'W'
    then window_line
    else if b == b'P'
    then pane_line
    else if b == b'A'
    then attached_line
    else if b == b'O'
    then option_line
    else if b == b'C'
    then client_line
    else if b == b'B'
    then binding_line
    else if b == b'b'
    then legacy_binding_line
    else unknown_line

unfoldable pub apply_line : LineKind → TmuxTopology → Bytes → Result TmuxTopology
apply_line session_line t line = inventory_session t line
apply_line window_line t line = inventory_window t line
apply_line pane_line t line = inventory_pane t line
apply_line attached_line t line = inventory_attached t line
apply_line option_line t line = inventory_key_value t line true
apply_line client_line t line = inventory_key_value t line false
apply_line binding_line t line = inventory_binding t line
apply_line legacy_binding_line t line = inventory_legacy_binding t line
apply_line unknown_line t line = err malformed_inventory

unfoldable pub apply_inventory_line : TmuxTopology → Bytes → Result TmuxTopology
unfolding line_kind apply_line
apply_inventory_line t line = apply_line (line_kind line) t line

unfoldable pub apply_lines : TmuxTopology → List Bytes → Result TmuxTopology
unfolding apply_inventory_line
apply_lines t [] = ok t
apply_lines t (line ∷ lines) = do t' ← apply_inventory_line t line; apply_lines t' lines

unfoldable pub attached_is_missing : TmuxTopology → Bool
attached_is_missing t = elim t.attached_session [
  | none ↦ false
  | some id ↦ not (contains_key id t.sessions)
]

unfoldable pub validate_inventory : TmuxTopology → Result (Unit {0})
unfolding attached_is_missing
validate_inventory t = do
  refuse_if (attached_is_missing t) (contradictory_inventory "attached session is missing")
  refuse_if (not (all (λ (entry : ℕ × Pane). contains_key entry.1.window_id t.windows) t.panes))
      (contradictory_inventory "pane window is missing")

-- `next`, when it is filled and valid
unfoldable pub fill_inventory : TmuxTopology → List Bytes → Result TmuxTopology
unfolding new apply_lines validate_inventory
fill_inventory t lines = do
  filled ← apply_lines (record (new t.connection_id) { label = t.label }) lines
  validate_inventory filled
  ok filled

-- `*self = next`, or the error with the topology as it was
unfoldable pub commit : TmuxTopology → Result TmuxTopology → TmuxTopology × Option TopologyError
commit t (ok filled) = (filled, none)
commit t (err reason) = (t, some reason)

unfoldable pub replace_inventory : TmuxTopology → List Bytes → TmuxTopology × Option TopologyError
unfolding fill_inventory commit
replace_inventory t lines = commit t (fill_inventory t lines)
