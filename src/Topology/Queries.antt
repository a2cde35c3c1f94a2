-- ===== src/Topology/Queries.antt =====
-- What the rest of the program reads from a topology (src/tmux_model.rs), and the changes it makes
-- outside of notifications.
use lector.Prelude.{
  ℕ, suc, Bool, true, not, ◌&&◌, ◌||◌, Option, none, some, List, [], ◌∷◌, ◌++◌, Bytes, bytes,
  is_empty, length, ltb, ◌==◌, bytes_eq, if◌then◌else◌,
}
use lector.Topology.Maps.{nat_key, bytes_key, find, contains_key, insert}
use lector.Topology.Text.{
  Result, ok, err, ◌>>=◌, ◌>>◌, refuse_if, malformed_inventory, contradictory_inventory,
  invalid_label, any_control, trim, decimal, number, boolean, parse_cursor_shape, parse_pane_id,
  split_inventory,
}
use lector.Topology.Records.{field}
use lector.Topology.Data.{
  Session, Window, Pane, PaneCaptureMetadata, TmuxLocation, TmuxBinding, TmuxTopology,
}

unfoldable pub set_label : TmuxTopology → Bytes → Result TmuxTopology
unfolding trim any_control
set_label t label = do
  refuse_if (is_empty (trim label) || ltb 256 (length (trim label)) || any_control (trim label))
      invalid_label
  ok (record t { label = trim label })

unfoldable pub attached_active_pane : TmuxTopology → Option ℕ
attached_active_pane t = elim t.attached_session [
  | none ↦ none
  | some id ↦ elim (find id t.sessions) [
    | none ↦ none
    | some session ↦ elim session.active_window [
      | none ↦ none
      | some window_id ↦ elim (find window_id t.windows) [
        | none ↦ none
        | some window ↦ window.active_pane
      ]
    ]
  ]
]

-- The first index at which the windows of a session hold a window.
unfoldable pub index_of : ℕ → List (ℕ × ℕ) → Option ℕ
index_of window_id [] = none
index_of window_id ((index, candidate) ∷ windows) =
    let rest = index_of window_id windows in if candidate == window_id then some index else rest

unfoldable pub pane_count : ℕ → List (ℕ × Pane) → ℕ
pane_count window_id [] = 0
pane_count window_id ((id, pane) ∷ panes) =
    let rest = pane_count window_id panes in if pane.window_id == window_id then suc rest else rest

-- `pane_id.and_then(|pane_id| self.pane(pane_id).map(|pane| pane.index))`
unfoldable pub pane_index : Option ℕ → List (ℕ × Pane) → Option ℕ
pane_index none panes = none
pane_index (some id) panes = elim (find id panes) [ none ↦ none | some pane ↦ some pane.index ]

unfoldable pub location : TmuxTopology → Session → ℕ → ℕ → Window → TmuxLocation
unfolding pane_count pane_index
location t session window_id window_index window = record {
  session_id = session.id;
  session_name = session.name;
  window_id = window_id;
  window_index = window_index;
  window_name = window.name;
  pane_id = window.active_pane;
  pane_index = pane_index window.active_pane t.panes;
  pane_count = pane_count window_id t.panes;
}

unfoldable pub attached_location : TmuxTopology → Option TmuxLocation
unfolding index_of location
attached_location t = elim t.attached_session [
  | none ↦ none
  | some id ↦ elim (find id t.sessions) [
    | none ↦ none
    | some session ↦ elim session.active_window [
      | none ↦ none
      | some window_id ↦ elim (index_of window_id session.windows) [
        | none ↦ none
        | some window_index ↦ elim (find window_id t.windows) [
          | none ↦ none
          | some window ↦ some (location t session window_id window_index window)
        ]
      ]
    ]
  ]
]

pub binding_in_table : TmuxTopology → Bytes → Bytes → Option TmuxBinding
binding_in_table t table key =
    if bytes_eq table (bytes "prefix")
    then find key t.bindings
    else elim (find table t.key_tables) [ none ↦ none | some entries ↦ find key entries ]

pub has_key_table : TmuxTopology → Bytes → Bool
has_key_table t table =
    (bytes_eq table (bytes "prefix") && not (is_empty t.bindings))
    || contains_key table t.key_tables

pub mark_resync_required : TmuxTopology → TmuxTopology
mark_resync_required t = record t { needs_resync = true }

unfoldable pub clear_native_copy_mode : TmuxTopology → ℕ → TmuxTopology
clear_native_copy_mode t pane_id = elim (find pane_id t.panes) [
  | none ↦ t
  | some pane ↦
      if bytes_eq pane.mode (bytes "copy-mode")
      then record t { panes = insert pane_id (record pane { pane_in_mode = 0; mode = [] }) t.panes }
      else t
]

unfoldable pub with_metadata : Pane → PaneCaptureMetadata → Pane
with_metadata pane m = record pane {
  left = m.left;
  top = m.top;
  width = m.width;
  height = m.height;
  dead = m.dead;
  cursor_x = m.cursor_x;
  cursor_y = m.cursor_y;
  cursor_visible = m.cursor_visible;
  cursor_shape = m.cursor_shape;
  alternate_on = m.alternate_on;
  pane_in_mode = m.pane_in_mode;
  history_size = m.history_size;
}

unfoldable pub update_pane_capture_metadata :
    TmuxTopology → PaneCaptureMetadata → Result TmuxTopology
unfolding with_metadata
update_pane_capture_metadata t m = elim (find m.pane_id t.panes) [
  | none ↦ err (contradictory_inventory "pane capture metadata references a missing pane")
  | some pane ↦ ok (record t { panes = insert m.pane_id (with_metadata pane m) t.panes })
]

unfoldable pub pane_capture_metadata_command : ℕ → Bytes
unfolding decimal
pane_capture_metadata_command pane_id =
    bytes "display-message -p -t %"
    ++ decimal pane_id
    ++ bytes
        " -F 'R\t#{pane_id}\t#{pane_left}\t#{pane_top}\t#{pane_width}\t#{pane_height}\t#{pane_dead}\t#{cursor_x}\t#{cursor_y}\t#{cursor_flag}\t#{cursor_shape}\t#{alternate_on}\t#{pane_in_mode}\t#{history_size}'\n"

unfoldable pub parse_pane_capture_metadata : Bytes → ℕ → Result PaneCaptureMetadata
unfolding split_inventory field number boolean parse_cursor_shape
parse_pane_capture_metadata line expected_pane_id = do
  fs ← split_inventory line 14
  refuse_if (not (bytes_eq (field fs 0) (bytes "R"))) malformed_inventory
  pane_id ← parse_pane_id (field fs 1)
  refuse_if (not (pane_id == expected_pane_id))
      (contradictory_inventory "pane capture metadata names a different pane")
  left ← number (field fs 2) "pane left"
  top ← number (field fs 3) "pane top"
  width ← number (field fs 4) "pane width"
  height ← number (field fs 5) "pane height"
  dead ← boolean (field fs 6) "pane dead"
  cursor_x ← number (field fs 7) "cursor x"
  cursor_y ← number (field fs 8) "cursor y"
  cursor_visible ← boolean (field fs 9) "cursor visible"
  cursor_shape ← parse_cursor_shape (field fs 10)
  alternate_on ← boolean (field fs 11) "alternate screen"
  pane_in_mode ← number (field fs 12) "pane mode"
  history_size ← number (field fs 13) "history size"
  ok (record {
    pane_id = pane_id;
    left = left;
    top = top;
    width = width;
    height = height;
    dead = dead;
    cursor_x = cursor_x;
    cursor_y = cursor_y;
    cursor_visible = cursor_visible;
    cursor_shape = cursor_shape;
    alternate_on = alternate_on;
    pane_in_mode = pane_in_mode;
    history_size = history_size;
  })
