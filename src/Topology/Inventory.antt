-- ===== src/Topology/Inventory.antt =====
-- The records of an inventory in src/tmux_model.rs. They change a topology that `replace_inventory`
-- drops on an error, so a function returns no topology with an error.
use lector.Prelude.{
  ℕ, String, Bool, true, false, not, ◌&&◌, ◌||◌, Option, none, some, List, [], Bytes, is_empty,
  is_some, ltb, leb, ◌==◌, bytes_eq, if◌then◌else◌, length,
}
use lector.Topology.Maps.{nat_key, bytes_key, find, contains_key, insert}
use lector.Topology.Text.{
  Result, ok, err, ◌>>=◌, ◌>>◌, refuse_if, ok_or, malformed_inventory, contradictory_inventory,
  text, any_control, parse_session_id, split_inventory,
}
use lector.Topology.Records.{WindowRecord, field, tab_count, parse_window, parse_pane}
use lector.Topology.Data.{link_key, Session, Window, Pane, TmuxTopology, same_bool}

abbrev contradiction {ℓ} : {A : Type ℓ} → String → Result A
contradiction what = err (contradictory_inventory what)

abbrev refuse_dup : Bool → String → Result (Unit {0})
refuse_dup there what = refuse_if there (contradictory_inventory what)

unfoldable pub add_session : TmuxTopology → ℕ → Bytes → Result TmuxTopology
add_session t id name = do
  refuse_dup (contains_key id t.sessions) "duplicate session id"
  ok (record t { sessions = insert id fresh t.sessions })
  where
    fresh : Session
    fresh = record { id = id; name = name; windows = []; active_window = none }

unfoldable pub inventory_session : TmuxTopology → Bytes → Result TmuxTopology
unfolding split_inventory field text add_session
inventory_session t line = do
  fields ← split_inventory line 3
  id ← parse_session_id (field fields 1)
  name ← text (field fields 2) "session name"
  add_session t id name

-- The session with the window at its index.
unfoldable pub link_session : WindowRecord → Session → Session
link_session r s = record s {
  windows = insert r.index r.window_id s.windows;
  active_window = if r.active then some r.window_id else s.active_window;
}

unfoldable pub fresh_window : WindowRecord → Window
fresh_window r = record {
  id = r.window_id;
  name = r.name;
  links = [];
  active_pane = none;
  layout = r.layout;
  visible_layout = r.visible_layout;
  flags = r.flags;
}

unfoldable pub differs : WindowRecord → Window → Bool
differs r w =
    not (bytes_eq w.name r.name)
    || not (bytes_eq w.layout r.layout)
    || not (bytes_eq w.visible_layout r.visible_layout)

unfoldable pub link_window : WindowRecord → Window → Window
link_window r w = record w {
  flags = r.flags;
  links = insert (record { session_id = r.session_id; index = r.index }) tt w.links;
}

-- `windows.entry(id).or_insert_with(..)`, as it is before its metadata is compared
unfoldable pub entered_window : WindowRecord → List (ℕ × Window) → Window
unfolding fresh_window
entered_window r windows = elim (find r.window_id windows) [ none ↦ fresh_window r | some w ↦ w ]

unfoldable pub add_window : TmuxTopology → WindowRecord → Result TmuxTopology
unfolding link_session link_window differs entered_window
add_window t r = do
  session ←
      ok_or (find r.session_id t.sessions)
        (contradictory_inventory "window references missing session")
  refuse_dup (contains_key r.index session.windows) "duplicate window index"
  let window = entered_window r t.windows
  refuse_dup (differs r window) "linked window metadata differs"
  ok (record t {
    sessions = insert r.session_id (link_session r session) t.sessions;
    windows = insert r.window_id (link_window r window) t.windows;
  })

unfoldable pub inventory_window : TmuxTopology → Bytes → Result TmuxTopology
unfolding parse_window add_window
inventory_window t line = do window ← parse_window line; add_window t window

-- `Pane: PartialEq`
unfoldable pub pane_eq : Pane → Pane → Bool
pane_eq a b =
    a.id == b.id
    && a.window_id == b.window_id
    && a.index == b.index
    && bytes_eq a.title b.title
    && a.left == b.left
    && a.top == b.top
    && a.width == b.width
    && a.height == b.height
    && same_bool a.dead b.dead
    && a.cursor_x == b.cursor_x
    && a.cursor_y == b.cursor_y
    && same_bool a.cursor_visible b.cursor_visible
    && bytes_eq a.cursor_shape b.cursor_shape
    && same_bool a.alternate_on b.alternate_on
    && a.pane_in_mode == b.pane_in_mode
    && bytes_eq a.mode b.mode
    && a.history_size == b.history_size

-- The pane is inserted unless it is there with the same metadata.
unfoldable pub entered_pane : List (ℕ × Pane) → Pane → Result (List (ℕ × Pane))
unfolding pane_eq
entered_pane panes pane = elim (find pane.id panes) [
  | none ↦ ok (insert pane.id pane panes)
  | some existing ↦
      if pane_eq existing pane then ok panes else contradiction "linked pane metadata differs"
]

unfoldable pub add_pane : TmuxTopology → Pane → Bool → Result TmuxTopology
unfolding entered_pane
add_pane t pane active = do
  window ←
      ok_or (find pane.window_id t.windows)
        (contradictory_inventory "pane references missing window")
  panes ← entered_pane t.panes pane
  ok (record t {
    windows =
        insert pane.window_id
          (record window { active_pane = if active then some pane.id else window.active_pane })
          t.windows;
    panes = panes;
  })

unfoldable pub inventory_pane : TmuxTopology → Bytes → Result TmuxTopology
unfolding parse_pane add_pane
inventory_pane t line = do (pane, active) ← parse_pane line; add_pane t pane active

unfoldable pub parse_host : Bool → Bytes → Option Bytes → Result (Option Bytes)
unfolding text any_control
parse_host false bs old = ok old
parse_host true bs old = do
  host ← text bs "server host"
  refuse_if (ltb 256 (length host) || any_control host) malformed_inventory
  ok (if is_empty host then none else some host)

unfoldable pub inventory_attached : TmuxTopology → Bytes → Result TmuxTopology
unfolding tab_count split_inventory field parse_host
inventory_attached t line = do
  let has_host = leb 2 (tab_count line)
  fields ← split_inventory line (if has_host then 3 else 2)
  id ← parse_session_id (field fields 1)
  refuse_dup (is_some t.attached_session) "multiple attached records"
  host ← parse_host has_host (field fields 2) t.host
  ok (record t { attached_session = some id; host = host })

unfoldable pub add_key_value : TmuxTopology → Bool → Bytes → Bytes → Result TmuxTopology
add_key_value t true key value = do
  refuse_dup (contains_key key t.options) "duplicate metadata key"
  ok (record t { options = insert key value t.options })
add_key_value t false key value = do
  refuse_dup (contains_key key t.client_info) "duplicate metadata key"
  ok (record t { client_info = insert key value t.client_info })

unfoldable pub inventory_key_value : TmuxTopology → Bytes → Bool → Result TmuxTopology
unfolding split_inventory field text add_key_value
inventory_key_value t line option = do
  fields ← split_inventory line 3
  refuse_if (is_empty (field fields 1)) malformed_inventory
  key ← text (field fields 1) "metadata key"
  value ← text (field fields 2) "metadata value"
  add_key_value t option key value
