-- ===== src/Topology/Records.antt =====
-- The fields of the records of an inventory in src/tmux_model.rs.
use lector.Prelude.{
  ℕ, zero, suc, Bool, true, false, List, [], ◌∷◌, Bytes, bytes, leb, ◌==◌, if◌then◌else◌,
}
use lector.Topology.Text.{
  Result, ok, ◌>>=◌, text, number, boolean, parse_cursor_shape, parse_session_id, parse_window_id,
  parse_pane_id, split_inventory,
}
use lector.Topology.Data.{Pane}

-- `fields[i]`, below the number of fields that `split_inventory` gives
unfoldable pub field : List Bytes → ℕ → Bytes
field [] i = []
field (f ∷ fs) zero = f
field (f ∷ fs) (suc i) = field fs i

-- `line.iter().filter(|byte| **byte == b'\t').count()`
unfoldable pub tab_count : Bytes → ℕ
tab_count [] = 0
tab_count (b ∷ bs) = if b == b'\t' then suc (tab_count bs) else tab_count bs

-- The fields of a window's record.
pub record WindowRecord : Type 0 where
  pub session_id : ℕ
  pub window_id : ℕ
  pub index : ℕ
  pub active : Bool
  pub layout : Bytes
  pub visible_layout : Bytes
  pub flags : Bytes
  pub name : Bytes

unfoldable pub parse_window : Bytes → Result WindowRecord
unfolding split_inventory field text number boolean
parse_window line = do
  fields ← split_inventory line 9
  session_id ← parse_session_id (field fields 1)
  window_id ← parse_window_id (field fields 2)
  index ← number (field fields 3) "window index"
  active ← boolean (field fields 4) "window active"
  layout ← text (field fields 5) "window layout"
  visible_layout ← text (field fields 6) "window visible layout"
  flags ← text (field fields 7) "window flags"
  name ← text (field fields 8) "window name"
  ok (record {
    session_id = session_id;
    window_id = window_id;
    index = index;
    active = active;
    layout = layout;
    visible_layout = visible_layout;
    flags = flags;
    name = name;
  })

-- `if extended { parse(..)? } else { default }`
optional : Bool → Result ℕ → ℕ → Result ℕ
optional true parsed default = parsed
optional false parsed default = ok default

optional_bool : Bool → Result Bool → Bool → Result Bool
optional_bool true parsed default = parsed
optional_bool false parsed default = ok default

optional_text : Bool → Result Bytes → Bytes → Result Bytes
optional_text true parsed default = parsed
optional_text false parsed default = ok default

-- The pane of a record, and whether it is active.
pane_of_fields : Bool → Bool → List Bytes → Result (Pane × Bool)
unfolding field text number boolean parse_cursor_shape optional optional_bool optional_text
pane_of_fields named_mode extended fs = do
  window_id ← parse_window_id (field fs 1)
  pane_id ← parse_pane_id (field fs 2)
  index ← number (field fs 3) "pane index"
  left ← number (field fs 5) "pane left"
  top ← number (field fs 6) "pane top"
  width ← number (field fs 7) "pane width"
  height ← number (field fs 8) "pane height"
  dead ← boolean (field fs 9) "pane dead"
  cursor_x ← optional extended (number (field fs 10) "cursor x") 0
  cursor_y ← optional extended (number (field fs 11) "cursor y") 0
  cursor_visible ← optional_bool extended (boolean (field fs 12) "cursor visible") true
  cursor_shape ← optional_text extended (parse_cursor_shape (field fs 13)) (bytes "default")
  alternate_on ← optional_bool extended (boolean (field fs 14) "alternate screen") false
  pane_in_mode ← optional extended (number (field fs 15) "pane mode") 0
  mode ← optional_text named_mode (text (field fs 16) "pane mode name") []
  history_size ←
      optional extended (number (field fs (if named_mode then 17 else 16)) "history size") 0
  title ← text (field fs (if named_mode then 18 else if extended then 17 else 10)) "pane title"
  active ← boolean (field fs 4) "pane active"
  ok (
    record {
      id = pane_id;
      window_id = window_id;
      index = index;
      title = title;
      left = left;
      top = top;
      width = width;
      height = height;
      dead = dead;
      cursor_x = cursor_x;
      cursor_y = cursor_y;
      cursor_visible = cursor_visible;
      cursor_shape = cursor_shape;
      alternate_on = alternate_on;
      pane_in_mode = pane_in_mode;
      mode = mode;
      history_size = history_size;
    },
    active,
  )

unfoldable pub parse_pane : Bytes → Result (Pane × Bool)
unfolding tab_count split_inventory pane_of_fields
parse_pane line = do
  let named_mode = leb 18 (tab_count line)
  let extended = leb 17 (tab_count line)
  fields ← split_inventory line (if named_mode then 19 else if extended then 18 else 11)
  pane_of_fields named_mode extended fields
