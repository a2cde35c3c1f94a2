-- ===== src/Topology/Data.antt =====
-- The data of src/tmux_model.rs. An id is its number, a `u32` a number, and a string its UTF-8 bytes.
use lector.Prelude.{
  ℕ, ◌++◌, Bool, true, false, ◌&&◌, ◌||◌, not, Option, none, some, List, [], Bytes, bytes, ltb,
  ◌==◌, if◌then◌else◌, ◌≡◌, ◌↔◌, arith,
}
use lector.Topology.Maps.{Key}
use lector.Topology.Text.{decimal}

pub record WindowLink : Type 0 where
  pub session_id : ℕ
  pub index : ℕ

pub link_lt : WindowLink → WindowLink → Bool
link_lt a b = ltb a.session_id b.session_id || (a.session_id == b.session_id && ltb a.index b.index)

unfoldable pub link_eq : WindowLink → WindowLink → Bool
link_eq a b = a.session_id == b.session_id && a.index == b.index

pub link_iff : (a b : WindowLink) → (link_eq a b ≡ true) ↔ (a ≡ b)
unfolding link_eq
link_iff a b = ground arith

instance abbrev pub link_key : Key WindowLink
unfolding link_eq
link_key = record { lt = link_lt; same = link_eq; same_iff = link_iff }

pub record Session : Type 0 where
  pub id : ℕ
  pub name : Bytes
  pub windows : List (ℕ × ℕ)
  pub active_window : Option ℕ

pub record Window : Type 0 where
  pub id : ℕ
  pub name : Bytes
  pub links : List (WindowLink × Unit {0})
  pub active_pane : Option ℕ
  pub layout : Bytes
  pub visible_layout : Bytes
  pub flags : Bytes

pub record Pane : Type 0 where
  pub id : ℕ
  pub window_id : ℕ
  pub index : ℕ
  pub title : Bytes
  pub left : ℕ
  pub top : ℕ
  pub width : ℕ
  pub height : ℕ
  pub dead : Bool
  pub cursor_x : ℕ
  pub cursor_y : ℕ
  pub cursor_visible : Bool
  pub cursor_shape : Bytes
  pub alternate_on : Bool
  pub pane_in_mode : ℕ
  pub mode : Bytes
  pub history_size : ℕ

pub record PaneCaptureMetadata : Type 0 where
  pub pane_id : ℕ
  pub left : ℕ
  pub top : ℕ
  pub width : ℕ
  pub height : ℕ
  pub dead : Bool
  pub cursor_x : ℕ
  pub cursor_y : ℕ
  pub cursor_visible : Bool
  pub cursor_shape : Bytes
  pub alternate_on : Bool
  pub pane_in_mode : ℕ
  pub history_size : ℕ

-- equality of `bool`
abbrev pub same_bool : Bool → Bool → Bool
same_bool true b = b
same_bool false b = not b

pub capture_basis_matches : PaneCaptureMetadata → PaneCaptureMetadata → Bool
capture_basis_matches m other =
    m.pane_id == other.pane_id
    && m.width == other.width
    && m.height == other.height
    && same_bool m.alternate_on other.alternate_on
    && m.pane_in_mode == other.pane_in_mode

pub record TmuxLocation : Type 0 where
  pub session_id : ℕ
  pub session_name : Bytes
  pub window_id : ℕ
  pub window_index : ℕ
  pub window_name : Bytes
  pub pane_id : Option ℕ
  pub pane_index : Option ℕ
  pub pane_count : ℕ

pub window_title : TmuxLocation → Bytes
unfolding decimal
window_title l = if ltb 1 l.pane_count then with_pane l.pane_index else plain
  where
    plain : Bytes
    plain = decimal l.window_index ++ bytes ": " ++ l.window_name

    with_pane : Option ℕ → Bytes
    with_pane none = plain
    with_pane (some pane_index) =
        decimal l.window_index ++ bytes "." ++ decimal pane_index ++ bytes ": " ++ l.window_name

pub accessible_title : TmuxLocation → Bytes
unfolding window_title
accessible_title l = bytes "tmux, " ++ l.session_name ++ bytes ", " ++ window_title l

pub record TmuxBinding : Type 0 where
  pub table : Bytes
  pub key : Bytes
  pub repeatable : Bool
  pub command : Bytes

pub data ReconcileOutcome : Type 0 where
  applied ignored resync_required : ReconcileOutcome

pub record TmuxTopology : Type 0 where
  pub connection_id : ℕ
  pub label : Bytes
  pub host : Option Bytes
  pub sessions : List (ℕ × Session)
  pub windows : List (ℕ × Window)
  pub panes : List (ℕ × Pane)
  pub attached_session : Option ℕ
  pub options : List (Bytes × Bytes)
  pub client_info : List (Bytes × Bytes)
  pub bindings : List (Bytes × TmuxBinding)
  pub key_tables : List (Bytes × List (Bytes × TmuxBinding))
  pub needs_resync : Bool

unfoldable pub new : ℕ → TmuxTopology
unfolding decimal
new connection_id = record {
  connection_id = connection_id;
  label = bytes "tmux " ++ decimal connection_id;
  host = none;
  sessions = [];
  windows = [];
  panes = [];
  attached_session = none;
  options = [];
  client_info = [];
  bindings = [];
  key_tables = [];
  needs_resync = false;
}

abbrev pub empty_session : ℕ → Session
empty_session id = record { id = id; name = []; windows = []; active_window = none }

abbrev pub empty_window : ℕ → Window
empty_window id = record {
  id = id;
  name = [];
  links = [];
  active_pane = none;
  layout = [];
  visible_layout = [];
  flags = [];
}

abbrev pub empty_pane : ℕ → ℕ → Pane
empty_pane id window_id = record {
  id = id;
  window_id = window_id;
  index = 0;
  title = [];
  left = 0;
  top = 0;
  width = 0;
  height = 0;
  dead = false;
  cursor_x = 0;
  cursor_y = 0;
  cursor_visible = true;
  cursor_shape = bytes "default";
  alternate_on = false;
  pane_in_mode = 0;
  mode = [];
  history_size = 0;
}
