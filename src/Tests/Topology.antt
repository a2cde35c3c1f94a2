-- ===== src/Tests/Topology.antt =====
-- Runs of the model of src/tmux_model.rs on concrete inputs, and the theorems at such inputs.
use lector.Prelude.{◌≡◌, refl, true, Option, none, some, List, [], ◌∷◌, Bytes, bytes, arith}
use lector.Topology.Maps.{nat_key, find, insert, contains_key, update_or_insert, remove}
use lector.Topology.Data.{TmuxTopology, TmuxBinding, TmuxLocation, empty_window, new}
use lector.Topology.Text.{
  TopologyError, ok, err, decimal, trim, split_first, single_field, parse_id, is_utf8,
}
use lector.Topology.Replace.{replace_inventory, apply_line}
use lector.Topology.Notify.{
  apply_notification, on_window_pane_changed, on_window_add, on_unlinked_window_close,
}
use lector.Topology.Notifications.{remove_window, reconciled_unless, enter_window, activate_pane}
use lector.Topology.Bindings.{parse_legacy_binding, validate_binding, inventory_binding}
use lector.Topology.Inventory.{
  inventory_session, inventory_window, inventory_pane, inventory_attached,
}
use lector.Topology.Lexer.{is_ascii_whitespace}
use lector.Topology.Queries.{attached_location}
use lector.Topology.Outcomes.{OnOk}
use lector.Topology.Coherence.{IsCoherent}
use lector.Topology.Coherence.Changes.{LeavesCoherent}
use lector.Topology.Coherence.Replacement.{
  new-IsCoherent, Replaces, replaced, kept, replace_inventory-Replaces,
}
use lector.Topology.Coherence.Notified.{apply_notification-IsCoherent}
use lector.Topology.Locations.{IsAt, attached_location-IsAt, IsForgotten, remove_window-IsForgotten}
use lector.Topology.Numbers.{parse_id-decimal}
use lector.Topology.Quoting.{
  Piece, bare, escaped, quoted, literal, slashed, meaning, AreFit, IsPrintable, binding_line,
  parse_legacy_binding-binding_line,
}

abbrev inventory : List Bytes
inventory =
    bytes "S\t$1\twork"
    ∷ bytes "S\t$2\tplay"
    ∷ bytes "W\t$1\t@3\t0\t1\tlay\tvis\t*\tshell"
    ∷ bytes "W\t$2\t@3\t5\t0\tlay\tvis\t-\tshell"
    ∷ bytes "P\t@3\t%7\t0\t1\t0\t0\t80\t24\t0\ttitle"
    ∷ bytes "A\t$1\thost"
    ∷ bytes "B\tprefix\tC-b\t1\tsend-prefix -2"
    ∷ []

-- The topology of the inventory.
filled : TmuxTopology
unfolding replace_inventory
filled = (replace_inventory (new 4) inventory).0

filled_without_error : (replace_inventory (new 4) inventory).1 ≡ none
unfolding replace_inventory apply_line inventory_session inventory_window inventory_pane
    inventory_attached inventory_binding find insert contains_key parse_id
filled_without_error = refl

-- A window of a session that is not there
refused_window :
    (replace_inventory (new 4) (bytes "W\t$1\t@3\t0\t1\tlay\tvis\t*\tshell" ∷ [])).1
    ≡ some (TopologyError.contradictory_inventory "window references missing session")
unfolding replace_inventory apply_line inventory_session inventory_window inventory_pane
    inventory_attached inventory_binding find insert contains_key parse_id
refused_window = refl

replace_inventory-Replaces_example : Replaces (new 4) (replace_inventory (new 4) inventory)
replace_inventory-Replaces_example = replace_inventory-Replaces (new 4) inventory

filled-IsCoherent : IsCoherent filled
unfolding replace_inventory filled
filled-IsCoherent = from (replace_inventory-Replaces (new 4) inventory)
  where
    from : {r : TmuxTopology × Option TopologyError} → Replaces (new 4) r → IsCoherent r.0
    from (replaced c _ _) = c
    from kept = new-IsCoherent 4

apply_notification-IsCoherent_example :
    OnOk LeavesCoherent (apply_notification filled (bytes "window-close") (bytes "@3"))
apply_notification-IsCoherent_example =
    apply_notification-IsCoherent filled (bytes "window-close") (bytes "@3") filled-IsCoherent

-- The changes of a topology, in order; one that fails leaves it.
abbrev notified : TmuxTopology → List (Bytes × Bytes) → TmuxTopology
notified t [] = t
notified t ((name, arguments) ∷ rest) = elim (apply_notification t name arguments) [
  | ok (t', outcome) ↦ notified t' rest
  | err reason ↦ notified t rest
]

-- A pane that two windows name as active goes with its own window, and the other one still names it.
abbrev stale : TmuxTopology
stale = notified (new 4) (
    (bytes "window-pane-changed", bytes "@2 %5")
    ∷ (bytes "window-add", bytes "@1")
    ∷ (bytes "window-pane-changed", bytes "@1 %5")
    ∷ (bytes "unlinked-window-close", bytes "@2")
    ∷ [])

stale_active_pane :
    (find 1 stale.windows ≡ some (record (empty_window 1) { active_pane = some 5 }))
    × (find 5 stale.panes ≡ none)
unfolding apply_notification find insert contains_key parse_id on_window_pane_changed split_first
    single_field on_window_add on_unlinked_window_close reconciled_unless enter_window
    update_or_insert new activate_pane remove_window remove
stale_active_pane = (refl, refl)

remove_window-IsForgotten_example : IsForgotten (remove_window filled 3) 3
remove_window-IsForgotten_example = remove_window-IsForgotten filled 3 filled-IsCoherent

abbrev shown_location : TmuxLocation
shown_location = record {
  session_id = 1;
  session_name = bytes "work";
  window_id = 3;
  window_index = 0;
  window_name = bytes "shell";
  pane_id = some 7;
  pane_index = some 0;
  pane_count = 1;
}

filled_location : attached_location filled ≡ some shown_location
unfolding filled attached_location apply_line inventory_session inventory_window inventory_pane
    inventory_attached inventory_binding find insert contains_key parse_id
filled_location = refl

attached_location-IsAt_example : IsAt filled shown_location
attached_location-IsAt_example =
    attached_location-IsAt filled shown_location filled-IsCoherent filled_location

parse_id-decimal_example : parse_id (b'%' ∷ decimal 4096) b'%' "pane" ≡ ok 4096
parse_id-decimal_example = parse_id-decimal b'%' 4096 "pane" (omega arith)

-- `"my \"table"'s' \\`: quotes of both kinds, with a backslash within them and outside
abbrev table_pieces : List Piece
table_pieces =
    quoted b'"' (literal b'm' ∷ literal b'y' ∷ literal b' ' ∷ slashed b'"' ∷ [])
    ∷ bare b't'
    ∷ quoted b'\'' (literal b'"' ∷ literal b's' ∷ [])
    ∷ escaped b' '
    ∷ []

abbrev key_pieces : List Piece
key_pieces = escaped b'\\' ∷ []

abbrev read_binding : TmuxBinding
read_binding = record {
  table = bytes "my \"t\"s ";
  key = bytes "\\";
  repeatable = true;
  command = bytes "send-prefix \\; x";
}

table-AreFit : AreFit table_pieces
unfolding is_ascii_whitespace
table-AreFit = ground arith

read-IsPrintable : IsPrintable read_binding
unfolding is_utf8 validate_binding is_ascii_whitespace
read-IsPrintable = record {
  table_text = refl;
  key_text = refl;
  command_text = refl;
  sizes = refl;
  unspaced = refl;
}

-- How the line is written
quoted_line :
    binding_line true table_pieces key_pieces (bytes "send-prefix \\; x")
    ≡ bytes "bind-key -r -T \"my \\\"\"t'\"s'\\  \\\\ send-prefix \\; x"
unfolding binding_line
quoted_line = refl

parse_legacy_binding-binding_line_example :
    parse_legacy_binding (binding_line true table_pieces key_pieces (bytes "send-prefix \\; x"))
    ≡ ok read_binding
unfolding meaning
parse_legacy_binding-binding_line_example =
    parse_legacy_binding-binding_line true table_pieces key_pieces (bytes "send-prefix \\; x")
      table-AreFit tt read-IsPrintable

trimmed_label : trim (bytes "  ab c \t") ≡ bytes "ab c"
unfolding trim
trimmed_label = refl
