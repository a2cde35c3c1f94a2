-- ===== src/Topology/Commands.antt =====
-- The commands that ask tmux for an inventory (src/tmux_model.rs).
use lector.Prelude.{ℕ, String, List, [], ◌∷◌, ◌++◌, Bytes, bytes, length}

abbrev pub inventory_commands : List String
inventory_commands =
    "list-sessions -F 'S\t#{session_id}\t#{session_name}'\n"
    ∷ "list-windows -a -F 'W\t#{session_id}\t#{window_id}\t#{window_index}\t#{window_active}\t#{window_layout}\t#{window_visible_layout}\t#{window_flags}\t#{window_name}'\n"
    ∷ "list-panes -a -F 'P\t#{window_id}\t#{pane_id}\t#{pane_index}\t#{pane_active}\t#{pane_left}\t#{pane_top}\t#{pane_width}\t#{pane_height}\t#{pane_dead}\t#{cursor_x}\t#{cursor_y}\t#{cursor_flag}\t#{cursor_shape}\t#{alternate_on}\t#{pane_in_mode}\t#{pane_mode}\t#{history_size}\t#{pane_title}'\n"
    ∷ "display-message -p -F 'A\t#{session_id}\t#{host}'\n"
    ∷ "display-message -p -F 'O\tbase-index\t#{base-index}'\n"
    ∷ "display-message -p -F 'O\tpane-base-index\t#{pane-base-index}'\n"
    ∷ "display-message -p -F 'C\tclient_name\t#{client_name}'\n"
    ∷ "display-message -p -F 'O\tprefix\t#{prefix}'\n"
    ∷ "display-message -p -F 'O\tprefix2\t#{prefix2}'\n"
    ∷ "display-message -p -F 'O\tkey-table\t#{key-table}'\n"
    ∷ "display-message -p -F 'O\trepeat-time\t#{repeat-time}'\n" ∷ "list-keys -a\n" ∷ []

abbrev pub inventory_reply_count : ℕ
inventory_reply_count = length inventory_commands

-- `concat!`
concat_commands : List String → Bytes
concat_commands [] = []
concat_commands (command ∷ commands) = bytes command ++ concat_commands commands

pub inventory_command : Bytes
unfolding concat_commands
inventory_command = concat_commands inventory_commands
