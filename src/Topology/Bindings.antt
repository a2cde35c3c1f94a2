-- ===== src/Topology/Bindings.antt =====
-- The key bindings of an inventory in src/tmux_model.rs, in both forms of the records.
use lector.Prelude.{
  ℕ, ◌+◌, ◌*◌, Bool, true, false, not, ◌||◌, none, some, List, [], Bytes, bytes, is_empty, any, ltb,
  leb, ◌==◌, bytes_eq, if◌then◌else◌, length,
}
use lector.Topology.Maps.{bytes_key, find, contains_key, insert}
use lector.Topology.Text.{
  Result, ok, err, ◌>>=◌, ◌>>◌, refuse_if, ok_or, malformed_inventory, contradictory_inventory,
  text, boolean, split_inventory,
}
use lector.Topology.Records.{field, tab_count}
use lector.Topology.Lexer.{next_token, remainder}
use lector.Topology.Data.{TmuxBinding, TmuxTopology}

unfoldable pub is_line_byte : ℕ → Bool
is_line_byte b = b == 0 || b == 13 || b == 10

unfoldable pub validate_binding : Bytes → Bytes → Bytes → Result (Unit {0})
unfolding is_line_byte
validate_binding table key command =
    refuse_if
      (is_empty table
        || ltb 128 (length table)
        || is_empty key
        || ltb 128 (length key)
        || is_empty command
        || ltb (64 * 1024) (length command)
        || any (λ b. is_line_byte b || b == 9) table
        || any is_line_byte key
        || any is_line_byte command)
      malformed_inventory

-- `self.key_tables.entry(table).or_default()`
unfoldable pub table_or_default :
    Bytes → List (Bytes × List (Bytes × TmuxBinding)) → List (Bytes × TmuxBinding)
table_or_default table tables = elim (find table tables) [ none ↦ [] | some entries ↦ entries ]

-- `bindings.insert(key, binding)`, in the table of the binding
unfoldable pub add_binding :
    List (Bytes × TmuxBinding) → TmuxBinding → Result (List (Bytes × TmuxBinding))
add_binding entries binding = do
  refuse_if (contains_key binding.key entries)
      (contradictory_inventory "duplicate key-table binding")
  ok (insert binding.key binding entries)

unfoldable pub insert_prefix_binding : TmuxTopology → TmuxBinding → Result TmuxTopology
unfolding add_binding
insert_prefix_binding t binding = do
  entries ← add_binding t.bindings binding
  ok (record t { bindings = entries })

unfoldable pub insert_table_binding : TmuxTopology → TmuxBinding → Result TmuxTopology
unfolding add_binding table_or_default
insert_table_binding t binding = do
  entries ← add_binding (table_or_default binding.table t.key_tables) binding
  ok (record t { key_tables = insert binding.table entries t.key_tables })

unfoldable pub insert_binding : TmuxTopology → TmuxBinding → Result TmuxTopology
unfolding insert_prefix_binding insert_table_binding
insert_binding t binding =
    if bytes_eq binding.table (bytes "prefix")
    then insert_prefix_binding t binding
    else insert_table_binding t binding

unfoldable pub inventory_binding : TmuxTopology → Bytes → Result TmuxTopology
unfolding tab_count split_inventory field text boolean validate_binding insert_binding
inventory_binding t line = do
  let has_table = leb 4 (tab_count line)
  let key_index = if has_table then 2 else 1
  fields ← split_inventory line (if has_table then 5 else 4)
  table ← if has_table then text (field fields 1) "binding table" else ok (bytes "prefix")
  key ← text (field fields key_index) "binding key"
  command ← text (field fields (key_index + 2)) "binding command"
  validate_binding table key command
  repeatable ← boolean (field fields (key_index + 1)) "binding repeatable"
  insert_binding t (record { table = table; key = key; repeatable = repeatable; command = command })

-- `lexer.next()?.ok_or(MalformedInventory)?`
unfoldable pub required_token : Bytes → Result (Bytes × Bytes)
unfolding next_token
required_token input = do
  (token, rest) ← next_token input
  found ← ok_or token malformed_inventory
  ok (found, rest)

-- The token behind `-r`, or the one at hand.
unfoldable pub after_repeat : Bool → Bytes → Bytes → Result (Bytes × Bytes)
unfolding required_token
after_repeat true token rest = required_token rest
after_repeat false token rest = ok (token, rest)

unfoldable pub table_option : Bytes → Bytes → Result (Bytes × Bytes)
unfolding required_token
table_option token rest =
    let named = required_token rest in
    if bytes_eq token (bytes "-T")
    then named
    else if bytes_eq token (bytes "-n")
    then ok (bytes "root", rest)
    else err malformed_inventory

unfoldable pub parse_legacy_binding : Bytes → Result TmuxBinding
unfolding required_token after_repeat table_option remainder text validate_binding next_token
parse_legacy_binding line = do
  (command_token, behind_command) ← next_token line
  name ← ok_or command_token malformed_inventory
  refuse_if (not (bytes_eq name (bytes "bind-key"))) malformed_inventory
  (first, behind_first) ← required_token behind_command
  let repeatable = bytes_eq first (bytes "-r")
  (option, behind_option) ← after_repeat repeatable first behind_first
  (table_bytes, behind_table) ← table_option option behind_option
  (key_bytes, behind_key) ← required_token behind_table
  command_bytes ← remainder behind_key
  table ← text table_bytes "binding table"
  key ← text key_bytes "binding key"
  command ← text command_bytes "binding command"
  validate_binding table key command
  ok (record { table = table; key = key; repeatable = repeatable; command = command })

unfoldable pub inventory_legacy_binding : TmuxTopology → Bytes → Result TmuxTopology
unfolding parse_legacy_binding insert_binding
inventory_legacy_binding t line = do binding ← parse_legacy_binding line; insert_binding t binding
