-- ===== src/Topology/Coherence/Lines.antt =====
-- The inventory of src/tmux_model.rs, record by record.
use lector.Prelude.{
  ℕ, ◌≡◌, refl, sym, ◌∙◌, Bool, true, false, none, List, [], ◌∷◌, arith, if◌then◌else◌, is_some,
  Bytes, bytes, bytes_eq, leb, is_empty, if_cases, ◌+◌,
}
use lector.Topology.Maps.{nat_key, bytes_key, find, contains_key}
use lector.Topology.Maps.Lookup.{contains_key-eq, find-nil}
use lector.Topology.Coherence.{IsWired, HaveActive}
use lector.Topology.Coherence.Active.{add_link-HaveActive, add_pane-HaveActive}
use lector.Topology.Coherence.Sessions.{insert_session-IsWired, shown-none}
use lector.Topology.Coherence.Filling.{
  entered_links, entered_id, add_link-IsWired, add_pane-IsWired,
}
use lector.Topology.Replace.{
  LineKind, session_line, window_line, pane_line, attached_line, option_line, client_line,
  binding_line, legacy_binding_line, unknown_line, line_kind, apply_line, apply_inventory_line,
  apply_lines,
}
use lector.Topology.Bindings.{
  insert_binding, insert_prefix_binding, insert_table_binding, add_binding, table_or_default,
  validate_binding, inventory_binding, inventory_legacy_binding, parse_legacy_binding,
}
use lector.Topology.Outcomes.{
  OnOk, returned, refused, OnOk-bind, OnOk-refuse, OnOk-ok_or, OnOk-elim,
}
use lector.Topology.Text.{
  ok, malformed_inventory, boolean, contradictory_inventory, text, parse_session_id,
  split_inventory,
}
use lector.Topology.Data.{link_key, TmuxBinding, Session, TmuxTopology}
use lector.Topology.Records.{field, tab_count, parse_window, parse_pane}
use lector.Topology.Inventory.{
  parse_host, inventory_attached, add_key_value, inventory_key_value, add_pane, entered_pane,
  inventory_pane, inventory_window, add_window, differs, add_session, inventory_session,
  entered_window,
}

-- The topology is that of the connection, with its label, and needs no resync.
abbrev pub IsFor : ℕ → Bytes → TmuxTopology → Type 0
IsFor connection label t =
    (t.connection_id ≡ connection) × (t.label ≡ label) × (t.needs_resync ≡ false)

abbrev pub Filled : ℕ → Bytes → TmuxTopology → Type 0
Filled connection label t = IsWired t × HaveActive t.windows t.panes × IsFor connection label t

module _ (connection : ℕ) (label : Bytes) where
  abbrev F : TmuxTopology → Type 0
  F = Filled connection label

  add_session-Filled :
      (t : TmuxTopology) (id : ℕ) (name : Bytes) → F t → OnOk F (add_session t id name)
  unfolding add_session
  add_session-Filled t id name f =
      OnOk-refuse F (contains_key id t.sessions) (contradictory_inventory "duplicate session id") _
        λ new. returned (
          insert_session-IsWired t id fresh f.0 (refl, tt, λ w e. cc e)
              (λ i. find-nil i ∙ sym (shown-none t.sessions id i (missing new))),
          f.1,
          f.2,
        )
    where
      fresh : Session
      fresh = record { id = id; name = name; windows = []; active_window = none }

      missing : contains_key id t.sessions ≡ false → find id t.sessions ≡ none
      missing h = ground (arith, contains_key-eq id t.sessions)

  inventory_session-Filled :
      (t : TmuxTopology) (line : Bytes) → F t → OnOk F (inventory_session t line)
  unfolding inventory_session
  inventory_session-Filled t line f = OnOk-bind F (split_inventory line 3) _ λ fields _.
      OnOk-bind F (parse_session_id (field fields 1)) _ λ id _.
        OnOk-bind F (text (field fields 2) "session name") _
          λ name _. add_session-Filled t id name f

  inventory_window-Filled :
      (t : TmuxTopology) (line : Bytes) → F t → OnOk F (inventory_window t line)
  unfolding inventory_window add_window
  inventory_window-Filled t line f = OnOk-bind F (parse_window line) _ λ r _.
      OnOk-ok_or F (find r.session_id t.sessions)
        (contradictory_inventory "window references missing session") _
        λ x q.
          OnOk-refuse F (contains_key r.index x.windows)
            (contradictory_inventory "duplicate window index") _
            λ free.
              OnOk-refuse F (differs r (entered_window r t.windows))
                (contradictory_inventory "linked window metadata differs") _
                λ _. returned (
                  add_link-IsWired t r x (entered_window r t.windows) f.0 q free
                      (entered_id t r f.0.windows_at) (entered_links t r),
                  add_link-HaveActive t r f.1,
                  f.2,
                )

  inventory_pane-Filled : (t : TmuxTopology) (line : Bytes) → F t → OnOk F (inventory_pane t line)
  unfolding inventory_pane add_pane
  inventory_pane-Filled t line f = OnOk-bind F (parse_pane line) _ λ parsed _.
      OnOk-ok_or F (find parsed.0.window_id t.windows)
        (contradictory_inventory "pane references missing window") _
        λ w q. OnOk-bind F (entered_pane t.panes parsed.0) _ λ panes entered. returned (
          add_pane-IsWired t parsed.0 parsed.1 w f.0 q panes entered,
          add_pane-HaveActive t parsed.0 parsed.1 w q panes entered f.1,
          f.2,
        )

  inventory_attached-Filled :
      (t : TmuxTopology) (line : Bytes) → F t → OnOk F (inventory_attached t line)
  unfolding inventory_attached
  inventory_attached-Filled t line f =
      OnOk-bind F (split_inventory line (if leb 2 (tab_count line) then 3 else 2)) _ λ fields _.
        OnOk-bind F (parse_session_id (field fields 1)) _ λ id _.
          OnOk-refuse F (is_some t.attached_session)
            (contradictory_inventory "multiple attached records") _
            λ _.
              OnOk-bind F (parse_host (leb 2 (tab_count line)) (field fields 2) t.host) _
                λ host _. returned f

  add_key_value-Filled :
      (t : TmuxTopology) (option : Bool) (key value : Bytes)
      → F t
      → OnOk F (add_key_value t option key value)
  unfolding add_key_value
  add_key_value-Filled t true key value f =
      OnOk-refuse F (contains_key key t.options) (contradictory_inventory "duplicate metadata key")
        _ λ _. returned f
  add_key_value-Filled t false key value f =
      OnOk-refuse F (contains_key key t.client_info)
        (contradictory_inventory "duplicate metadata key") _ λ _. returned f

  inventory_key_value-Filled :
      (t : TmuxTopology) (line : Bytes) (option : Bool)
      → F t
      → OnOk F (inventory_key_value t line option)
  unfolding inventory_key_value
  inventory_key_value-Filled t line option f = OnOk-bind F (split_inventory line 3) _ λ fields _.
      OnOk-refuse F (is_empty (field fields 1)) malformed_inventory _ λ _.
        OnOk-bind F (text (field fields 1) "metadata key") _ λ key _.
          OnOk-bind F (text (field fields 2) "metadata value") _
            λ value _. add_key_value-Filled t option key value f

  insert_binding-Filled :
      (t : TmuxTopology) (binding : TmuxBinding) → F t → OnOk F (insert_binding t binding)
  unfolding insert_binding insert_prefix_binding insert_table_binding
  insert_binding-Filled t binding f =
      if_cases (OnOk F) (bytes_eq binding.table (bytes "prefix")) (insert_prefix_binding t binding)
        (insert_table_binding t binding)
        (λ _. OnOk-bind F (add_binding t.bindings binding) _ λ entries _. returned f)
        (λ _.
          OnOk-bind F (add_binding (table_or_default binding.table t.key_tables) binding) _
            λ entries _. returned f)

  inventory_binding-Filled :
      (t : TmuxTopology) (line : Bytes) → F t → OnOk F (inventory_binding t line)
  unfolding inventory_binding
  inventory_binding-Filled t line f =
      OnOk-bind F (split_inventory line (if has_table then 5 else 4)) _ λ fields _.
        OnOk-bind F
          (if has_table then text (field fields 1) "binding table" else ok (bytes "prefix")) _
          λ table _. OnOk-bind F (text (field fields key_index) "binding key") _ λ key _.
            OnOk-bind F (text (field fields (key_index + 2)) "binding command") _ λ command _.
              OnOk-bind F (validate_binding table key command) _ λ _ _.
                OnOk-bind F (boolean (field fields (key_index + 1)) "binding repeatable") _
                  λ repeatable _.
                    insert_binding-Filled t
                      (record {
                        table = table;
                        key = key;
                        repeatable = repeatable;
                        command = command;
                      })
                      f
    where
      has_table : Bool
      has_table = leb 4 (tab_count line)

      key_index : ℕ
      key_index = if has_table then 2 else 1

  inventory_legacy_binding-Filled :
      (t : TmuxTopology) (line : Bytes) → F t → OnOk F (inventory_legacy_binding t line)
  unfolding inventory_legacy_binding
  inventory_legacy_binding-Filled t line f =
      OnOk-bind F (parse_legacy_binding line) _ λ binding _. insert_binding-Filled t binding f

  apply_line-Filled :
      (kind : LineKind) (t : TmuxTopology) (line : Bytes) → F t → OnOk F (apply_line kind t line)
  unfolding apply_line
  apply_line-Filled session_line t line f = inventory_session-Filled t line f
  apply_line-Filled window_line t line f = inventory_window-Filled t line f
  apply_line-Filled pane_line t line f = inventory_pane-Filled t line f
  apply_line-Filled attached_line t line f = inventory_attached-Filled t line f
  apply_line-Filled option_line t line f = inventory_key_value-Filled t line true f
  apply_line-Filled client_line t line f = inventory_key_value-Filled t line false f
  apply_line-Filled binding_line t line f = inventory_binding-Filled t line f
  apply_line-Filled legacy_binding_line t line f = inventory_legacy_binding-Filled t line f
  apply_line-Filled unknown_line t line f = refused

  pub apply_lines-Filled :
      (t : TmuxTopology) (lines : List Bytes) → F t → OnOk F (apply_lines t lines)
  unfolding apply_lines apply_inventory_line
  apply_lines-Filled t [] f = returned f
  apply_lines-Filled t (line ∷ lines) f = OnOk-bind F (apply_inventory_line t line) _ λ t' e.
      apply_lines-Filled t' lines (OnOk-elim F t' (apply_line-Filled (line_kind line) t line f) e)
