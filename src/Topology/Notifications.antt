-- ===== src/Topology/Notifications.antt =====
-- The notifications in src/tmux_model.rs that change a topology. An error is found before anything is
-- changed, so a function returns no topology with it.
use lector.Prelude.{
  ℕ, Bool, true, false, not, Option, none, some, List, Bytes, is_empty, ◌==◌, if◌then◌else◌,
}
use lector.Topology.Maps.{nat_key, find, insert, update_or_insert, retain, map_values, remove}
use lector.Topology.Data.{
  Session, Window, TmuxTopology, ReconcileOutcome, applied, resync_required, empty_session,
  empty_window, empty_pane,
}

abbrev pub Reconciled : Type 0
Reconciled = TmuxTopology × ReconcileOutcome

unfoldable pub require_resync : TmuxTopology → Reconciled
require_resync t = (record t { needs_resync = true }, resync_required)

-- `if missing { self.require_resync() } else { Applied }`
unfoldable pub reconciled_unless : Bool → TmuxTopology → Reconciled
unfolding require_resync
reconciled_unless true t = require_resync t
reconciled_unless false t = (t, applied)

-- `option == Some(id)`
unfoldable pub is_id : Option ℕ → ℕ → Bool
is_id none id = false
is_id (some other) id = other == id

unfoldable pub clear_active : ℕ → Option ℕ → Option ℕ
unfolding is_id
clear_active id active = if is_id active id then none else active

unfoldable pub rename_session : TmuxTopology → ℕ → Bytes → TmuxTopology
rename_session t id name = record t {
  sessions = update_or_insert id (empty_session id) (λ s. record s { name = name }) t.sessions;
}

unfoldable pub activate_window : TmuxTopology → ℕ → ℕ → TmuxTopology
activate_window t session_id window_id = record t {
  sessions =
      update_or_insert session_id (empty_session session_id)
        (λ s. record s { active_window = some window_id }) t.sessions;
  windows = update_or_insert window_id (empty_window window_id) (λ w. w) t.windows;
}

unfoldable pub rename_window : TmuxTopology → ℕ → Bytes → TmuxTopology
rename_window t id name = record t {
  windows = update_or_insert id (empty_window id) (λ w. record w { name = name }) t.windows;
}

unfoldable pub activate_pane : TmuxTopology → ℕ → ℕ → TmuxTopology
activate_pane t window_id pane_id = record t {
  windows =
      update_or_insert window_id (empty_window window_id)
        (λ w. record w { active_pane = some pane_id }) t.windows;
  panes = update_or_insert pane_id (empty_pane pane_id window_id) (λ p. p) t.panes;
}

unfoldable pub enter_window : TmuxTopology → ℕ → TmuxTopology
enter_window t id = record t { windows = update_or_insert id (empty_window id) (λ w. w) t.windows }

unfoldable pub set_layout : TmuxTopology → ℕ → Bytes → Bytes → Bytes → TmuxTopology
set_layout t id layout visible_layout flags = record t {
  windows = update_or_insert id (empty_window id) change t.windows;
}
  where
    change : Window → Window
    change w = record w { layout = layout; visible_layout = visible_layout; flags = flags }

unfoldable pub clear_active_pane : ℕ → Window → Window
unfolding clear_active
clear_active_pane pane_id w = record w { active_pane = clear_active pane_id w.active_pane }

unfoldable pub remove_pane : TmuxTopology → ℕ → TmuxTopology
unfolding clear_active_pane
remove_pane t pane_id = record t {
  windows = map_values (clear_active_pane pane_id) t.windows;
  panes = remove pane_id t.panes;
}

-- The session without its links to a window.
unfoldable pub unlink_session : ℕ → Session → Session
unfolding clear_active
unlink_session window_id s = record s {
  windows = retain (λ _ id. not (id == window_id)) s.windows;
  active_window = clear_active window_id s.active_window;
}

unfoldable pub remove_window : TmuxTopology → ℕ → TmuxTopology
unfolding unlink_session
remove_window t window_id = record t {
  sessions = map_values (unlink_session window_id) t.sessions;
  windows = remove window_id t.windows;
  panes = retain (λ _ pane. not (pane.window_id == window_id)) t.panes;
}

-- `if let Some(session) = self.sessions.get_mut(&id)`
unfoldable pub unlink_in : ℕ → ℕ → List (ℕ × Session) → List (ℕ × Session)
unfolding unlink_session
unlink_in window_id session_id sessions = elim (find session_id sessions) [
  | none ↦ sessions
  | some s ↦ insert session_id (unlink_session window_id s) sessions
]

unfoldable pub unlink_window : ℕ → Window → Window
unlink_window session_id w = record w {
  links = retain (λ link _. not (link.session_id == session_id)) w.links;
}

unfoldable pub close_window : TmuxTopology → ℕ → ℕ → TmuxTopology
unfolding unlink_in unlink_window remove_window
close_window t session_id window_id = elim (find window_id t.windows) [
  | none ↦ unlinked
  | some w ↦ closed (unlink_window session_id w)
]
  where
    unlinked : TmuxTopology
    unlinked = record t { sessions = unlink_in window_id session_id t.sessions }

    closed : Window → TmuxTopology
    closed w =
        let linked = record unlinked { windows = insert window_id w t.windows } in
        if is_empty w.links then remove_window linked window_id else linked
