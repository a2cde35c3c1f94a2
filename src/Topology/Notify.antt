-- ===== src/Topology/Notify.antt =====
-- `apply_notification` in src/tmux_model.rs: the arguments of each notification, and what it does.
use lector.Prelude.{
  ℕ, Bool, false, not, ◌||◌, Option, none, some, List, [], ◌∷◌, Bytes, bytes, is_empty, bytes_eq,
  if◌then◌else◌,
}
use lector.Topology.Maps.{nat_key, find, contains_key, insert}
use lector.Topology.Text.{
  Result, ok, err, ◌>>=◌, malformed_notification, text, parse_session_id, parse_window_id,
  parse_pane_id, splitn, split_first, single_field,
}
use lector.Topology.Data.{Window, TmuxTopology, applied, ignored}
use lector.Topology.Notifications.{
  Reconciled, require_resync, reconciled_unless, rename_session, activate_window, rename_window,
  activate_pane, enter_window, set_layout, remove_pane, remove_window, close_window,
}

pub data Notification : Type 0 where
  sessions_changed session_changed session_renamed session_window_changed window_renamed :
      Notification
  window_pane_changed window_add window_close unlinked_window_close layout_change : Notification
  pane_mode_changed pane_exited other : Notification

-- The arm of the match on the name.
unfoldable pub notification_kind : Bytes → Notification
notification_kind name =
    if bytes_eq name (bytes "sessions-changed")
    then sessions_changed
    else if bytes_eq name (bytes "session-changed")
    then session_changed
    else if bytes_eq name (bytes "session-renamed")
    then session_renamed
    else if bytes_eq name (bytes "session-window-changed")
    then session_window_changed
    else if bytes_eq name (bytes "window-renamed")
    then window_renamed
    else if bytes_eq name (bytes "unlinked-window-renamed")
    then window_renamed
    else if bytes_eq name (bytes "window-pane-changed")
    then window_pane_changed
    else if bytes_eq name (bytes "window-add")
    then window_add
    else if bytes_eq name (bytes "unlinked-window-add")
    then window_add
    else if bytes_eq name (bytes "window-close")
    then window_close
    else if bytes_eq name (bytes "unlinked-window-close")
    then unlinked_window_close
    else if bytes_eq name (bytes "layout-change")
    then layout_change
    else if bytes_eq name (bytes "pane-mode-changed")
    then pane_mode_changed
    else if bytes_eq name (bytes "pane-exited")
    then pane_exited
    else other

unfoldable pub on_session_changed : TmuxTopology → Bytes → Result Reconciled
on_session_changed t arguments = do
  (id_bytes, name_bytes) ← split_first arguments
  id ← parse_session_id id_bytes
  name ← text name_bytes "session name"
  ok (
      reconciled_unless (not (contains_key id t.sessions))
        (record (rename_session t id name) { attached_session = some id }))

-- The attached session, if it is there.
unfoldable pub rename_attached : TmuxTopology → ℕ → Bytes → Reconciled
rename_attached t id name = elim (find id t.sessions) [
  | none ↦ require_resync t
  | some s ↦ (record t { sessions = insert id (record s { name = name }) t.sessions }, applied)
]

unfoldable pub on_session_renamed : TmuxTopology → Bytes → Result Reconciled
unfolding rename_attached
on_session_renamed t arguments = elim t.attached_session [
  | none ↦ ok (require_resync t)
  | some id ↦ do name ← text arguments "session name"; ok (rename_attached t id name)
]

unfoldable pub on_session_window_changed : TmuxTopology → Bytes → Result Reconciled
on_session_window_changed t arguments = do
  (session, window) ← split_first arguments
  session_id ← parse_session_id session
  window_field ← single_field window
  window_id ← parse_window_id window_field
  ok (
      reconciled_unless
        (not (contains_key session_id t.sessions) || not (contains_key window_id t.windows))
        (activate_window t session_id window_id))

unfoldable pub on_window_renamed : TmuxTopology → Bytes → Result Reconciled
on_window_renamed t arguments = do
  (window, name_bytes) ← split_first arguments
  window_id ← parse_window_id window
  name ← text name_bytes "window name"
  ok (reconciled_unless (not (contains_key window_id t.windows)) (rename_window t window_id name))

unfoldable pub on_window_pane_changed : TmuxTopology → Bytes → Result Reconciled
on_window_pane_changed t arguments = do
  (window, pane) ← split_first arguments
  window_id ← parse_window_id window
  pane_field ← single_field pane
  pane_id ← parse_pane_id pane_field
  ok (
      reconciled_unless
        (not (contains_key window_id t.windows) || not (contains_key pane_id t.panes))
        (activate_pane t window_id pane_id))

unfoldable pub on_window_add : TmuxTopology → Bytes → Result Reconciled
on_window_add t arguments = do
  window ← single_field arguments
  window_id ← parse_window_id window
  ok (require_resync (enter_window t window_id))

unfoldable pub close_attached_window : TmuxTopology → Bytes → Result Reconciled
close_attached_window t arguments = do
  window ← single_field arguments
  window_id ← parse_window_id window
  ok (elim t.attached_session [
    | none ↦ require_resync t
    | some session_id ↦ (close_window t session_id window_id, applied)
  ])

-- `self.windows.get(&id).is_some_and(|window| !window.links.is_empty())`
unfoldable pub is_linked : Option Window → Bool
is_linked none = false
is_linked (some w) = not (is_empty w.links)

unfoldable pub on_unlinked_window_close : TmuxTopology → Bytes → Result Reconciled
unfolding is_linked
on_unlinked_window_close t arguments = do
  window ← single_field arguments
  window_id ← parse_window_id window
  ok (
      if is_linked (find window_id t.windows)
      then require_resync t
      else (remove_window t window_id, applied))

-- `fields.next().ok_or(MalformedNotification)?`
unfoldable pub next_field : List Bytes → Result (Bytes × List Bytes)
next_field [] = err malformed_notification
next_field (f ∷ fs) = ok (f, fs)

unfoldable pub apply_layout_change : TmuxTopology → Bytes → Result Reconciled
unfolding next_field
apply_layout_change t arguments = do
  (window, behind_window) ← next_field (splitn 4 b' ' arguments)
  window_id ← parse_window_id window
  (layout_bytes, behind_layout) ← next_field behind_window
  layout ← text layout_bytes "window layout"
  (visible_bytes, behind_visible) ← next_field behind_layout
  visible_layout ← text visible_bytes "window visible layout"
  (flags_bytes, _) ← next_field behind_visible
  flags ← text flags_bytes "window flags"
  ok (
      reconciled_unless (not (contains_key window_id t.windows))
        (set_layout t window_id layout visible_layout flags))

unfoldable pub on_layout_change : TmuxTopology → Bytes → Result Reconciled
unfolding apply_layout_change
on_layout_change t arguments = do
  (changed, _) ← apply_layout_change t arguments
  ok (require_resync changed)

unfoldable pub on_pane_exited : TmuxTopology → Bytes → Result Reconciled
on_pane_exited t arguments = do
  pane ← single_field arguments
  pane_id ← parse_pane_id pane
  ok (remove_pane t pane_id, applied)

unfoldable pub reconcile : Notification → TmuxTopology → Bytes → Result Reconciled
reconcile sessions_changed t arguments = ok (require_resync t)
reconcile session_changed t arguments = on_session_changed t arguments
reconcile session_renamed t arguments = on_session_renamed t arguments
reconcile session_window_changed t arguments = on_session_window_changed t arguments
reconcile window_renamed t arguments = on_window_renamed t arguments
reconcile window_pane_changed t arguments = on_window_pane_changed t arguments
reconcile window_add t arguments = on_window_add t arguments
reconcile window_close t arguments = close_attached_window t arguments
reconcile unlinked_window_close t arguments = on_unlinked_window_close t arguments
reconcile layout_change t arguments = on_layout_change t arguments
reconcile pane_mode_changed t arguments = ok (require_resync t)
reconcile pane_exited t arguments = on_pane_exited t arguments
reconcile other t arguments = ok (t, ignored)

unfoldable pub apply_notification : TmuxTopology → Bytes → Bytes → Result Reconciled
unfolding notification_kind reconcile
apply_notification t name arguments = reconcile (notification_kind name) t arguments
