-- ===== src/Topology/Coherence/Notified.antt =====
-- The notifications of src/tmux_model.rs keep the references of the topology.
use lector.Prelude.{ℕ, refl, not, ◌||◌, Option, none, some, Bytes, if_cases}
use lector.Topology.Maps.{nat_key, find, contains_key}
use lector.Topology.Coherence.{IsCoherent}
use lector.Topology.Coherence.Changes.{
  LeavesCoherent, require_resync-IsCoherent, reconciled_unless-IsCoherent,
  rename_session-IsCoherent, rename_attached-IsCoherent, activate_window-IsCoherent,
  update_window-IsCoherent, activate_pane-IsCoherent, remove_pane-IsCoherent,
  remove_window-IsCoherent, close_window-IsCoherent,
}
use lector.Topology.Outcomes.{OnOk, returned, OnOk-bind, OnOk-elim}
use lector.Topology.Text.{
  ok, ◌>>=◌, text, parse_session_id, parse_window_id, parse_pane_id, splitn, split_first,
  single_field,
}
use lector.Topology.Data.{TmuxTopology, ReconcileOutcome}
use lector.Topology.Notifications.{
  Reconciled, require_resync, rename_session, activate_window, rename_window, activate_pane,
  enter_window, set_layout, remove_window, close_window,
}
use lector.Topology.Notify.{
  Notification, sessions_changed, session_changed, session_renamed, session_window_changed,
  window_renamed, window_pane_changed, window_add, window_close, unlinked_window_close,
  layout_change, pane_mode_changed, pane_exited, other, on_session_changed, rename_attached,
  on_session_renamed, on_session_window_changed, on_window_renamed, on_window_pane_changed,
  on_window_add, close_attached_window, is_linked, on_unlinked_window_close, next_field,
  apply_layout_change, on_layout_change, on_pane_exited, notification_kind, reconcile,
  apply_notification,
}

abbrev P : Reconciled → Type 0
P = LeavesCoherent

on_session_changed-IsCoherent :
    (t : TmuxTopology) (arguments : Bytes) → IsCoherent t → OnOk P (on_session_changed t arguments)
unfolding on_session_changed
on_session_changed-IsCoherent t arguments c = OnOk-bind P (split_first arguments) _ λ fields _.
    OnOk-bind P (parse_session_id fields.0) _ λ id _.
      OnOk-bind P (text fields.1 "session name") _ λ name _. returned (
        reconciled_unless-IsCoherent (not (contains_key id t.sessions))
          (record (rename_session t id name) { attached_session = some id })
          (rename_session-IsCoherent t id name c))

on_session_renamed-IsCoherent :
    (t : TmuxTopology) (arguments : Bytes) → IsCoherent t → OnOk P (on_session_renamed t arguments)
unfolding on_session_renamed
on_session_renamed-IsCoherent t arguments c = by_attached t.attached_session
  where
    by_attached :
        (attached : Option ℕ)
        → OnOk P (elim attached [
          | none ↦ ok (require_resync t)
          | some id ↦ text arguments "session name" >>= λ name. ok (rename_attached t id name)
        ])
    by_attached none = returned (require_resync-IsCoherent t c)
    by_attached (some id) =
        OnOk-bind P (text arguments "session name") _
          λ name _. returned (rename_attached-IsCoherent t id name c)

on_session_window_changed-IsCoherent :
    (t : TmuxTopology) (arguments : Bytes)
    → IsCoherent t
    → OnOk P (on_session_window_changed t arguments)
unfolding on_session_window_changed
on_session_window_changed-IsCoherent t arguments c =
    OnOk-bind P (split_first arguments) _ λ fields _.
      OnOk-bind P (parse_session_id fields.0) _ λ s _.
        OnOk-bind P (single_field fields.1) _ λ window _.
          OnOk-bind P (parse_window_id window) _ λ w _. returned (
            reconciled_unless-IsCoherent
              (not (contains_key s t.sessions) || not (contains_key w t.windows))
              (activate_window t s w) (activate_window-IsCoherent t s w c))

on_window_renamed-IsCoherent :
    (t : TmuxTopology) (arguments : Bytes) → IsCoherent t → OnOk P (on_window_renamed t arguments)
unfolding on_window_renamed rename_window
on_window_renamed-IsCoherent t arguments c = OnOk-bind P (split_first arguments) _ λ fields _.
    OnOk-bind P (parse_window_id fields.0) _ λ w _.
      OnOk-bind P (text fields.1 "window name") _ λ name _. returned (
        reconciled_unless-IsCoherent (not (contains_key w t.windows)) (rename_window t w name)
          (update_window-IsCoherent t w (λ x. record x { name = name }) c (λ x. refl) (λ x. refl)))

on_window_pane_changed-IsCoherent :
    (t : TmuxTopology) (arguments : Bytes)
    → IsCoherent t
    → OnOk P (on_window_pane_changed t arguments)
unfolding on_window_pane_changed
on_window_pane_changed-IsCoherent t arguments c = OnOk-bind P (split_first arguments) _ λ fields _.
    OnOk-bind P (parse_window_id fields.0) _ λ w _. OnOk-bind P (single_field fields.1) _ λ pane _.
      OnOk-bind P (parse_pane_id pane) _ λ p _. returned (
        reconciled_unless-IsCoherent
          (not (contains_key w t.windows) || not (contains_key p t.panes)) (activate_pane t w p)
          (activate_pane-IsCoherent t w p c))

on_window_add-IsCoherent :
    (t : TmuxTopology) (arguments : Bytes) → IsCoherent t → OnOk P (on_window_add t arguments)
unfolding on_window_add enter_window
on_window_add-IsCoherent t arguments c = OnOk-bind P (single_field arguments) _ λ window _.
    OnOk-bind P (parse_window_id window) _ λ w _. returned (
      require_resync-IsCoherent (enter_window t w)
        (update_window-IsCoherent t w (λ x. x) c (λ x. refl) (λ x. refl)))

close_attached_window-IsCoherent :
    (t : TmuxTopology) (arguments : Bytes)
    → IsCoherent t
    → OnOk P (close_attached_window t arguments)
unfolding close_attached_window
close_attached_window-IsCoherent t arguments c = OnOk-bind P (single_field arguments) _ λ window _.
    OnOk-bind P (parse_window_id window) _ λ w _. returned (by_attached w t.attached_session)
  where
    by_attached :
        (w : ℕ) (attached : Option ℕ)
        → LeavesCoherent (elim attached [
          | none ↦ require_resync t
          | some s ↦ (close_window t s w, ReconcileOutcome.applied)
        ])
    by_attached w none = require_resync-IsCoherent t c
    by_attached w (some s) = close_window-IsCoherent t s w c

on_unlinked_window_close-IsCoherent :
    (t : TmuxTopology) (arguments : Bytes)
    → IsCoherent t
    → OnOk P (on_unlinked_window_close t arguments)
unfolding on_unlinked_window_close
on_unlinked_window_close-IsCoherent t arguments c =
    OnOk-bind P (single_field arguments) _ λ window _. OnOk-bind P (parse_window_id window) _ λ w _.
      returned (
        if_cases LeavesCoherent (is_linked (find w t.windows)) (require_resync t)
          (remove_window t w, ReconcileOutcome.applied) (λ _. require_resync-IsCoherent t c)
          (λ _. remove_window-IsCoherent t w c))

apply_layout_change-IsCoherent :
    (t : TmuxTopology) (arguments : Bytes) → IsCoherent t → OnOk P (apply_layout_change t arguments)
unfolding apply_layout_change set_layout
apply_layout_change-IsCoherent t arguments c =
    OnOk-bind P (next_field (splitn 4 b' ' arguments)) _ λ window _.
      OnOk-bind P (parse_window_id window.0) _ λ w _.
        OnOk-bind P (next_field window.1) _ λ layout _.
          OnOk-bind P (text layout.0 "window layout") _ λ a _.
            OnOk-bind P (next_field layout.1) _ λ visible _.
              OnOk-bind P (text visible.0 "window visible layout") _ λ b _.
                OnOk-bind P (next_field visible.1) _ λ flags _.
                  OnOk-bind P (text flags.0 "window flags") _ λ d _. returned (
                    reconciled_unless-IsCoherent (not (contains_key w t.windows))
                      (set_layout t w a b d)
                      (update_window-IsCoherent t w
                        (λ x. record x { layout = a; visible_layout = b; flags = d }) c (λ x. refl)
                        (λ x. refl)))

on_layout_change-IsCoherent :
    (t : TmuxTopology) (arguments : Bytes) → IsCoherent t → OnOk P (on_layout_change t arguments)
unfolding on_layout_change
on_layout_change-IsCoherent t arguments c = OnOk-bind P (apply_layout_change t arguments) _ λ r e.
    returned (
      require_resync-IsCoherent r.0
        (OnOk-elim P r (apply_layout_change-IsCoherent t arguments c) e))

on_pane_exited-IsCoherent :
    (t : TmuxTopology) (arguments : Bytes) → IsCoherent t → OnOk P (on_pane_exited t arguments)
unfolding on_pane_exited
on_pane_exited-IsCoherent t arguments c =
    OnOk-bind P (single_field arguments) _
      λ pane _. OnOk-bind P (parse_pane_id pane) _ λ p _. returned (remove_pane-IsCoherent t p c)

reconcile-IsCoherent :
    (n : Notification) (t : TmuxTopology) (arguments : Bytes)
    → IsCoherent t
    → OnOk P (reconcile n t arguments)
unfolding reconcile
reconcile-IsCoherent sessions_changed t arguments c = returned (require_resync-IsCoherent t c)
reconcile-IsCoherent session_changed t arguments c = on_session_changed-IsCoherent t arguments c
reconcile-IsCoherent session_renamed t arguments c = on_session_renamed-IsCoherent t arguments c
reconcile-IsCoherent session_window_changed t arguments c =
    on_session_window_changed-IsCoherent t arguments c
reconcile-IsCoherent window_renamed t arguments c = on_window_renamed-IsCoherent t arguments c
reconcile-IsCoherent window_pane_changed t arguments c =
    on_window_pane_changed-IsCoherent t arguments c
reconcile-IsCoherent window_add t arguments c = on_window_add-IsCoherent t arguments c
reconcile-IsCoherent window_close t arguments c = close_attached_window-IsCoherent t arguments c
reconcile-IsCoherent unlinked_window_close t arguments c =
    on_unlinked_window_close-IsCoherent t arguments c
reconcile-IsCoherent layout_change t arguments c = on_layout_change-IsCoherent t arguments c
reconcile-IsCoherent pane_mode_changed t arguments c = returned (require_resync-IsCoherent t c)
reconcile-IsCoherent pane_exited t arguments c = on_pane_exited-IsCoherent t arguments c
reconcile-IsCoherent other t arguments c = returned c

-- A notification of any name and arguments, when it is applied without an error, leaves a coherent
-- topology coherent: every session, window and pane still stands under its id, the active window of a
-- session, the window of a pane and the attached session are there, and a session shows a window at an
-- index just when the window has that link. Of the active pane of a window nothing is said.
pub apply_notification-IsCoherent :
    (t : TmuxTopology) (name arguments : Bytes)
    → IsCoherent t
    → OnOk LeavesCoherent (apply_notification t name arguments)
unfolding apply_notification
apply_notification-IsCoherent t name arguments c =
    reconcile-IsCoherent (notification_kind name) t arguments c
