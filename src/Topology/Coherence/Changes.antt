-- ===== src/Topology/Coherence/Changes.antt =====
-- The changes that a notification makes (src/tmux_model.rs) keep the topology coherent.
use lector.Prelude.{
  ℕ, ◌≡◌, refl, sym, ◌∙◌, Bool, true, false, ◌||◌, some, List, arith, Bytes, Option-cases, inl, inr,
  if_cases, is_empty, ◌==◌,
}
use lector.Topology.Maps.{nat_key, find, contains_key, insert, update_or_insert}
use lector.Topology.Maps.Lookup.{contains_key-insert, contains_key-map_values}
use lector.Topology.Coherence.{IsWired, IsCoherent}
use lector.Topology.Coherence.Sessions.{insert_session-IsWired, update_session-IsWired, shown-some}
use lector.Topology.Coherence.Windows.{update_window-IsWired, contains_key-update}
use lector.Topology.Coherence.Panes.{enter_pane-IsWired, remove_pane-IsWired}
use lector.Topology.Coherence.Closing.{remove_window-IsWired, close_window-IsWired}
use lector.Topology.Data.{Session, Window, TmuxTopology, empty_session, empty_window}
use lector.Topology.Notifications.{
  Reconciled, require_resync, reconciled_unless, rename_session, activate_window, activate_pane,
  clear_active_pane, remove_pane, unlink_session, remove_window, unlink_in, unlink_window,
  close_window,
}
use lector.Topology.Notify.{rename_attached}

abbrev pub LeavesCoherent : Reconciled → Type 0
LeavesCoherent r = IsCoherent r.0

-- The attached session stays: the sessions of the one are there in the other.
pub coherent :
    {t : TmuxTopology} (t' : TmuxTopology)
    → IsWired t'
    → ((k : ℕ) → contains_key k t.sessions ≡ true → contains_key k t'.sessions ≡ true)
    → t'.attached_session ≡ t.attached_session
    → IsCoherent t
    → IsCoherent t'
coherent t' wired covers same c = record {
  wired = wired;
  attached = λ id e. covers id (c.attached id (sym same ∙ e));
}

pub require_resync-IsCoherent :
    (t : TmuxTopology) → IsCoherent t → LeavesCoherent (require_resync t)
unfolding require_resync
require_resync-IsCoherent t c = record { wired = c.wired; attached = c.attached }

pub reconciled_unless-IsCoherent :
    (missing : Bool) (t : TmuxTopology)
    → IsCoherent t
    → LeavesCoherent (reconciled_unless missing t)
unfolding reconciled_unless
reconciled_unless-IsCoherent true t c = require_resync-IsCoherent t c
reconciled_unless-IsCoherent false t c = c

pub contains_key-update_session :
    (k j : ℕ) (change : Session → Session) (sessions : List (ℕ × Session))
    → contains_key j (update_or_insert k (empty_session k) change sessions)
      ≡ ((k == j) || contains_key j sessions)
unfolding update_or_insert
contains_key-update_session k j change sessions = elim (Option-cases (find k sessions)) [
  | inl q ↦ rw (q, update_or_insert) (contains_key-insert k j (change (empty_session k)) sessions)
  | inr (x, q) ↦ rw (q, update_or_insert) (contains_key-insert k j (change x) sessions)
]

pub rename_session-IsCoherent :
    (t : TmuxTopology) (id : ℕ) (name : Bytes)
    → IsCoherent t
    → IsCoherent (record (rename_session t id name) { attached_session = some id })
unfolding rename_session
rename_session-IsCoherent t id name c = record {
  wired = update_session-IsWired t id rename c.wired (λ x. refl) (λ x. refl) (λ x w h e. h w e);
  attached = λ k e. ground (arith, contains_key-update_session id k rename t.sessions);
}
  where
    rename : Session → Session
    rename s = record s { name = name }

pub rename_attached-IsCoherent :
    (t : TmuxTopology) (id : ℕ) (name : Bytes)
    → IsCoherent t
    → LeavesCoherent (rename_attached t id name)
unfolding rename_attached
rename_attached-IsCoherent t id name c = elim (Option-cases (find id t.sessions)) [
  | inl q ↦ rw (q, rename_attached) (require_resync-IsCoherent t c)
  | inr (x, q) ↦
      let x' : Session = record x { name = name } in
      rw (q, rename_attached)
        (coherent {t = t} (record t { sessions = insert id x' t.sessions })
          (insert_session-IsWired t id x' c.wired (c.wired.sessions_at id x q)
            (λ i. ground (arith, shown-some t.sessions id i x q)))
          (λ k h. ground (arith, contains_key-insert id k x' t.sessions)) refl c)
]

pub activate_window-IsCoherent :
    (t : TmuxTopology) (s w : ℕ) → IsCoherent t → IsCoherent (activate_window t s w)
unfolding activate_window
activate_window-IsCoherent t s w c =
    coherent {t = t} (activate_window t s w)
      (update_session-IsWired entered s activate
        (update_window-IsWired t w (λ x. x) c.wired (λ x. refl) (λ x. refl)) (λ x. refl) (λ x. refl)
        (λ x u h e. ground (arith, contains_key-update w (λ x. x) t.windows)))
      (λ k h. ground (arith, contains_key-update_session s k activate t.sessions)) refl c
  where
    entered : TmuxTopology
    entered = record t { windows = update_or_insert w (empty_window w) (λ x. x) t.windows }

    activate : Session → Session
    activate x = record x { active_window = some w }

-- One window is entered or changed, but for its links.
pub update_window-IsCoherent :
    (t : TmuxTopology) (w : ℕ) (change : Window → Window)
    → IsCoherent t
    → ((x : Window) → (change x).id ≡ x.id)
    → ((x : Window) → (change x).links ≡ x.links)
    → IsCoherent (record t { windows = update_or_insert w (empty_window w) change t.windows })
update_window-IsCoherent t w change c ids links =
    coherent {t = t} (record t { windows = update_or_insert w (empty_window w) change t.windows })
      (update_window-IsWired t w change c.wired ids links) (λ k h. h) refl c

pub activate_pane-IsCoherent :
    (t : TmuxTopology) (w p : ℕ) → IsCoherent t → IsCoherent (activate_pane t w p)
unfolding activate_pane
activate_pane-IsCoherent t w p c =
    coherent {t = t} (activate_pane t w p)
      (enter_pane-IsWired marked p w
        (update_window-IsWired t w mark c.wired (λ x. refl) (λ x. refl))
        (contains_key-update w mark t.windows))
      (λ k h. h) refl c
  where
    mark : Window → Window
    mark x = record x { active_pane = some p }

    marked : TmuxTopology
    marked = record t { windows = update_or_insert w (empty_window w) mark t.windows }

pub remove_pane-IsCoherent :
    (t : TmuxTopology) (p : ℕ) → IsCoherent t → IsCoherent (remove_pane t p)
unfolding remove_pane clear_active_pane
remove_pane-IsCoherent t p c =
    coherent {t = t} (remove_pane t p)
      (remove_pane-IsWired t p (clear_active_pane p) c.wired (λ x. refl) (λ x. refl)) (λ k h. h)
      refl c

pub remove_window-IsCoherent :
    (t : TmuxTopology) (w : ℕ) → IsCoherent t → IsCoherent (remove_window t w)
unfolding remove_window
remove_window-IsCoherent t w c =
    coherent {t = t} (remove_window t w) (remove_window-IsWired t w c.wired)
      (λ k h. rw (contains_key-map_values (unlink_session w) t.sessions k) h) refl c

unlink_in-covers :
    (w s k : ℕ) (sessions : List (ℕ × Session))
    → contains_key k sessions ≡ true
    → contains_key k (unlink_in w s sessions) ≡ true
unfolding unlink_in
unlink_in-covers w s k sessions h = elim (Option-cases (find s sessions)) [
  | inl q ↦ rw (q, unlink_in) h
  | inr (x, q) ↦
      rw (q, unlink_in) (ground (arith, contains_key-insert s k (unlink_session w x) sessions))
]

-- What `close_window` makes of the sessions and of the attached session.
close_window-keeps :
    (t : TmuxTopology) (s w : ℕ)
    → ((k : ℕ)
        → contains_key k t.sessions ≡ true
        → contains_key k (close_window t s w).sessions ≡ true)
      × ((close_window t s w).attached_session ≡ t.attached_session)
unfolding close_window remove_window
close_window-keeps t s w = elim (Option-cases (find w t.windows)) [
  | inl q ↦ rw (q, close_window) (unlinked, refl)
  | inr (x, q) ↦
      let linked_t : TmuxTopology = record t {
        sessions = unlink_in w s t.sessions;
        windows = insert w (unlink_window s x) t.windows;
      } in
      rw (q, close_window)
        (if_cases Keeps (is_empty (unlink_window s x).links) (remove_window linked_t w) linked_t
          (λ _. (
            λ k h.
                rw (contains_key-map_values (unlink_session w) (unlink_in w s t.sessions) k)
                  (unlinked k h),
            refl,
          ))
          (λ _. (unlinked, refl)))
]
  where
    Keeps : TmuxTopology → Type 0
    Keeps t' =
        ((k : ℕ) → contains_key k t.sessions ≡ true → contains_key k t'.sessions ≡ true)
        × (t'.attached_session ≡ t.attached_session)

    unlinked :
        (k : ℕ)
        → contains_key k t.sessions ≡ true
        → contains_key k (unlink_in w s t.sessions) ≡ true
    unlinked k h = unlink_in-covers w s k t.sessions h

pub close_window-IsCoherent :
    (t : TmuxTopology) (s w : ℕ) → IsCoherent t → IsCoherent (close_window t s w)
close_window-IsCoherent t s w c =
    let (covers, same) = close_window-keeps t s w in
    coherent {t = t} (close_window t s w) (close_window-IsWired t s w c.wired) covers same c
