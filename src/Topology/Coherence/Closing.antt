-- ===== src/Topology/Coherence/Closing.antt =====
-- The removal of windows from a topology (src/tmux_model.rs) keeps its references.
use lector.Prelude.{
  ℕ, ◌≡◌, refl, true, false, not, Option, none, some, List, ◌&&◌, arith, ◌==◌, Option-cases,
  if◌then◌else◌, inl, inr, is_empty, if_cases,
}
use lector.Topology.Maps.{nat_key, find, contains_key, insert, map_values, remove}
use lector.Topology.Maps.Lookup.{
  IsDistinct, IsDistinct-insert, IsDistinct-map_values, IsDistinct-remove, IsDistinct-retain,
  find-remove, find-map_values, contains_key-remove, contains_key-retain, find-retain,
}
use lector.Topology.Coherence.{Entries, shown, linked, SessionAt, WindowAt, PaneAt, IsWired}
use lector.Topology.Coherence.Entries.{Entries-insert, Entries-map_values, Entries-retain}
use lector.Topology.Coherence.Windows.{SessionAt-mono, PaneAt-mono, linked-insert, Covers-insert}
use lector.Topology.Coherence.Sessions.{shown-insert}
use lector.Topology.Notifications.{
  clear_active, unlink_session, remove_window, unlink_in, unlink_window, close_window,
}
use lector.Topology.Data.{link_key, Session, Window, Pane, WindowLink, TmuxTopology}

-- What is left of a reference when an id goes.
abbrev without : ℕ → Option ℕ → Option ℕ
without w none = none
without w (some u) = if not (u == w) then some u else none

clear_active-eq-without : (w : ℕ) (o : Option ℕ) → clear_active w o ≡ without w o
unfolding clear_active
clear_active-eq-without w none = refl
clear_active-eq-without w (some u) = ground arith

find-unlink :
    (w : ℕ) (x : Session) (i : ℕ)
    → IsDistinct x.windows
    → find i (unlink_session w x).windows ≡ without w (find i x.windows)
unfolding unlink_session
find-unlink w x i d = ground (arith, find-retain (λ (j id : ℕ). not (id == w)) x.windows d i)

-- A session without a window, among windows that still have all but that one.
unlink-SessionAt :
    (windows windows' : List (ℕ × Window)) (w k : ℕ) (x : Session)
    → ((u : ℕ) → (u == w) ≡ false → contains_key u windows ≡ true → contains_key u windows' ≡ true)
    → SessionAt windows k x
    → SessionAt windows' k (unlink_session w x)
unfolding unlink_session
unlink-SessionAt windows windows' w k x covers (id, distinct, active) = (
  id,
  IsDistinct-retain (λ (j id : ℕ). not (id == w)) x.windows distinct,
  λ u e. ground (arith, clear_active-eq-without w x.active_window, active u, covers u),
)

shown-unlink_all :
    (w : ℕ) (windows : List (ℕ × Window)) (sessions : List (ℕ × Session)) (s i : ℕ)
    → Entries (SessionAt windows) sessions
    → shown (map_values (unlink_session w) sessions) s i ≡ without w (shown sessions s i)
shown-unlink_all w windows sessions s i h = elim (Option-cases (find s sessions)) [
  | inl q ↦ ground (arith, find-map_values (unlink_session w) sessions s)
  | inr (x, q) ↦
      ground (arith, find-map_values (unlink_session w) sessions s, find-unlink w x i (h s x q).1)
]

linked-remove :
    (w : ℕ) (windows : List (ℕ × Window)) (u : ℕ) (l : WindowLink)
    → IsDistinct windows
    → linked (remove w windows) u l ≡ (if w == u then false else linked windows u l)
linked-remove w windows u l d = ground (arith, find-remove w windows d u)

pub remove_window-IsWired : (t : TmuxTopology) (w : ℕ) → IsWired t → IsWired (remove_window t w)
unfolding remove_window
remove_window-IsWired t w v = record {
  distinct_sessions = IsDistinct-map_values (unlink_session w) t.sessions v.distinct_sessions;
  distinct_windows = IsDistinct-remove w t.windows v.distinct_windows;
  distinct_panes =
      IsDistinct-retain (λ (_ : ℕ) (p : Pane). not (p.window_id == w)) t.panes v.distinct_panes;
  sessions_at =
      Entries-map_values (SessionAt t.windows) (SessionAt (remove w t.windows)) (unlink_session w)
        t.sessions (λ k x at. unlink-SessionAt t.windows (remove w t.windows) w k x covers at)
        v.sessions_at;
  windows_at =
      λ k x e. ground (arith, find-remove w t.windows v.distinct_windows k, v.windows_at k x);
  panes_at = λ k p e.
      let (at, other) =
        Entries-retain (PaneAt t.windows) (λ (_ : ℕ) (p : Pane). not (p.window_id == w)) t.panes
          v.distinct_panes v.panes_at k p e in
      (at.0, covers p.window_id (ground arith) at.1);
  links = λ s i u. ground (
    arith,
    shown-unlink_all w t.windows t.sessions s i v.sessions_at,
    linked-remove w t.windows u (record { session_id = s; index = i }) v.distinct_windows,
    v.links s i u,
  );
}
  where
    covers :
        (u : ℕ)
        → (u == w) ≡ false
        → contains_key u t.windows ≡ true
        → contains_key u (remove w t.windows) ≡ true
    covers u ne h = ground (arith, contains_key-remove w t.windows v.distinct_windows u)

shown-unlink_in :
    (w k : ℕ) (windows : List (ℕ × Window)) (sessions : List (ℕ × Session)) (s i : ℕ)
    → Entries (SessionAt windows) sessions
    → shown (unlink_in w k sessions) s i
      ≡ (if k == s then without w (shown sessions s i) else shown sessions s i)
unfolding unlink_in
shown-unlink_in w k windows sessions s i h = elim (Option-cases (find k sessions)) [
  | inl q ↦ ground arith
  | inr (x, q) ↦
      ground
        (arith, shown-insert k (unlink_session w x) sessions s i, find-unlink w x i (h k x q).1)
]

linked-unlink :
    (w k : ℕ) (x : Window) (windows : List (ℕ × Window)) (u s i : ℕ)
    → find w windows ≡ some x
    → linked (insert w (unlink_window k x) windows) u (record { session_id = s; index = i })
      ≡ (linked windows u (record { session_id = s; index = i }) && not ((w == u) && (s == k)))
unfolding unlink_window
linked-unlink w k x windows u s i q = ground (
  arith,
  linked-insert w (unlink_window k x) windows u l,
  contains_key-retain (λ (link : WindowLink). not (link.session_id == k)) x.links l,
)
  where
    l : WindowLink
    l = record { session_id = s; index = i }

-- A session without a window, the window being there or not.
unlink_in-SessionAt :
    (windows windows' : List (ℕ × Window)) (w k : ℕ) (sessions : List (ℕ × Session))
    → ((u : ℕ) → contains_key u windows ≡ true → contains_key u windows' ≡ true)
    → Entries (SessionAt windows) sessions
    → Entries (SessionAt windows') (unlink_in w k sessions)
unfolding unlink_in
unlink_in-SessionAt windows windows' w k sessions covers h = elim (Option-cases (find k sessions)) [
  | inl q ↦ rw (q, unlink_in) (SessionAt-mono windows windows' sessions covers h)
  | inr (x, q) ↦
      rw (q, unlink_in)
        (Entries-insert (SessionAt windows') k (unlink_session w x) sessions
          (unlink-SessionAt windows windows' w k x (λ u _. covers u) (h k x q))
          (SessionAt-mono windows windows' sessions covers h))
]

IsDistinct-unlink_in :
    (w k : ℕ) (sessions : List (ℕ × Session))
    → IsDistinct sessions
    → IsDistinct (unlink_in w k sessions)
unfolding unlink_in
IsDistinct-unlink_in w k sessions d = elim (Option-cases (find k sessions)) [
  | inl q ↦ rw (q, unlink_in) d
  | inr (x, q) ↦ rw (q, unlink_in) (IsDistinct-insert k (unlink_session w x) sessions d)
]

-- The window goes from the session, and the session's links from the window.
unlink-IsWired :
    (t : TmuxTopology) (k w : ℕ) (x : Window)
    → IsWired t
    → find w t.windows ≡ some x
    → IsWired (record t {
      sessions = unlink_in w k t.sessions;
      windows = insert w (unlink_window k x) t.windows;
    })
unfolding unlink_window
unlink-IsWired t k w x v q = record {
  distinct_sessions = IsDistinct-unlink_in w k t.sessions v.distinct_sessions;
  distinct_windows = IsDistinct-insert w (unlink_window k x) t.windows v.distinct_windows;
  distinct_panes = v.distinct_panes;
  sessions_at = unlink_in-SessionAt t.windows _ w k t.sessions covers v.sessions_at;
  windows_at = Entries-insert WindowAt w (unlink_window k x) t.windows same_id v.windows_at;
  panes_at = PaneAt-mono t.windows _ t.panes covers v.panes_at;
  links = λ s i u. ground (
    arith,
    shown-unlink_in w k t.windows t.sessions s i v.sessions_at,
    linked-unlink w k x t.windows u s i q,
    v.links s i u,
  );
}
  where
    covers :
        (u : ℕ)
        → contains_key u t.windows ≡ true
        → contains_key u (insert w (unlink_window k x) t.windows) ≡ true
    covers = Covers-insert w (unlink_window k x) t.windows

    same_id : (unlink_window k x).id ≡ w
    same_id = v.windows_at w x q

-- A window that is not there is in no session.
unlink_missing-IsWired :
    (t : TmuxTopology) (k w : ℕ)
    → IsWired t
    → find w t.windows ≡ none
    → IsWired (record t { sessions = unlink_in w k t.sessions })
unlink_missing-IsWired t k w v q = record {
  distinct_sessions = IsDistinct-unlink_in w k t.sessions v.distinct_sessions;
  distinct_windows = v.distinct_windows;
  distinct_panes = v.distinct_panes;
  sessions_at = unlink_in-SessionAt t.windows t.windows w k t.sessions (λ u h. h) v.sessions_at;
  windows_at = v.windows_at;
  panes_at = v.panes_at;
  links = λ s i u. ground (
    arith,
    shown-unlink_in w k t.windows t.sessions s i v.sessions_at,
    v.links s i u,
    v.links s i w,
  );
}

pub close_window-IsWired : (t : TmuxTopology) (k w : ℕ) → IsWired t → IsWired (close_window t k w)
unfolding close_window
close_window-IsWired t k w v = elim (Option-cases (find w t.windows)) [
  | inl q ↦ rw (q, close_window) (unlink_missing-IsWired t k w v q)
  | inr (x, q) ↦
      let linked_t : TmuxTopology = record t {
        sessions = unlink_in w k t.sessions;
        windows = insert w (unlink_window k x) t.windows;
      } in
      let kept : IsWired linked_t = unlink-IsWired t k w x v q in
      rw (q, close_window)
        (if_cases IsWired (is_empty (unlink_window k x).links) (remove_window linked_t w) linked_t
          (λ _. remove_window-IsWired linked_t w kept) (λ _. kept))
]
