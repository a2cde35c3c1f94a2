-- ===== src/Topology/Coherence/Filling.antt =====
-- The records of an inventory (src/tmux_model.rs) keep the references of the topology.
use lector.Prelude.{
  ℕ, ◌≡◌, refl, sym, ◌∙◌, Bool, true, false, none, some, List, ◌||◌, ◌&&◌, arith, ◌==◌,
  Option-cases, if◌then◌else◌, inl, inr, subst,
}
use lector.Topology.Maps.{nat_key, find, contains_key, insert}
use lector.Topology.Maps.Lookup.{
  IsDistinct-insert, find-insert, contains_key-insert, contains_key-eq, contains_key-nil,
}
use lector.Topology.Coherence.{Entries, shown, linked, SessionAt, WindowAt, AreWired, IsWired}
use lector.Topology.Coherence.Entries.{Entries-insert}
use lector.Topology.Coherence.Sessions.{shown-some, shown-insert}
use lector.Topology.Coherence.Windows.{
  SessionAt-mono, PaneAt-mono, linked-insert, Covers-insert, insert_window-IsWired, linked-some,
  linked-none, Covers,
}
use lector.Topology.Coherence.Panes.{insert_pane-IsWired}
use lector.Topology.Text.{ok}
use lector.Topology.Data.{link_key, link_eq, Session, Window, Pane, WindowLink, TmuxTopology}
use lector.Topology.Records.{WindowRecord}
use lector.Topology.Inventory.{
  entered_pane, entered_window, fresh_window, link_session, link_window,
}

pub entered_links :
    (t : TmuxTopology) (r : WindowRecord) (l : WindowLink)
    → contains_key l (entered_window r t.windows).links ≡ linked t.windows r.window_id l
unfolding entered_window fresh_window
entered_links t r l = elim (Option-cases (find r.window_id t.windows)) [
  | inl q ↦
      rw (q, entered_window)
        (contains_key-nil (Unit {0}) l ∙ sym (linked-none t.windows r.window_id l q))
  | inr (x, q) ↦ rw (q, entered_window) (sym (linked-some t.windows r.window_id l x q))
]

pub entered_id :
    (t : TmuxTopology) (r : WindowRecord)
    → Entries WindowAt t.windows
    → (entered_window r t.windows).id ≡ r.window_id
unfolding entered_window fresh_window
entered_id t r h = elim (Option-cases (find r.window_id t.windows)) [
  | inl q ↦ rw (q, entered_window) refl
  | inr (x, q) ↦ rw (q, entered_window) (h r.window_id x q)
]

module _ (t : TmuxTopology) (r : WindowRecord) (x : Session) (y : Window) where
  abbrev link : ℕ → ℕ → WindowLink
  link s i = record { session_id = s; index = i }

  -- The session has the window, and the window the link.
  pub add_link-IsWired :
      IsWired t
      → find r.session_id t.sessions ≡ some x
      → contains_key r.index x.windows ≡ false
      → y.id ≡ r.window_id
      → ((l : WindowLink) → contains_key l y.links ≡ linked t.windows r.window_id l)
      → IsWired (record t {
        sessions = insert r.session_id (link_session r x) t.sessions;
        windows = insert r.window_id (link_window r y) t.windows;
      })
  unfolding link_session link_window link_eq
  add_link-IsWired v q free id links_of = record {
    distinct_sessions =
        IsDistinct-insert r.session_id (link_session r x) t.sessions v.distinct_sessions;
    distinct_windows = IsDistinct-insert r.window_id (link_window r y) t.windows v.distinct_windows;
    distinct_panes = v.distinct_panes;
    sessions_at =
        Entries-insert (SessionAt windows') r.session_id (link_session r x) t.sessions
          (at.0, IsDistinct-insert r.index r.window_id x.windows at.1, active)
          (SessionAt-mono t.windows windows' t.sessions covers v.sessions_at);
    windows_at = Entries-insert WindowAt r.window_id (link_window r y) t.windows id v.windows_at;
    panes_at = PaneAt-mono t.windows windows' t.panes covers v.panes_at;
    links = λ s i u. ground (
      arith,
      shown_as s i,
      linked_as u s i,
      links_of (link s i),
      v.links s i u,
      v.links r.session_id r.index u,
      shown-some t.sessions r.session_id i x q,
      free_at,
    );
  }
    where
      windows' : List (ℕ × Window)
      windows' = insert r.window_id (link_window r y) t.windows

      covers : Covers t.windows windows'
      covers = Covers-insert r.window_id (link_window r y) t.windows

      at : SessionAt t.windows r.session_id x
      at = v.sessions_at r.session_id x q

      active : (w : ℕ) → (link_session r x).active_window ≡ some w → contains_key w windows' ≡ true
      active w e =
          ground (arith, contains_key-insert r.window_id w (link_window r y) t.windows, at.2 w)

      free_at : find r.index x.windows ≡ none
      free_at = ground (arith, contains_key-eq r.index x.windows)

      shown_as :
          (s i : ℕ)
          → shown (insert r.session_id (link_session r x) t.sessions) s i ≡ (
              if r.session_id == s
              then (if r.index == i then some r.window_id else find i x.windows)
              else shown t.sessions s i)
      shown_as s i = ground (
        arith,
        shown-insert r.session_id (link_session r x) t.sessions s i,
        find-insert r.index i r.window_id x.windows,
      )

      linked_as :
          (u s i : ℕ)
          → linked windows' u (link s i) ≡ (
              if r.window_id == u
              then (r.session_id == s && r.index == i) || contains_key (link s i) y.links
              else linked t.windows u (link s i))
      linked_as u s i = ground (
        arith,
        linked-insert r.window_id (link_window r y) t.windows u (link s i),
        contains_key-insert (link r.session_id r.index) (link s i) tt y.links,
      )

module _ (t : TmuxTopology) (p : Pane) (active : Bool) (w : Window) where
  abbrev pub mark_active : Window
  mark_active = record w { active_pane = if active then some p.id else w.active_pane }

  marked : TmuxTopology
  marked = record t { windows = insert p.window_id mark_active t.windows }

  -- The pane is there, new or as it was, and its window may have it as the active one.
  pub add_pane-IsWired :
      IsWired t
      → find p.window_id t.windows ≡ some w
      → (panes : List (ℕ × Pane)) → entered_pane t.panes p ≡ ok panes
      → IsWired (record t { windows = insert p.window_id mark_active t.windows; panes = panes })
  unfolding marked entered_pane
  add_pane-IsWired v q panes entered = elim (Option-cases (find p.id t.panes)) [
    | inl q' ↦
        let same : insert p.id p t.panes ≡ panes = ground (arith, entered, q') in
        subst (AreWired t.sessions marked.windows) same
          (insert_pane-IsWired marked p.id p marked_wired (refl, there))
    | inr (old, q') ↦
        let same : t.panes ≡ panes = ground (arith, entered, q') in
        subst (AreWired t.sessions marked.windows) same marked_wired
  ]
    where
      marked_wired : IsWired marked
      marked_wired =
          insert_window-IsWired t p.window_id mark_active v (v.windows_at p.window_id w q)
            (λ l. sym (linked-some t.windows p.window_id l w q))

      there : contains_key p.window_id (insert p.window_id mark_active t.windows) ≡ true
      there = ground (arith, contains_key-insert p.window_id p.window_id mark_active t.windows)
