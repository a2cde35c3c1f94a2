-- ===== src/Topology/Locations.antt =====
-- The location that a title shows, and what is left when a window closes (src/tmux_model.rs).
use lector.Prelude.{
  ap, ℕ, ◌≡◌, ◌≢◌, refl, ◌∙◌, ◌==◌, length, true, Option, none, some, List, [], ◌∷◌, arith,
  Option-cases, inl, inr, subst,
}
use lector.Topology.Maps.{nat_key, find, contains_key, retain}
use lector.Topology.Maps.Lookup.{IsDistinct, find-cons, contains_key-remove, contains_key-eq}
use lector.Topology.Coherence.{shown, linked, IsWired, IsCoherent}
use lector.Topology.Coherence.Sessions.{shown-some}
use lector.Topology.Coherence.Closing.{remove_window-IsWired}
use lector.Topology.Notifications.{remove_window}
use lector.Topology.Data.{link_key, WindowLink, Session, Window, Pane, TmuxLocation, TmuxTopology}
use lector.Topology.Queries.{index_of, pane_count, pane_index, location, attached_location}

-- The index that is found holds the window.
find-index_of :
    (w : ℕ) (windows : List (ℕ × ℕ)) (i : ℕ)
    → IsDistinct windows
    → index_of w windows ≡ some i
    → find i windows ≡ some w
unfolding index_of
find-index_of w [] i d e = cc
find-index_of w ((j, u) ∷ windows) i d e =
    ground (arith, e, find-cons j i u windows, find-index_of w windows i d.1)

-- The index of a pane that is there; none of a pane that is missing
abbrev pub IsPaneIndex : List (ℕ × Pane) → Option ℕ → Option ℕ → Type 0
IsPaneIndex panes none index = index ≡ none
IsPaneIndex panes (some p) index =
    ((x : Pane) → find p panes ≡ some x → index ≡ some x.index)
    × (find p panes ≡ none → index ≡ none)

-- The location is that of the active window of the attached session, and has the names of the session
-- and of the window. The session shows the window at the index, and the window has the link. The pane is
-- the window's active one, with its index, and all the panes of the window are counted.
pub record IsAt (t : TmuxTopology) (l : TmuxLocation) : Type 0 where
  pub session : Session
  pub window : Window
  pub attached : t.attached_session ≡ some l.session_id
  pub session_there : find l.session_id t.sessions ≡ some session
  pub session_named : session.name ≡ l.session_name
  pub active : session.active_window ≡ some l.window_id
  pub shows : find l.window_index session.windows ≡ some l.window_id
  pub window_there : find l.window_id t.windows ≡ some window
  pub window_named : window.name ≡ l.window_name
  pub has_link :
      contains_key (record { session_id = l.session_id; index = l.window_index }) window.links
      ≡ true
  pub active_pane : window.active_pane ≡ l.pane_id
  pub index : IsPaneIndex t.panes l.pane_id l.pane_index
  pub count : l.pane_count ≡ length (retain (λ _ x. x.window_id == l.window_id) t.panes)

pane_index-IsPaneIndex :
    (panes : List (ℕ × Pane)) (p : Option ℕ) → IsPaneIndex panes p (pane_index p panes)
unfolding pane_index
pane_index-IsPaneIndex panes none = refl
pane_index-IsPaneIndex panes (some p) = (λ x e. ground (arith, e), λ e. ground (arith, e))

pane_count-retain :
    (w : ℕ) (panes : List (ℕ × Pane))
    → pane_count w panes ≡ length (retain (λ _ x. x.window_id == w) panes)
unfolding pane_count retain
pane_count-retain w [] = refl
pane_count-retain w ((k, x) ∷ panes) = let h = pane_count-retain w panes in ground (arith, h)

linked-has_link :
    (t : TmuxTopology) (w : ℕ) (window : Window) (link : WindowLink)
    → find w t.windows ≡ some window
    → linked t.windows w link ≡ true
    → contains_key link window.links ≡ true
linked-has_link t w window link f h = ground (arith, f, h)

located_IsAt :
    (t : TmuxTopology) (session : Session) (w i : ℕ) (window : Window)
    → t.attached_session ≡ some session.id
    → find session.id t.sessions ≡ some session
    → session.active_window ≡ some w
    → find i session.windows ≡ some w
    → find w t.windows ≡ some window
    → contains_key (record { session_id = session.id; index = i }) window.links ≡ true
    → IsAt t (location t session w i window)
unfolding location
located_IsAt t session w i window q r a shows f link = record {
  session = session;
  window = window;
  attached = q;
  session_there = r;
  session_named = refl;
  active = a;
  shows = shows;
  window_there = f;
  window_named = refl;
  has_link = link;
  active_pane = refl;
  index = pane_index-IsPaneIndex t.panes window.active_pane;
  count = pane_count-retain w t.panes;
}

-- In a coherent topology the location that is shown is that of the active window of the attached
-- session, with the names of both. The session shows the window at the index, and the window has the
-- link. The pane is the window's active one, with its index if it is there, and the count is that of the
-- panes of the window.
pub attached_location-IsAt :
    (t : TmuxTopology) (l : TmuxLocation) → IsCoherent t → attached_location t ≡ some l → IsAt t l
unfolding attached_location
attached_location-IsAt t l c e = elim (Option-cases t.attached_session) [
  | inl q ↦ ground (arith, e, q)
  | inr (id, q) ↦ elim (Option-cases (find id t.sessions)) [
    | inl r ↦ ground (arith, e, q, r)
    | inr (session, r) ↦ elim (Option-cases session.active_window) [
      | inl a ↦ ground (arith, e, q, r, a)
      | inr (w, a) ↦ elim (Option-cases (index_of w session.windows)) [
        | inl n ↦ ground (arith, e, q, r, a, n)
        | inr (i, n) ↦ elim (Option-cases (find w t.windows)) [
          | inl f ↦ ground (arith, e, q, r, a, n, f)
          | inr (window, f) ↦
              let same : location t session w i window ≡ l = ground (arith, e, q, r, a, n, f) in
              subst (IsAt t) same (at id session w i window q r a n f)
        ]
      ]
    ]
  ]
]
  where
    at :
        (id : ℕ) (session : Session) (w i : ℕ) (window : Window)
        → t.attached_session ≡ some id
        → find id t.sessions ≡ some session
        → session.active_window ≡ some w
        → index_of w session.windows ≡ some i
        → find w t.windows ≡ some window
        → IsAt t (location t session w i window)
    at id session w i window q r a n f =
        let (same_id, distinct, _) = c.wired.sessions_at id session r in
        let shows = find-index_of w session.windows i distinct n in
        let shown_there : shown t.sessions session.id i ≡ some w =
          rw same_id (shown-some t.sessions id i session r ∙ shows) in
        located_IsAt t session w i window (rw same_id q) (ap (λ k. find k t.sessions) same_id ∙ r) a
          shows f
          (linked-has_link t w window (record { session_id = session.id; index = i }) f
            ((c.wired.links session.id i w).0 shown_there))

-- Nothing refers to the window.
pub record IsForgotten (t : TmuxTopology) (w : ℕ) : Type 0 where
  pub not_there : find w t.windows ≡ none
  pub not_shown : (s i : ℕ) → shown t.sessions s i ≢ some w
  pub not_active : (s : ℕ) (x : Session) → find s t.sessions ≡ some x → x.active_window ≢ some w
  pub no_pane : (p : ℕ) (x : Pane) → find p t.panes ≡ some x → x.window_id ≢ w

-- Removing a window from a coherent topology leaves no session, no active window and no pane that
-- refers to it.
pub remove_window-IsForgotten :
    (t : TmuxTopology) (w : ℕ) → IsCoherent t → IsForgotten (remove_window t w) w
unfolding remove_window
remove_window-IsForgotten t w c = record {
  not_there = gone;
  not_shown = λ s i e. ground (arith, v.links s i w, gone);
  not_active = λ s x q e.
      ground
        (arith, (v.sessions_at s x q).2 w, contains_key-eq w (remove_window t w).windows, gone);
  no_pane = λ p x q e.
      ground (arith, v.panes_at p x q, contains_key-eq w (remove_window t w).windows, gone);
}
  where
    v : IsWired (remove_window t w)
    v = remove_window-IsWired t w c.wired

    gone : find w (remove_window t w).windows ≡ none
    gone = ground (
      arith,
      contains_key-eq w (remove_window t w).windows,
      contains_key-remove w t.windows c.wired.distinct_windows w,
    )
