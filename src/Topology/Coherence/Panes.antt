-- ===== src/Topology/Coherence/Panes.antt =====
-- Changes of the panes of a topology (src/tmux_model.rs) that keep its references.
use lector.Prelude.{ℕ, ◌≡◌, refl, ◌∙◌, true, Option, none, some, arith, Option-cases, inl, inr}
use lector.Topology.Maps.{nat_key, find, contains_key, insert, map_values, remove, update_or_insert}
use lector.Topology.Maps.Lookup.{
  IsDistinct-insert, IsDistinct-map_values, IsDistinct-remove, find-remove, find-map_values,
  contains_key-map_values,
}
use lector.Topology.Coherence.{Entries, linked, WindowAt, PaneAt, IsWired}
use lector.Topology.Coherence.Entries.{Entries-insert, Entries-map_values}
use lector.Topology.Coherence.Windows.{SessionAt-mono, PaneAt-mono}
use lector.Topology.Data.{link_key, Window, Pane, WindowLink, TmuxTopology, empty_pane}

-- A pane of a window that is there is put at its id.
pub insert_pane-IsWired :
    (t : TmuxTopology) (k : ℕ) (p : Pane)
    → IsWired t
    → PaneAt t.windows k p
    → IsWired (record t { panes = insert k p t.panes })
insert_pane-IsWired t k p v at = record {
  distinct_sessions = v.distinct_sessions;
  distinct_windows = v.distinct_windows;
  distinct_panes = IsDistinct-insert k p t.panes v.distinct_panes;
  sessions_at = v.sessions_at;
  windows_at = v.windows_at;
  panes_at = Entries-insert (PaneAt t.windows) k p t.panes at v.panes_at;
  links = v.links;
}

-- A missing pane is added to the window.
pub enter_pane-IsWired :
    (t : TmuxTopology) (k window_id : ℕ)
    → IsWired t
    → contains_key window_id t.windows ≡ true
    → IsWired (record t { panes = update_or_insert k (empty_pane k window_id) (λ p. p) t.panes })
unfolding update_or_insert
enter_pane-IsWired t k window_id v there = by_old (find k t.panes) refl
  where
    by_old :
        (old : Option Pane)
        → find k t.panes ≡ old
        → IsWired (record t {
          panes = elim old [
            | none ↦ insert k (empty_pane k window_id) t.panes
            | some p ↦ insert k p t.panes
          ];
        })
    by_old none q = insert_pane-IsWired t k (empty_pane k window_id) v (refl, there)
    by_old (some p) q = insert_pane-IsWired t k p v (v.panes_at k p q)

-- All windows change, but for their ids and links, and a pane goes.
pub remove_pane-IsWired :
    (t : TmuxTopology) (k : ℕ) (change : Window → Window)
    → IsWired t
    → ((x : Window) → (change x).id ≡ x.id)
    → ((x : Window) → (change x).links ≡ x.links)
    → IsWired (record t { windows = map_values change t.windows; panes = remove k t.panes })
remove_pane-IsWired t k change v ids links = record {
  distinct_sessions = v.distinct_sessions;
  distinct_windows = IsDistinct-map_values change t.windows v.distinct_windows;
  distinct_panes = IsDistinct-remove k t.panes v.distinct_panes;
  sessions_at = SessionAt-mono t.windows _ t.sessions covers v.sessions_at;
  windows_at =
      Entries-map_values WindowAt WindowAt change t.windows (λ j w e. ids w ∙ e) v.windows_at;
  panes_at = PaneAt-mono t.windows _ _ covers left;
  links = λ s i w. rw (unchanged w (record { session_id = s; index = i })) (v.links s i w);
}
  where
    covers :
        (w : ℕ)
        → contains_key w t.windows ≡ true
        → contains_key w (map_values change t.windows) ≡ true
    covers w h = rw (contains_key-map_values change t.windows w) h

    left : Entries (PaneAt t.windows) (remove k t.panes)
    left j p e = ground (arith, find-remove k t.panes v.distinct_panes j, v.panes_at j p)

    unchanged :
        (w : ℕ) (l : WindowLink) → linked (map_values change t.windows) w l ≡ linked t.windows w l
    unchanged w l = elim (Option-cases (find w t.windows)) [
      | inl q ↦ ground (arith, find-map_values change t.windows w)
      | inr (x, q) ↦ ground (arith, find-map_values change t.windows w, links x)
    ]
