-- ===== src/Topology/Coherence/Windows.antt =====
-- Changes of the windows of a topology (src/tmux_model.rs) that keep its references.
use lector.Prelude.{
  ℕ, ◌≡◌, refl, sym, ◌∙◌, true, false, Option, none, some, List, arith, ◌==◌, Option-cases,
  if◌then◌else◌, inl, inr,
}
use lector.Topology.Maps.{nat_key, find, contains_key, insert, update_or_insert}
use lector.Topology.Maps.Lookup.{
  IsDistinct-insert, find-insert, contains_key-insert, contains_key-nil,
}
use lector.Topology.Coherence.{Entries, linked, SessionAt, WindowAt, PaneAt, IsWired}
use lector.Topology.Coherence.Entries.{Entries-insert}
use lector.Topology.Data.{link_key, Session, Window, Pane, WindowLink, TmuxTopology, empty_window}

pub linked-insert :
    (k : ℕ) (x : Window) (windows : List (ℕ × Window)) (w : ℕ) (l : WindowLink)
    → linked (insert k x windows) w l
      ≡ (if k == w then contains_key l x.links else linked windows w l)
linked-insert k x windows w l = ground (arith, find-insert k w x windows)

pub linked-none :
    (windows : List (ℕ × Window)) (k : ℕ) (l : WindowLink)
    → find k windows ≡ none
    → linked windows k l ≡ false
linked-none windows k l q = ground arith

pub linked-some :
    (windows : List (ℕ × Window)) (k : ℕ) (l : WindowLink) (x : Window)
    → find k windows ≡ some x
    → linked windows k l ≡ contains_key l x.links
linked-some windows k l x q = ground arith

-- Every window of the one is there in the other.
abbrev pub Covers : List (ℕ × Window) → List (ℕ × Window) → Type 0
Covers windows windows' = (w : ℕ) → contains_key w windows ≡ true → contains_key w windows' ≡ true

pub SessionAt-mono :
    (windows windows' : List (ℕ × Window)) (sessions : List (ℕ × Session))
    → Covers windows windows'
    → Entries (SessionAt windows) sessions
    → Entries (SessionAt windows') sessions
SessionAt-mono windows windows' sessions c h k s e =
    let (id, distinct, active) = h k s e in (id, distinct, λ w a. c w (active w a))

pub PaneAt-mono :
    (windows windows' : List (ℕ × Window)) (panes : List (ℕ × Pane))
    → Covers windows windows'
    → Entries (PaneAt windows) panes
    → Entries (PaneAt windows') panes
PaneAt-mono windows windows' panes c h k p e =
    let (id, there) = h k p e in (id, c p.window_id there)

pub Covers-insert :
    (k : ℕ) (x : Window) (windows : List (ℕ × Window)) → Covers windows (insert k x windows)
Covers-insert k x windows w h = ground (arith, contains_key-insert k w x windows)

-- A window is put at an id, with the links that it has there.
pub insert_window-IsWired :
    (t : TmuxTopology) (k : ℕ) (x : Window)
    → IsWired t
    → x.id ≡ k
    → ((l : WindowLink) → contains_key l x.links ≡ linked t.windows k l)
    → IsWired (record t { windows = insert k x t.windows })
insert_window-IsWired t k x v at same = record {
  distinct_sessions = v.distinct_sessions;
  distinct_windows = IsDistinct-insert k x t.windows v.distinct_windows;
  distinct_panes = v.distinct_panes;
  sessions_at = SessionAt-mono t.windows _ t.sessions (Covers-insert k x t.windows) v.sessions_at;
  windows_at = Entries-insert WindowAt k x t.windows at v.windows_at;
  panes_at = PaneAt-mono t.windows _ t.panes (Covers-insert k x t.windows) v.panes_at;
  links = λ s i w. rw (unchanged w (record { session_id = s; index = i })) (v.links s i w);
}
  where
    unchanged : (w : ℕ) (l : WindowLink) → linked (insert k x t.windows) w l ≡ linked t.windows w l
    unchanged w l = ground (arith, linked-insert k x t.windows w l, same l)

-- A window changes, but for its id and links; a missing window is added.
pub update_window-IsWired :
    (t : TmuxTopology) (k : ℕ) (change : Window → Window)
    → IsWired t
    → ((x : Window) → (change x).id ≡ x.id)
    → ((x : Window) → (change x).links ≡ x.links)
    → IsWired (record t { windows = update_or_insert k (empty_window k) change t.windows })
unfolding update_or_insert
update_window-IsWired t k change v ids links = by_old (find k t.windows) refl
  where
    by_old :
        (old : Option Window)
        → find k t.windows ≡ old
        → IsWired (record t {
          windows = elim old [
            | none ↦ insert k (change (empty_window k)) t.windows
            | some x ↦ insert k (change x) t.windows
          ];
        })
    by_old none q =
        insert_window-IsWired t k (change (empty_window k)) v (ids (empty_window k)) (λ l.
          rw (links (empty_window k))
            (contains_key-nil (Unit {0}) l ∙ sym (linked-none t.windows k l q)))
    by_old (some x) q =
        insert_window-IsWired t k (change x) v (ids x ∙ v.windows_at k x q)
          (λ l. rw (links x) (sym (linked-some t.windows k l x q)))

-- It has the window then, and keeps the others.
pub Covers-update :
    (k : ℕ) (change : Window → Window) (windows : List (ℕ × Window))
    → Covers windows (update_or_insert k (empty_window k) change windows)
unfolding update_or_insert
Covers-update k change windows w h = elim (Option-cases (find k windows)) [
  | inl q ↦ rw (q, update_or_insert) (Covers-insert k (change (empty_window k)) windows w h)
  | inr (x, q) ↦ rw (q, update_or_insert) (Covers-insert k (change x) windows w h)
]

pub contains_key-update :
    (k : ℕ) (change : Window → Window) (windows : List (ℕ × Window))
    → contains_key k (update_or_insert k (empty_window k) change windows) ≡ true
unfolding update_or_insert
contains_key-update k change windows = elim (Option-cases (find k windows)) [
  | inl q ↦ rw (q, update_or_insert) (there (change (empty_window k)))
  | inr (x, q) ↦ rw (q, update_or_insert) (there (change x))
]
  where
    there : (x : Window) → contains_key k (insert k x windows) ≡ true
    there x = ground (arith, contains_key-insert k k x windows)
