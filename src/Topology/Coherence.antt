-- ===== src/Topology/Coherence.antt =====
-- The references between the sessions, windows and panes of a topology (src/tmux_model.rs).
pub mod Entries
pub mod Sessions
pub mod Windows
pub mod Panes
pub mod Closing
pub mod Filling
pub mod Active
pub mod Lines
pub mod Replacement
pub mod Changes
pub mod Notified
use lector.Prelude.{ℕ, ◌≡◌, ◌↔◌, Bool, true, false, ◌==◌, Option, none, some, List}
use lector.Topology.Maps.{nat_key, find, contains_key}
use lector.Topology.Maps.Lookup.{IsDistinct}
use lector.Topology.Data.{link_key, Session, Window, Pane, WindowLink, TmuxTopology}

-- What stands at a key satisfies the predicate.
abbrev pub Entries : {V : Type 0} → (ℕ → V → Type 0) → List (ℕ × V) → Type 0
Entries {V} P m = (k : ℕ) (v : V) → find k m ≡ some v → P k v

-- The window at an index of a session.
abbrev pub shown : List (ℕ × Session) → ℕ → ℕ → Option ℕ
shown sessions s i = elim (find s sessions) [ none ↦ none | some x ↦ find i x.windows ]

-- The window is there and has the link.
abbrev pub linked : List (ℕ × Window) → ℕ → WindowLink → Bool
linked windows w link = elim (find w windows) [ none ↦ false | some x ↦ contains_key link x.links ]

-- A session stands under its id, and its active window is there.
abbrev pub SessionAt : List (ℕ × Window) → ℕ → Session → Type 0
SessionAt windows k s =
    (s.id ≡ k)
    × IsDistinct s.windows
    × ((w : ℕ) → s.active_window ≡ some w → contains_key w windows ≡ true)

abbrev pub WindowAt : ℕ → Window → Type 0
WindowAt k w = w.id ≡ k

-- A pane stands under its id, and its window is there.
abbrev pub PaneAt : List (ℕ × Window) → ℕ → Pane → Type 0
PaneAt windows k p = (p.id ≡ k) × (contains_key p.window_id windows ≡ true)

-- The sessions show a window at an index just when the window has the link.
abbrev pub AreLinked : List (ℕ × Session) → List (ℕ × Window) → Type 0
AreLinked sessions windows =
    (s i w : ℕ)
    → (shown sessions s i ≡ some w)
      ↔ (linked windows w (record { session_id = s; index = i }) ≡ true)

-- The references between the three maps.
pub record AreWired (sessions : List (ℕ × Session)) (windows : List (ℕ × Window))
    (panes : List (ℕ × Pane)) : Type 0 where
  pub distinct_sessions : IsDistinct sessions
  pub distinct_windows : IsDistinct windows
  pub distinct_panes : IsDistinct panes
  pub sessions_at : Entries (SessionAt windows) sessions
  pub windows_at : Entries WindowAt windows
  pub panes_at : Entries (PaneAt windows) panes
  pub links : AreLinked sessions windows

abbrev pub IsWired : TmuxTopology → Type 0
IsWired t = AreWired t.sessions t.windows t.panes

-- The pane is there, and is one of the window.
abbrev pub belongs : List (ℕ × Pane) → ℕ → ℕ → Bool
belongs panes p w = elim (find p panes) [ none ↦ false | some x ↦ x.window_id == w ]

-- The active pane of a window is one of its panes.
abbrev pub HaveActive : List (ℕ × Window) → List (ℕ × Pane) → Type 0
HaveActive windows panes =
    (w p : ℕ) (x : Window)
    → find w windows ≡ some x
    → x.active_pane ≡ some p
    → belongs panes p w ≡ true

-- The attached session is there too.
pub record IsCoherent (t : TmuxTopology) : Type 0 where
  pub wired : IsWired t
  pub attached : (id : ℕ) → t.attached_session ≡ some id → contains_key id t.sessions ≡ true
