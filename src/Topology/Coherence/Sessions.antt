-- ===== src/Topology/Coherence/Sessions.antt =====
-- Changes of the sessions of a topology (src/tmux_model.rs) that keep its references.
use lector.Prelude.{
  ℕ, ◌≡◌, refl, sym, ◌∙◌, true, Option, none, some, List, arith, ◌==◌, if◌then◌else◌,
}
use lector.Topology.Maps.{nat_key, find, contains_key, insert, update_or_insert}
use lector.Topology.Maps.Lookup.{IsDistinct-insert, find-insert, find-nil}
use lector.Topology.Coherence.{shown, SessionAt, IsWired}
use lector.Topology.Coherence.Entries.{Entries-insert}
use lector.Topology.Data.{link_key, Session, TmuxTopology, empty_session}

pub shown-insert :
    (k : ℕ) (x : Session) (sessions : List (ℕ × Session)) (s i : ℕ)
    → shown (insert k x sessions) s i ≡ (if k == s then find i x.windows else shown sessions s i)
shown-insert k x sessions s i = ground (arith, find-insert k s x sessions)

pub shown-none :
    (sessions : List (ℕ × Session)) (k i : ℕ) → find k sessions ≡ none → shown sessions k i ≡ none
shown-none sessions k i q = ground arith

pub shown-some :
    (sessions : List (ℕ × Session)) (k i : ℕ) (x : Session)
    → find k sessions ≡ some x
    → shown sessions k i ≡ find i x.windows
shown-some sessions k i x q = ground arith

-- A session is put at an id, with the windows that are shown there.
pub insert_session-IsWired :
    (t : TmuxTopology) (k : ℕ) (x : Session)
    → IsWired t
    → SessionAt t.windows k x
    → ((i : ℕ) → find i x.windows ≡ shown t.sessions k i)
    → IsWired (record t { sessions = insert k x t.sessions })
insert_session-IsWired t k x v at same = record {
  distinct_sessions = IsDistinct-insert k x t.sessions v.distinct_sessions;
  distinct_windows = v.distinct_windows;
  distinct_panes = v.distinct_panes;
  sessions_at = Entries-insert (SessionAt t.windows) k x t.sessions at v.sessions_at;
  windows_at = v.windows_at;
  panes_at = v.panes_at;
  links = λ s i w. rw (unchanged s i) (v.links s i w);
}
  where
    unchanged : (s i : ℕ) → shown (insert k x t.sessions) s i ≡ shown t.sessions s i
    unchanged s i = ground (arith, shown-insert k x t.sessions s i, same i)

-- The name or the active window of a session changes; a missing session is added.
pub update_session-IsWired :
    (t : TmuxTopology) (k : ℕ) (change : Session → Session)
    → IsWired t
    → ((x : Session) → (change x).id ≡ x.id)
    → ((x : Session) → (change x).windows ≡ x.windows)
    → ((x : Session) (w : ℕ)
        → ((u : ℕ) → x.active_window ≡ some u → contains_key u t.windows ≡ true)
        → (change x).active_window ≡ some w
        → contains_key w t.windows ≡ true)
    → IsWired (record t { sessions = update_or_insert k (empty_session k) change t.sessions })
unfolding update_or_insert
update_session-IsWired t k change v ids windows active = by_old (find k t.sessions) refl
  where
    by_old :
        (old : Option Session)
        → find k t.sessions ≡ old
        → IsWired (record t {
          sessions = elim old [
            | none ↦ insert k (change (empty_session k)) t.sessions
            | some x ↦ insert k (change x) t.sessions
          ];
        })
    by_old none q =
        insert_session-IsWired t k (change (empty_session k)) v
          (
            ids (empty_session k),
            rw (windows (empty_session k)) tt,
            λ w. active (empty_session k) w (λ u e. cc e),
          )
          (λ i. rw (windows (empty_session k)) (find-nil i ∙ sym (shown-none t.sessions k i q)))
    by_old (some x) q =
        let at : SessionAt t.windows k x = v.sessions_at k x q in
        insert_session-IsWired t k (change x) v
          (ids x ∙ at.0, rw (windows x) at.1, λ w. active x w at.2)
          (λ i. rw (windows x) (sym (shown-some t.sessions k i x q)))
