-- ===== src/Hierarchy/Depth.antt =====
-- How deep a connection of src/tmux_lifecycle.rs is nested, and what `insert` keeps.
use lector.Prelude.{
  ℕ, zero, suc, ◌≤◌, ◌<◌, ◌≡◌, refl, ap, ◌∙◌, inl, inr, Bool, true, false, Option, none, some, [],
  ◌∷◌, arith, ltb, ◌==◌, ==→eq, if◌then◌else◌, if_cases, is_some, length, Bool-cases,
}
use lector.Hierarchy.Origins.{
  GatewayOrigin, direct, pane, LifecycleError, missing_parent, too_deep, Origins, find,
  contains_key, insert_entry,
}
use lector.Hierarchy.Connections.{check_ancestors}

-- `id` is reached from a direct connection over `n` connections, itself included.
pub data Rooted (origins : Origins) : ℕ → ℕ → Type 0 where
  at_root : {id : ℕ} → find origins id ≡ some direct → Rooted origins id 1
  below :
      {id parent session window pane_id n : ℕ}
      → find origins id ≡ some (pane parent session window pane_id)
      → Rooted origins parent n
      → Rooted origins id (suc n)

-- The loop over the ancestors accepts those, and only those, that are rooted within the bound.
pub check_ancestors-Rooted :
    (left : ℕ) (origins : Origins) (id : ℕ)
    → check_ancestors left origins id ≡ none
    → (n : ℕ) × Rooted origins id n × (n ≤ left)
unfolding check_ancestors
check_ancestors-Rooted zero origins id h = cc h
check_ancestors-Rooted (suc left) origins id h =
    from (find origins id) refl h (check_ancestors-Rooted left origins)
  where
    from :
        (o : Option GatewayOrigin)
        → find origins id ≡ o
        → (elim o as (λ _. Option LifecycleError) [
          | none ↦ some missing_parent
          | some direct ↦ none
          | some (pane parent _ _ _) ↦ check_ancestors left origins parent
        ])
          ≡ none
        → ((a : ℕ)
            → check_ancestors left origins a ≡ none
            → (n : ℕ) × Rooted origins a n × (n ≤ left))
        → (n : ℕ) × Rooted origins id n × (n ≤ suc left)
    from none e k ih = cc k
    from (some direct) e k ih = (1, at_root e, omega arith)
    from (some (pane parent s w p)) e k ih =
        let (n, r, b) = ih parent k in (suc n, below e r, omega arith)

pub Rooted-check_ancestors :
    (left n : ℕ) (origins : Origins) (id : ℕ)
    → Rooted origins id n
    → n ≤ left
    → check_ancestors left origins id ≡ none
unfolding check_ancestors
Rooted-check_ancestors zero n origins id (at_root e) b = absurd (omega arith)
Rooted-check_ancestors zero n origins id (below e r) b = absurd (omega arith)
Rooted-check_ancestors (suc left) n origins id (at_root e) b = rw (e, check_ancestors) refl
Rooted-check_ancestors (suc left) n origins id (below {n = m} e r) b =
    rw (e, check_ancestors) (Rooted-check_ancestors left m origins _ r (omega arith))

pub contains_key-find :
    (origins : Origins) (id : ℕ) → contains_key origins id ≡ is_some (find origins id)
contains_key-find [] id = refl
contains_key-find ((key, origin) ∷ rest) id =
    if_cases (λ (b : Bool). b ≡ is_some (if key == id then some origin else find rest id))
      (key == id) true (contains_key rest id) (λ e. rw e refl)
      (λ e. rw e (contains_key-find rest id))

pub both_absent : (b c : Bool) → (if b then true else c) ≡ false → (b ≡ false) × (c ≡ false)
both_absent true c h = cc h
both_absent false c h = (refl, h)

pub swapped :
    (b c : Bool) (u v w : Option GatewayOrigin)
    → (b ≡ true → c ≡ false)
    → (if b then u else if c then v else w) ≡ (if c then v else if b then u else w)
swapped true c u v w h = rw (h refl) refl
swapped false true u v w h = refl
swapped false false u v w h = refl

-- A new key is found, and nothing else changes.
pub find-insert_entry :
    (origins : Origins) (id x : ℕ) (origin : GatewayOrigin)
    → contains_key origins id ≡ false
    → find (insert_entry origins id origin) x ≡ (if id == x then some origin else find origins x)
find-insert_entry [] id x origin h = refl
find-insert_entry ((key, old) ∷ rest) id x origin h =
    let (other, absent) = both_absent (key == id) (contains_key rest id) h in
    if_cases
      (λ (os : Origins).
        find os x ≡ (if id == x then some origin else if key == x then some old else find rest x))
      (ltb id key) ((id, origin) ∷ (key, old) ∷ rest) ((key, old) ∷ insert_entry rest id origin)
      (λ _. refl)
      (λ _.
        ap (λ o. if key == x then some old else o) (find-insert_entry rest id x origin absent)
        ∙ swapped (key == x) (id == x) (some old) (some origin) (find rest x) (λ e. ground arith))

pub length-insert_entry :
    (origins : Origins) (id : ℕ) (origin : GatewayOrigin)
    → length (insert_entry origins id origin) ≡ suc (length origins)
length-insert_entry [] id origin = refl
length-insert_entry ((key, old) ∷ rest) id origin =
    if_cases (λ (os : Origins). length os ≡ suc (suc (length rest))) (ltb id key)
      ((id, origin) ∷ (key, old) ∷ rest) ((key, old) ∷ insert_entry rest id origin) (λ _. refl)
      (λ _. ap suc (length-insert_entry rest id origin))

pub found-ne :
    (origins : Origins) (id x : ℕ) (o : GatewayOrigin)
    → contains_key origins id ≡ false
    → find origins x ≡ some o
    → (id == x) ≡ false
found-ne origins id x o h e = elim (Bool-cases (id == x)) [
  | inl t ↦ cc (contains_key-find origins id, h, ap (find origins) (==→eq id x t), e, ap is_some e)
  | inr f ↦ f
]

find_before :
    (origins : Origins) (id x : ℕ) (origin o : GatewayOrigin)
    → contains_key origins id ≡ false
    → find origins x ≡ some o
    → find (insert_entry origins id origin) x ≡ some o
find_before origins id x origin o h e =
    find-insert_entry origins id x origin h ∙ rw (found-ne origins id x o h e) e

pub Rooted-insert_entry :
    (origins : Origins) (id : ℕ) (origin : GatewayOrigin) (x n : ℕ)
    → contains_key origins id ≡ false
    → Rooted origins x n
    → Rooted (insert_entry origins id origin) x n
Rooted-insert_entry origins id origin x n h (at_root e) =
    at_root (find_before origins id x origin _ h e)
Rooted-insert_entry origins id origin x n h (below e r) =
    below (find_before origins id x origin _ h e) (Rooted-insert_entry origins id origin _ _ h r)

pub Rooted-too_deep :
    (left n : ℕ) (origins : Origins) (id : ℕ)
    → Rooted origins id n
    → left < n
    → check_ancestors left origins id ≡ some too_deep
unfolding check_ancestors
Rooted-too_deep zero n origins id r b = refl
Rooted-too_deep (suc left) n origins id (at_root e) b = absurd (omega arith)
Rooted-too_deep (suc left) n origins id (below {n = m} e r) b =
    rw (e, check_ancestors) (Rooted-too_deep left m origins _ r (omega arith))
