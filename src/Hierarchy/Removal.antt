-- ===== src/Hierarchy/Removal.antt =====
-- What `remove_connection` of src/tmux_lifecycle.rs leaves.
use lector.Prelude.{
  ℕ, suc, ◌≤◌, ◌<◌, ◌≡◌, ◌↔◌, refl, sym, ap, subst, ◌∙◌, ◌⊎◌, inl, inr, false, Option, none, some,
  List, [], ◌∷◌, ◌++◌, arith, ◌==◌, ==→eq, ==_refl, ne→==, if◌then◌else◌, if_cases, Bool-cases, All,
  length,
}
use lector.Hierarchy.Origins.{GatewayOrigin, pane, Origins, find, remove_entry}
use lector.Hierarchy.Connections.{remove_all, remove_connection}
use lector.Hierarchy.Depth.{swapped, Rooted, at_root, below}
use lector.Hierarchy.Insertion.{IsOrdered, IsValid}
use lector.Hierarchy.Keys.{IsIn, IsIn-append, IsIn-cases}
use lector.Hierarchy.Descent.{ChildrenFirst, Descends, child, deeper, teardown_order-Descends}

above_absent :
    (key : ℕ) (rest : Origins)
    → All (λ (e : ℕ × GatewayOrigin). key < e.0) rest
    → find rest key ≡ none
above_absent key [] a = refl
above_absent key ((k, o) ∷ rest) a =
    let other : (k == key) ≡ false = ne→== k key (λ e. omega (arith, a.0, e)) in
    rw other (above_absent key rest a.1)

find-remove_entry :
    (origins : Origins) (id x : ℕ)
    → IsOrdered origins
    → find (remove_entry origins id) x ≡ (if id == x then none else find origins x)
find-remove_entry [] id x h =
    if_cases (λ (o : Option GatewayOrigin). none ≡ o) (id == x) none none (λ _. refl) (λ _. refl)
find-remove_entry ((key, origin) ∷ rest) id x h = elim (Bool-cases (key == id)) [
  | inl t ↦ rw t (
      if_cases (λ (o : Option GatewayOrigin). find rest x ≡ o) (id == x) none
        (if key == x then some origin else find rest x)
        (λ e.
          subst (λ y. find rest y ≡ none) (==→eq key id t ∙ ==→eq id x e)
            (above_absent key rest h.0))
        (λ e. rw (subst (λ y. (y == x) ≡ false) (sym (==→eq key id t)) e) refl))
  | inr f ↦ rw f (
      ap (λ o. if key == x then some origin else o) (find-remove_entry rest id x h.1)
      ∙ swapped (key == x) (id == x) (some origin) none (find rest x) (λ e. ground arith))
]

above-remove_entry :
    (key : ℕ) (origins : Origins) (id : ℕ)
    → All (λ (e : ℕ × GatewayOrigin). key < e.0) origins
    → All (λ (e : ℕ × GatewayOrigin). key < e.0) (remove_entry origins id)
above-remove_entry key [] id a = tt
above-remove_entry key ((k, o) ∷ rest) id a =
    if_cases (λ (os : Origins). All (λ (e : ℕ × GatewayOrigin). key < e.0) os) (k == id) rest
      ((k, o) ∷ remove_entry rest id) (λ _. a.1) (λ _. (a.0, above-remove_entry key rest id a.1))

remove_entry-IsOrdered :
    (origins : Origins) (id : ℕ) → IsOrdered origins → IsOrdered (remove_entry origins id)
remove_entry-IsOrdered [] id h = tt
remove_entry-IsOrdered ((k, o) ∷ rest) id h =
    if_cases IsOrdered (k == id) rest ((k, o) ∷ remove_entry rest id) (λ _. h.1)
      (λ _. (above-remove_entry k rest id h.0, remove_entry-IsOrdered rest id h.1))

length-remove_entry :
    (origins : Origins) (id : ℕ) → length (remove_entry origins id) ≤ length origins
length-remove_entry [] id = omega arith
length-remove_entry ((k, o) ∷ rest) id =
    if_cases (λ (os : Origins). length os ≤ suc (length rest)) (k == id) rest
      ((k, o) ∷ remove_entry rest id) (λ _. omega arith)
      (λ _. omega (arith, length-remove_entry rest id))

remove_all-IsOrdered :
    (origins : Origins) (ids : List ℕ) → IsOrdered origins → IsOrdered (remove_all origins ids)
remove_all-IsOrdered origins [] h = h
remove_all-IsOrdered origins (id ∷ ids) h =
    remove_all-IsOrdered (remove_entry origins id) ids (remove_entry-IsOrdered origins id h)

length-remove_all :
    (origins : Origins) (ids : List ℕ) → length (remove_all origins ids) ≤ length origins
length-remove_all origins [] = omega arith
length-remove_all origins (id ∷ ids) =
    omega (arith, length-remove_all (remove_entry origins id) ids, length-remove_entry origins id)

-- What is not removed stays, and what is removed is gone.
pub kept :
    (origins : Origins) (ids : List ℕ) (x : ℕ)
    → IsOrdered origins
    → (IsIn x ids → ⊥)
    → find (remove_all origins ids) x ≡ find origins x
kept origins [] x h out = refl
kept origins (id ∷ ids) x h out =
    kept (remove_entry origins id) ids x (remove_entry-IsOrdered origins id h) (λ i. out (inr i))
    ∙ find-remove_entry origins id x h
    ∙ rw (ne→== id x (λ e. out (inl (sym e)))) refl

stays_gone :
    (origins : Origins) (ids : List ℕ) (x : ℕ)
    → IsOrdered origins
    → find origins x ≡ none
    → find (remove_all origins ids) x ≡ none
stays_gone origins [] x h e = e
stays_gone origins (id ∷ ids) x h e =
    stays_gone (remove_entry origins id) ids x (remove_entry-IsOrdered origins id h) (
      find-remove_entry origins id x h
      ∙ if_cases (λ (o : Option GatewayOrigin). o ≡ none) (id == x) none (find origins x)
          (λ _. refl) (λ _. e))

pub gone :
    (origins : Origins) (ids : List ℕ) (x : ℕ)
    → IsOrdered origins
    → IsIn x ids
    → find (remove_all origins ids) x ≡ none
gone origins [] x h i = absurd i
gone origins (id ∷ ids) x h (inl e) =
    stays_gone (remove_entry origins id) ids x (remove_entry-IsOrdered origins id h)
      (find-remove_entry origins id x h ∙ rw (e, ==_refl id) refl)
gone origins (id ∷ ids) x h (inr i) =
    gone (remove_entry origins id) ids x (remove_entry-IsOrdered origins id h) i

-- The connections that are left do not depend on what is removed.
module _ (origins : Origins) (ids : List ℕ) (v : IsValid origins)
    (closed : (x p s w q : ℕ)
      → find origins x ≡ some (pane p s w q)
      → IsIn p ids
      → IsIn x ids) where
  Rooted-kept :
      (x n : ℕ) → (IsIn x ids → ⊥) → Rooted origins x n → Rooted (remove_all origins ids) x n
  Rooted-kept x n out (at_root e) = at_root (kept origins ids x v.ordered out ∙ e)
  Rooted-kept x n out (below {parent = p} {n = m} e r) =
      below (kept origins ids x v.ordered out ∙ e)
        (Rooted-kept p m (λ i. out (closed x p _ _ _ e i)) r)

  pub remove_all-IsValid :
      ((x : ℕ) → IsIn x ids ⊎ (IsIn x ids → ⊥)) → IsValid (remove_all origins ids)
  remove_all-IsValid decided = record {
    ordered = remove_all-IsOrdered origins ids v.ordered;
    is_bounded = omega (arith, length-remove_all origins ids, v.is_bounded);
    nested = λ x o e. elim (decided x) [
      | inl i ↦ cc (gone origins ids x v.ordered i, e)
      | inr out ↦
          let (n, r, b) = v.nested x o (sym (kept origins ids x v.ordered out) ∙ e) in
          (n, Rooted-kept x n out r, b)
    ];
  }

pub is_in : (x : ℕ) (ids : List ℕ) → IsIn x ids ⊎ (IsIn x ids → ⊥)
is_in x [] = inr (λ i. i)
is_in x (y ∷ ys) = elim (Bool-cases (x == y)) [
  | inl t ↦ inl (inl (==→eq x y t))
  | inr f ↦ elim (is_in x ys) [
    | inl i ↦ inl (inr i)
    | inr out ↦ inr (λ i. elim i [ inl e ↦ cc (ap (λ z. z == y) e, ==_refl y, f) | inr j ↦ out j ])
  ]
]

-- `id` or a connection that descends from it.
abbrev pub IsWithin : Origins → ℕ → ℕ → Type 0
IsWithin origins id x = x ≡ id ⊎ Descends origins id x

-- `remove_connection` of a connection of a valid hierarchy returns it and its descendants, all of them
-- and no others, each one behind all that descend from it; what it leaves is valid, holds none of
-- these, and holds every other connection as before.
pub remove_connection-IsValid :
    (origins : Origins) (id : ℕ) (o : GatewayOrigin)
    → IsValid origins
    → find origins id ≡ some o
    → (removed : List ℕ) × (origins' : Origins) × (remove_connection origins id
        ≡ some (removed, origins'))
      × ((x : ℕ) → IsIn x removed ↔ IsWithin origins id x)
      × ChildrenFirst origins [] removed
      × IsValid origins'
      × ((x : ℕ) → IsWithin origins id x → find origins' x ≡ none)
      × ((x : ℕ) → (IsWithin origins id x → ⊥) → find origins' x ≡ find origins x)
unfolding remove_connection
remove_connection-IsValid origins id o v e =
    let (ids, at, exactly, first) = teardown_order-Descends origins id o v e in
    let removed = ids ++ id ∷ [] in
    let inside : (x : ℕ) → IsWithin origins id x → IsIn x removed = λ x h.
      IsIn-append x ids (id ∷ [])
        (elim h [ inl q ↦ inr (inl q) | inr d ↦ inl ((exactly x).1 d) ]) in
    let within : (x : ℕ) → IsIn x removed → IsWithin origins id x = λ x i.
      elim (IsIn-cases x ids (id ∷ []) i) [
        | inl j ↦ inr ((exactly x).0 j)
        | inr (inl q) ↦ inl q
        | inr (inr j) ↦ absurd j
      ] in
    let closed : (x p s w q : ℕ)
        → find origins x ≡ some (pane p s w q)
        → IsIn p removed
        → IsIn x removed =
      λ x p s w q f i. inside x (
        inr (elim (within p i) [
          | inl same ↦ child (subst (λ y. find origins x ≡ some (pane y s w q)) same f)
          | inr d ↦ deeper f d
        ])) in
    (
      removed,
      remove_all origins removed,
      rw (at, remove_connection) refl,
      (λ x. (within x, inside x)),
      first,
      remove_all-IsValid origins removed v closed (λ x. is_in x removed),
      (λ x h. gone origins removed x v.ordered (inside x h)),
      (λ x out. kept origins removed x v.ordered (λ i. out (within x i))),
    )
