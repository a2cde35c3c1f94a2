-- ===== src/Hierarchy/Descent.antt =====
-- What `collect_descendants` of src/tmux_lifecycle.rs collects.
use lector.Prelude.{
  ℕ, zero, suc, ◌+◌, ◌≤◌, ◌<◌, ◌≡◌, ◌↔◌, is_some, refl, sym, ap, subst, ◌∙◌, ◌⊎◌, inl, inr, true,
  Option, some, List, [], ◌∷◌, ◌++◌, arith, ==→eq, ==_refl, All,
}
use lector.Hierarchy.Origins.{
  max_connection_depth, GatewayOrigin, direct, pane, Origins, find, contains_key,
}
use lector.Hierarchy.Connections.{
  descendants, is_child_of, children, each_child, collect_descendants, teardown_order,
}
use lector.Hierarchy.Keys.{
  IsIn, IsIn-append, IsIn-cases, Has, keys_where-Has, IsIn-keys_where, member,
}
use lector.Hierarchy.Depth.{contains_key-find, Rooted, at_root, below}
use lector.Hierarchy.Insertion.{IsValid}

-- `id` is transported through a connection that is `a`, or descends from it.
pub data Descends (origins : Origins) (a : ℕ) : ℕ → Type 0 where
  child :
      {id session window pane_id : ℕ}
      → find origins id ≡ some (pane a session window pane_id)
      → Descends origins a id
  deeper :
      {id parent session window pane_id : ℕ}
      → find origins id ≡ some (pane parent session window pane_id)
      → Descends origins a parent
      → Descends origins a id

Descends-trans :
    (origins : Origins) (a b x : ℕ)
    → Descends origins a b
    → Descends origins b x
    → Descends origins a x
Descends-trans origins a b x h (child e) = deeper e h
Descends-trans origins a b x h (deeper e k) = deeper e (Descends-trans origins a b _ h k)

-- `x` is `c` or descends from it.
abbrev Reaches : Origins → ℕ → ℕ → Type 0
Reaches origins c x = x ≡ c ⊎ Descends origins c x

below-Reaches :
    (origins : Origins) (c p x s w q : ℕ)
    → find origins x ≡ some (pane p s w q)
    → Reaches origins c p
    → Descends origins c x
below-Reaches origins c p x s w q e (inl same) =
    child (subst (λ y. find origins x ≡ some (pane y s w q)) same e)
below-Reaches origins c p x s w q e (inr d) = deeper e d

child-Reaches :
    (origins : Origins) (a x : ℕ)
    → Descends origins a x
    → (c : ℕ) × Has (is_child_of a) origins c × Reaches origins c x
child-Reaches origins a x (child e) = (x, (pane a _ _ _, e, ==_refl a), inl refl)
child-Reaches origins a x (deeper {parent = p} e k) =
    let (c, h, r) = child-Reaches origins a p k in
    (c, h, inr (below-Reaches origins c p x _ _ _ e r))

Has-child : (origins : Origins) (a c : ℕ) → Has (is_child_of a) origins c → Descends origins a c
Has-child origins a c (direct, e, t) = cc t
Has-child origins a c (pane p s w q, e, t) =
    child (subst (λ y. find origins c ≡ some (pane y s w q)) (==→eq p a t) e)

-- In the list, behind the ids `seen`, each id comes after all that descend from it.
abbrev pub ChildrenFirst : Origins → List ℕ → List ℕ → Type 0
ChildrenFirst origins seen [] = Unit
ChildrenFirst origins seen (y ∷ ys) =
    ((x : ℕ) → Descends origins y x → IsIn x seen) × ChildrenFirst origins (y ∷ seen) ys

abbrev behind : List ℕ → List ℕ → List ℕ
behind seen [] = seen
behind seen (x ∷ xs) = behind (x ∷ seen) xs

IsIn-behind : (x : ℕ) (seen xs : List ℕ) → IsIn x seen ⊎ IsIn x xs → IsIn x (behind seen xs)
IsIn-behind x seen [] (inl h) = h
IsIn-behind x seen [] (inr h) = absurd h
IsIn-behind x seen (y ∷ ys) (inl h) = IsIn-behind x (y ∷ seen) ys (inl (inr h))
IsIn-behind x seen (y ∷ ys) (inr (inl e)) = IsIn-behind x (y ∷ seen) ys (inl (inl e))
IsIn-behind x seen (y ∷ ys) (inr (inr h)) = IsIn-behind x (y ∷ seen) ys (inr h)

ChildrenFirst-append :
    (origins : Origins) (seen xs ys : List ℕ)
    → ChildrenFirst origins seen xs
    → ChildrenFirst origins (behind seen xs) ys
    → ChildrenFirst origins seen (xs ++ ys)
ChildrenFirst-append origins seen [] ys h k = k
ChildrenFirst-append origins seen (x ∷ xs) ys h k =
    (h.0, ChildrenFirst-append origins (x ∷ seen) xs ys h.1 k)

-- The ids that are collected for `a` are the descendants of `a`.
pub record Collects (origins : Origins) (a : ℕ) (o : Option (List ℕ)) : Type 0 where
  pub collected : List ℕ
  pub succeeds : o ≡ some collected
  pub only : (x : ℕ) → IsIn x collected → Descends origins a x
  pub every : (x : ℕ) → Descends origins a x → IsIn x collected
  pub children_first : (seen : List ℕ) → ChildrenFirst origins seen collected

record CollectsEach (origins : Origins) (cs : List ℕ) (o : Option (List ℕ)) : Type 0 where
  pub collected : List ℕ
  pub succeeds : o ≡ some collected
  pub only : (x : ℕ) → IsIn x collected → (c : ℕ) × IsIn c cs × Reaches origins c x
  pub every : (x c : ℕ) → IsIn c cs → Reaches origins c x → IsIn x collected
  pub children_first : (seen : List ℕ) → ChildrenFirst origins seen collected

each_child-CollectsEach :
    (origins : Origins) (collect : ℕ → Option (List ℕ)) (cs : List ℕ)
    → ((c : ℕ) → IsIn c cs → Collects origins c (collect c))
    → CollectsEach origins cs (each_child collect cs)
each_child-CollectsEach origins collect [] h = record {
  collected = [];
  succeeds = refl;
  only = λ x i. absurd i;
  every = λ x c i. absurd i;
  children_first = λ seen. tt;
}
each_child-CollectsEach origins collect (c ∷ cs) h =
    let here = h c (inl refl) in
    let later = each_child-CollectsEach origins collect cs (λ d i. h d (inr i)) in
    record {
      collected = (here.collected ++ c ∷ []) ++ later.collected;
      succeeds = rw (here.succeeds, later.succeeds) refl;
      only = λ x i. elim (IsIn-cases x (here.collected ++ c ∷ []) later.collected i) [
        | inl j ↦ (
          c,
          inl refl,
          elim (IsIn-cases x here.collected (c ∷ []) j) [
            | inl k ↦ inr (here.only x k)
            | inr (inl e) ↦ inl e
            | inr (inr k) ↦ absurd k
          ],
        )
        | inr j ↦ let (d, m, r) = later.only x j in (d, inr m, r)
      ];
      every = λ x d i r. elim i [
        | inl e ↦ IsIn-append x (here.collected ++ c ∷ []) later.collected (
            inl (
              IsIn-append x here.collected (c ∷ []) (elim r [
                | inl q ↦ inr (inl (q ∙ e))
                | inr q ↦ inl (here.every x (subst (λ y. Descends origins y x) e q))
              ])))
        | inr m ↦
            IsIn-append x (here.collected ++ c ∷ []) later.collected (inr (later.every x d m r))
      ];
      children_first = λ seen.
          let own = here.collected ++ c ∷ [] in
          ChildrenFirst-append origins seen own later.collected
            (ChildrenFirst-append origins seen here.collected (c ∷ []) (here.children_first seen)
              ((λ x d. IsIn-behind x seen here.collected (inr (here.every x d))), tt))
            (later.children_first (behind seen own));
    }

Rooted-unique : (origins : Origins) (id n m : ℕ) → Rooted origins id n → Rooted origins id m → n ≡ m
Rooted-unique origins id n m (at_root e) (at_root e') = refl
Rooted-unique origins id n m (at_root e) (below e' r) = cc (e, e')
Rooted-unique origins id n m (below e r) (at_root e') = cc (e, e')
Rooted-unique origins id n m (below {parent = p} {n = k} e r) (below {parent = p'} {n = k'} e' r') =
    let same : p' ≡ p = cc (e, e') in
    ap suc (Rooted-unique origins p k k' r (subst (λ y. Rooted origins y k') same r'))

child-Rooted :
    (origins : Origins) (a n c : ℕ)
    → Rooted origins a n
    → Has (is_child_of a) origins c
    → Rooted origins c (suc n)
child-Rooted origins a n c r (direct, e, t) = cc t
child-Rooted origins a n c r (pane p s w q, e, t) =
    below e (subst (λ y. Rooted origins y n) (sym (==→eq p a t)) r)

collect_descendants-Collects :
    (origins : Origins) (fuel a n : ℕ)
    → IsValid origins
    → Rooted origins a n
    → n ≤ max_connection_depth
    → max_connection_depth < fuel + n
    → Collects origins a (collect_descendants fuel origins a)
unfolding collect_descendants
collect_descendants-Collects origins zero a n v r b f = absurd (omega arith)
collect_descendants-Collects origins (suc fuel) a n v r b f =
    let found : All (Has (is_child_of a) origins) (children origins a) =
      keys_where-Has (is_child_of a) origins v.ordered in
    let each =
      each_child-CollectsEach origins (collect_descendants fuel origins) (children origins a)
        (λ c i.
          let h = member (Has (is_child_of a) origins) (children origins a) c found i in
          let r' = child-Rooted origins a n c r h in
          let (m, rm, bm) = v.nested c h.0 h.1 in
          let same : m ≡ suc n = Rooted-unique origins c m (suc n) rm r' in
          collect_descendants-Collects origins fuel c (suc n) v r' (omega (arith, same, bm))
            (omega arith)) in
    record {
      collected = each.collected;
      succeeds = each.succeeds;
      only = λ x i.
          let (c, m, reach) = each.only x i in
          let d =
            Has-child origins a c
              (member (Has (is_child_of a) origins) (children origins a) c found m) in
          elim reach [
            | inl e ↦ subst (Descends origins a) (sym e) d
            | inr k ↦ Descends-trans origins a c x d k
          ];
      every = λ x d.
          let (c, h, reach) = child-Reaches origins a x d in
          each.every x c (IsIn-keys_where (is_child_of a) origins c h) reach;
      children_first = each.children_first;
    }

pub descendants-Collects :
    (origins : Origins) (id : ℕ) (o : GatewayOrigin)
    → IsValid origins
    → find origins id ≡ some o
    → Collects origins id (descendants origins id)
descendants-Collects origins id o v e =
    let (n, r, b) = v.nested id o e in
    collect_descendants-Collects origins max_connection_depth id n v r b
      (omega (arith, positive n r))
  where
    positive : (n : ℕ) → Rooted origins id n → 1 ≤ n
    positive n (at_root h) = omega arith
    positive n (below h k) = omega arith

-- In a valid hierarchy the fuel of the recursion is enough: `teardown_order` returns, for a connection
-- that is there, the ids of its descendants, all of them and no others, and then its own id; and each
-- connection comes after all that descend from it.
pub teardown_order-Descends :
    (origins : Origins) (id : ℕ) (o : GatewayOrigin)
    → IsValid origins
    → find origins id ≡ some o
    → (ids : List ℕ) × (teardown_order origins id ≡ some (ids ++ id ∷ []))
      × ((x : ℕ) → IsIn x ids ↔ Descends origins id x)
      × ChildrenFirst origins [] (ids ++ id ∷ [])
unfolding teardown_order
teardown_order-Descends origins id o v e =
    let c = descendants-Collects origins id o v e in
    let there : contains_key origins id ≡ true = contains_key-find origins id ∙ ap is_some e in
    (
      c.collected,
      rw (there, c.succeeds) refl,
      (λ x. (c.only x, c.every x)),
      ChildrenFirst-append origins [] c.collected (id ∷ []) (c.children_first [])
          ((λ x d. IsIn-behind x [] c.collected (inr (c.every x d))), tt),
    )
