-- ===== src/Hierarchy/Roots.antt =====
-- What `remove_roots` of src/tmux_lifecycle.rs leaves.
use lector.Prelude.{
  ℕ, ◌≡◌, arith, ◌↔◌, is_some, refl, sym, ap, subst, ◌∙◌, ◌⊎◌, inl, inr, Bool, true, any, Option,
  none, some, List, [], ◌∷◌, ◌++◌, ◌==◌, ==→eq, if_cases, Bool-cases, All,
}
use lector.Hierarchy.Origins.{GatewayOrigin, direct, pane, Origins, find, contains_key, keys_where}
use lector.Hierarchy.Connections.{
  remove_all, first_occurrences, collect_roots, remove_roots, is_through_pane, remove_gateway_pane,
  is_through_window, remove_gateway_window,
}
use lector.Hierarchy.Depth.{contains_key-find}
use lector.Hierarchy.Insertion.{IsValid}
use lector.Hierarchy.Keys.{IsIn, IsIn-append, IsIn-cases, Has, keys_where-Has, IsIn-keys_where}
use lector.Hierarchy.Descent.{Descends, child, deeper, descendants-Collects}
use lector.Hierarchy.Removal.{IsWithin, is_in, remove_all-IsValid, kept, gone}

-- `x` is one of the roots, or descends from one.
abbrev pub IsWithinSome : Origins → List ℕ → ℕ → Type 0
IsWithinSome origins roots x = (root : ℕ) × IsIn root roots × IsWithin origins root x

abbrev CollectsRoots : Origins → List ℕ → Option (List ℕ) → Type 0
CollectsRoots origins roots o =
    (ids : List ℕ) × (o ≡ some ids) × ((x : ℕ) → IsIn x ids ↔ IsWithinSome origins roots x)

collect_roots-CollectsRoots :
    (origins : Origins) (roots : List ℕ)
    → IsValid origins
    → ((root : ℕ) → IsIn root roots → (o : GatewayOrigin) × (find origins root ≡ some o))
    → CollectsRoots origins roots (collect_roots origins roots)
collect_roots-CollectsRoots origins [] v h =
    ([], refl, λ x. (λ i. absurd i, λ (root, i, w). absurd i))
collect_roots-CollectsRoots origins (root ∷ roots) v h =
    let (o, e) = h root (inl refl) in
    let c = descendants-Collects origins root o v e in
    let (later, at, exactly) = collect_roots-CollectsRoots origins roots v (λ r i. h r (inr i)) in
    let there : contains_key origins root ≡ true = contains_key-find origins root ∙ ap is_some e in
    let own = c.collected ++ root ∷ [] in
    (
      own ++ later,
      rw (there, c.succeeds, at) refl,
      λ x. (
        (λ i. elim (IsIn-cases x own later i) [
          | inl j ↦ (
            root,
            inl refl,
            elim (IsIn-cases x c.collected (root ∷ []) j) [
              | inl k ↦ inr (c.only x k)
              | inr (inl q) ↦ inl q
              | inr (inr k) ↦ absurd k
            ],
          )
          | inr j ↦ let (r, m, w) = (exactly x).0 j in (r, inr m, w)
        ]),
        (λ (r, m, w). IsIn-append x own later (elim m [
          | inl q ↦ inl (
              IsIn-append x c.collected (root ∷ []) (elim w [
                | inl same ↦ inr (inl (same ∙ q))
                | inr d ↦ inl (c.every x (subst (λ y. Descends origins y x) q d))
              ]))
          | inr j ↦ inr ((exactly x).1 (r, j, w))
        ])),
      ),
    )

any-IsIn : (x : ℕ) (seen : List ℕ) → any (λ y. y == x) seen ≡ true → IsIn x seen
any-IsIn x [] h = cc h
any-IsIn x (y ∷ ys) h = elim (Bool-cases (y == x)) [
  | inl t ↦ inl (sym (==→eq y x t))
  | inr f ↦ inr (any-IsIn x ys (rw f at h))
]

-- No id is lost with the later occurrences, and none comes in.
first_occurrences-every :
    (seen ids : List ℕ) (x : ℕ) → IsIn x ids → IsIn x seen ⊎ IsIn x (first_occurrences seen ids)
first_occurrences-every seen [] x i = absurd i
first_occurrences-every seen (id ∷ ids) x i =
    if_cases (λ (xs : List ℕ). IsIn x seen ⊎ IsIn x xs) (any (λ y. y == id) seen)
      (first_occurrences seen ids) (id ∷ first_occurrences (id ∷ seen) ids)
      (λ t. elim i [
        | inl q ↦ inl (subst (λ y. IsIn y seen) (sym q) (any-IsIn id seen t))
        | inr j ↦ first_occurrences-every seen ids x j
      ])
      (λ f. elim i [
        | inl q ↦ inr (inl q)
        | inr j ↦ elim (first_occurrences-every (id ∷ seen) ids x j) [
          | inl (inl q) ↦ inr (inl q)
          | inl (inr k) ↦ inl k
          | inr k ↦ inr (inr k)
        ]
      ])

first_occurrences-only :
    (seen ids : List ℕ) (x : ℕ) → IsIn x (first_occurrences seen ids) → IsIn x ids
first_occurrences-only seen [] x = λ i. i
first_occurrences-only seen (id ∷ ids) x =
    if_cases (λ (xs : List ℕ). IsIn x xs → IsIn x (id ∷ ids)) (any (λ y. y == id) seen)
      (first_occurrences seen ids) (id ∷ first_occurrences (id ∷ seen) ids)
      (λ t i. inr (first_occurrences-only seen ids x i))
      (λ f i. elim i [ inl q ↦ inl q | inr j ↦ inr (first_occurrences-only (id ∷ seen) ids x j) ])

-- The connections of a kind, and those that descend from them.
abbrev pub IsWithinKind : Origins → (GatewayOrigin → Bool) → ℕ → Type 0
IsWithinKind origins test x = (root : ℕ) × Has test origins root × IsWithin origins root x

-- The connections `P`, and no others, are removed, and what is left is valid and as before.
abbrev pub Removes : Origins → (ℕ → Type 0) → Option (List ℕ × Origins) → Type 0
Removes origins P o =
    (removed : List ℕ) × (origins' : Origins) × (o ≡ some (removed, origins'))
    × ((x : ℕ) → IsIn x removed ↔ P x)
    × IsValid origins'
    × ((x : ℕ) → P x → find origins' x ≡ none)
    × ((x : ℕ) → (P x → ⊥) → find origins' x ≡ find origins x)

IsIn-Has :
    (test : GatewayOrigin → Bool) (origins : Origins) (keys : List ℕ) (root : ℕ)
    → All (Has test origins) keys
    → IsIn root keys
    → Has test origins root
IsIn-Has test origins [] root a i = absurd i
IsIn-Has test origins (k ∷ ks) root a (inl q) = subst (Has test origins) (sym q) a.0
IsIn-Has test origins (k ∷ ks) root a (inr i) = IsIn-Has test origins ks root a.1 i

remove_roots-Removes :
    (origins : Origins) (test : GatewayOrigin → Bool)
    → IsValid origins
    → Removes origins (IsWithinKind origins test) (remove_roots origins (keys_where test origins))
unfolding remove_roots
remove_roots-Removes origins test v =
    let keys = keys_where test origins in
    let has : (root : ℕ) → IsIn root keys → Has test origins root =
      λ root i. IsIn-Has test origins keys root (keys_where-Has test origins v.ordered) i in
    let (ids, at, exactly) =
      collect_roots-CollectsRoots origins keys v (λ root i. ((has root i).0, (has root i).1)) in
    let unique = first_occurrences [] ids in
    let inside : (x : ℕ) → IsWithinKind origins test x → IsIn x unique = λ x (root, h, w).
      elim (first_occurrences-every [] ids x
        ((exactly x).1 (root, IsIn-keys_where test origins root h, w))) [
          | inl i ↦ absurd i
          | inr i ↦ i
        ] in
    let within : (x : ℕ) → IsIn x unique → IsWithinKind origins test x = λ x i.
      let (root, m, w) = (exactly x).0 (first_occurrences-only [] ids x i) in
      (root, has root m, w) in
    let closed : (x p s w q : ℕ)
        → find origins x ≡ some (pane p s w q)
        → IsIn p unique
        → IsIn x unique =
      λ x p s w q f i.
        let (root, h, r) = within p i in
        inside x (
          root,
          h,
          inr (elim r [
            | inl same ↦ child (subst (λ y. find origins x ≡ some (pane y s w q)) same f)
            | inr d ↦ deeper f d
          ]),
        ) in
    (
      unique,
      remove_all origins unique,
      rw (at, remove_roots) refl,
      (λ x. (within x, inside x)),
      remove_all-IsValid origins unique v closed (λ x. is_in x unique),
      (λ x h. gone origins unique x v.ordered (inside x h)),
      (λ x out. kept origins unique x v.ordered (λ i. out (within x i))),
    )

-- The connection runs in the pane of the parent.
abbrev pub RunsInPane : Origins → ℕ → ℕ → ℕ → Type 0
RunsInPane origins parent pane_id root =
    (session : ℕ) × (window : ℕ) × (find origins root ≡ some (pane parent session window pane_id))

-- The connection runs in some pane of the window of the parent.
abbrev pub RunsInWindow : Origins → ℕ → ℕ → ℕ → Type 0
RunsInWindow origins parent window_id root =
    (session : ℕ) × (pane_id : ℕ) × (find origins root
      ≡ some (pane parent session window_id pane_id))

-- A connection of which `P` holds, or that descends from one
abbrev pub IsWithinAny : Origins → (ℕ → Type 0) → ℕ → Type 0
IsWithinAny origins P x = (root : ℕ) × P root × IsWithin origins root x

Removes-iff :
    (origins : Origins) (P Q : ℕ → Type 0) (o : Option (List ℕ × Origins))
    → ((x : ℕ) → P x → Q x)
    → ((x : ℕ) → Q x → P x)
    → Removes origins P o
    → Removes origins Q o
Removes-iff origins P Q o f g (removed, origins', at, exactly, valid, gone_of, kept_of) = (
  removed,
  origins',
  at,
  λ x. (λ i. f x ((exactly x).0 i), λ q. (exactly x).1 (g x q)),
  valid,
  λ x q. gone_of x (g x q),
  λ x out. kept_of x (λ p. out (f x p)),
)

through_pane :
    (parent pane_id : ℕ) (o : GatewayOrigin)
    → is_through_pane parent pane_id o ≡ true
    → (session : ℕ) × (window : ℕ) × (o ≡ pane parent session window pane_id)
through_pane parent pane_id direct h = cc
through_pane parent pane_id (pane p s w k) h = (s, w, ground (arith, h))

through_window :
    (parent window_id : ℕ) (o : GatewayOrigin)
    → is_through_window parent window_id o ≡ true
    → (session : ℕ) × (pane_id : ℕ) × (o ≡ pane parent session window_id pane_id)
through_window parent window_id direct h = cc
through_window parent window_id (pane p s w k) h = (s, k, ground (arith, h))

-- In a valid hierarchy `remove_gateway_pane` removes, and returns, the connections that run in the pane
-- of the parent and all that descend from these, and no others; what is left is valid and as before.
pub remove_gateway_pane-Removes :
    (origins : Origins) (parent pane_id : ℕ)
    → IsValid origins
    → Removes origins
        (IsWithinAny origins (RunsInPane origins parent pane_id))
        (remove_gateway_pane origins parent pane_id)
unfolding remove_gateway_pane
remove_gateway_pane-Removes origins parent pane_id v =
    Removes-iff origins (IsWithinKind origins (is_through_pane parent pane_id))
      (IsWithinAny origins (RunsInPane origins parent pane_id))
      (remove_gateway_pane origins parent pane_id)
      (λ x (root, (o, e, t), w).
        let (s, u, q) = through_pane parent pane_id o t in (root, (s, u, e ∙ ap some q), w))
      (λ x (root, (s, u, e), w). (root, (pane parent s u pane_id, e, ground arith), w))
      (remove_roots-Removes origins (is_through_pane parent pane_id) v)

-- In a valid hierarchy `remove_gateway_window` removes, and returns, the connections that run in a pane
-- of the window of the parent and all that descend from these, and no others; what is left is valid and
-- as before.
pub remove_gateway_window-Removes :
    (origins : Origins) (parent window_id : ℕ)
    → IsValid origins
    → Removes origins
        (IsWithinAny origins (RunsInWindow origins parent window_id))
        (remove_gateway_window origins parent window_id)
unfolding remove_gateway_window
remove_gateway_window-Removes origins parent window_id v =
    Removes-iff origins (IsWithinKind origins (is_through_window parent window_id))
      (IsWithinAny origins (RunsInWindow origins parent window_id))
      (remove_gateway_window origins parent window_id)
      (λ x (root, (o, e, t), w).
        let (s, k, q) = through_window parent window_id o t in (root, (s, k, e ∙ ap some q), w))
      (λ x (root, (s, k, e), w). (root, (pane parent s window_id k, e, ground arith), w))
      (remove_roots-Removes origins (is_through_window parent window_id) v)
