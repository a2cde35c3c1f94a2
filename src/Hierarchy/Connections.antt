-- ===== src/Hierarchy/Connections.antt =====
-- `ConnectionHierarchy` of src/tmux_lifecycle.rs.
use lector.Prelude.{
  ℕ, zero, suc, ◌-◌, Bool, false, not, ◌&&◌, ◌||◌, Option, none, some, List, [], ◌∷◌, ◌++◌, ◌==◌,
  any, if◌then◌else◌, length, ◌⊎◌, inl, inr,
}
use lector.Hierarchy.Origins.{
  max_connections, max_connection_depth, GatewayOrigin, direct, pane, LifecycleError,
  duplicate_connection, missing_parent, too_many_connections, too_deep, Origins, find, contains_key,
  insert_entry, remove_entry, keys_where,
}

-- The loop over the ancestors of a new connection: `left` is how much `depth` is below the bound.
unfoldable pub check_ancestors : ℕ → Origins → ℕ → Option LifecycleError
check_ancestors zero origins ancestor = some too_deep
check_ancestors (suc left) origins ancestor = elim (find origins ancestor) [
  | none ↦ some missing_parent
  | some direct ↦ none
  | some (pane parent _ _ _) ↦ check_ancestors left origins parent
]

-- The check of the origin of a new connection; the depth starts at one.
abbrev pub check_origin : Origins → ℕ → GatewayOrigin → Option LifecycleError
check_origin origins id direct = none
check_origin origins id (pane parent _ _ _) =
    if parent == id || not (contains_key origins parent)
    then some missing_parent
    else check_ancestors (max_connection_depth - 1) origins parent

unfoldable pub insert : Origins → ℕ → GatewayOrigin → LifecycleError ⊎ Origins
insert origins id origin =
    if contains_key origins id
    then inl duplicate_connection
    else if length origins == max_connections
    then inl too_many_connections
    else elim (check_origin origins id origin) [
      | some e ↦ inl e
      | none ↦ inr (insert_entry origins id origin)
    ]

abbrev pub is_child_of : ℕ → GatewayOrigin → Bool
is_child_of parent direct = false
is_child_of parent (pane parent' _ _ _) = parent' == parent

abbrev pub children : Origins → ℕ → List ℕ
children origins parent = keys_where (is_child_of parent) origins

abbrev pub appended : Option (List ℕ) → Option (List ℕ) → Option (List ℕ)
appended (some xs) (some ys) = some (xs ++ ys)
appended _ _ = none

-- What the call of `collect_descendants` for each child adds, with the child behind it.
abbrev pub each_child : (ℕ → Option (List ℕ)) → List ℕ → Option (List ℕ)
each_child collect [] = some []
each_child collect (child ∷ rest) =
    appended (appended (collect child) (some (child ∷ []))) (each_child collect rest)

-- The ids that are pushed to the output; `none` when the fuel for the recursion runs out.
unfoldable pub collect_descendants : ℕ → Origins → ℕ → Option (List ℕ)
collect_descendants zero origins parent = none
collect_descendants (suc fuel) origins parent =
    each_child (collect_descendants fuel origins) (children origins parent)

-- The recursion is never deeper than the connections are nested.
abbrev pub descendants : Origins → ℕ → Option (List ℕ)
descendants = collect_descendants max_connection_depth

unfoldable pub teardown_order : Origins → ℕ → Option (List ℕ)
unfolding collect_descendants
teardown_order origins id =
    if not (contains_key origins id)
    then some []
    else appended (descendants origins id) (some (id ∷ []))

abbrev pub remove_all : Origins → List ℕ → Origins
remove_all origins [] = origins
remove_all origins (id ∷ ids) = remove_all (remove_entry origins id) ids

unfoldable pub remove_connection : Origins → ℕ → Option (List ℕ × Origins)
unfolding teardown_order
remove_connection origins id = elim (teardown_order origins id) [
  | none ↦ none
  | some removed ↦ some (removed, remove_all origins removed)
]

-- `retain` of the first occurrences: `seen` is the set of those before.
abbrev pub first_occurrences : List ℕ → List ℕ → List ℕ
first_occurrences seen [] = []
first_occurrences seen (id ∷ ids) =
    let again = first_occurrences seen ids in
    let new = first_occurrences (id ∷ seen) ids in
    if any (λ x. x == id) seen then again else id ∷ new

abbrev pub collect_roots : Origins → List ℕ → Option (List ℕ)
collect_roots origins [] = some []
collect_roots origins (root ∷ roots) =
    let rest = collect_roots origins roots in
    if not (contains_key origins root)
    then rest
    else appended (appended (descendants origins root) (some (root ∷ []))) rest

unfoldable pub remove_roots : Origins → List ℕ → Option (List ℕ × Origins)
unfolding collect_descendants
remove_roots origins roots = elim (collect_roots origins roots) [
  | none ↦ none
  | some removed ↦
      let unique = first_occurrences [] removed in some (unique, remove_all origins unique)
]

abbrev pub is_through_pane : ℕ → ℕ → GatewayOrigin → Bool
is_through_pane parent pane_id direct = false
is_through_pane parent pane_id (pane parent' _ _ pane_id') =
    parent' == parent && pane_id' == pane_id

unfoldable pub remove_gateway_pane : Origins → ℕ → ℕ → Option (List ℕ × Origins)
unfolding remove_roots
remove_gateway_pane origins parent pane_id =
    remove_roots origins (keys_where (is_through_pane parent pane_id) origins)

abbrev pub is_through_window : ℕ → ℕ → GatewayOrigin → Bool
is_through_window parent window_id direct = false
is_through_window parent window_id (pane parent' _ window_id' _) =
    parent' == parent && window_id' == window_id

unfoldable pub remove_gateway_window : Origins → ℕ → ℕ → Option (List ℕ × Origins)
unfolding remove_roots
remove_gateway_window origins parent window_id =
    remove_roots origins (keys_where (is_through_window parent window_id) origins)
