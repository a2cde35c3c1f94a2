-- ===== src/Hierarchy/Insertion.antt =====
-- What `insert` of src/tmux_lifecycle.rs does with each connection.
use lector.Prelude.{
  ℕ, suc, ◌-◌, ◌≤◌, ◌<◌, ◌≡◌, ◌≢◌, refl, sym, ap, subst, ◌∙◌, ◌⊎◌, inl, inr, Bool, true, false, not,
  ◌||◌, Option, none, some, [], ◌∷◌, arith, leb, ltb, ◌==◌, ==→eq, ==_refl, if◌then◌else◌, if_cases,
  is_some, length, Bool-cases, Option-cases, All,
}
use lector.Hierarchy.Origins.{
  max_connections, max_connection_depth, GatewayOrigin, direct, pane, LifecycleError,
  duplicate_connection, missing_parent, too_many_connections, too_deep, Origins, find, contains_key,
  insert_entry,
}
use lector.Hierarchy.Connections.{check_ancestors, check_origin, insert}
use lector.Hierarchy.Depth.{
  both_absent, Rooted, at_root, below, check_ancestors-Rooted, Rooted-check_ancestors,
  Rooted-too_deep, contains_key-find, find-insert_entry, length-insert_entry, Rooted-insert_entry,
}

-- The keys ascend.
abbrev pub IsOrdered : Origins → Type 0
IsOrdered [] = Unit
IsOrdered ((key, origin) ∷ rest) = All (λ (e : ℕ × GatewayOrigin). key < e.0) rest × IsOrdered rest

abbrev pub IsNested : Origins → ℕ → Type 0
IsNested origins id = (n : ℕ) × Rooted origins id n × (n ≤ max_connection_depth)

-- The keys ascend, there are not too many, and each connection is nested within the bound.
pub record IsValid (origins : Origins) : Type 0 where
  pub ordered : IsOrdered origins
  pub is_bounded : length origins ≤ max_connections
  pub nested : (id : ℕ) (o : GatewayOrigin) → find origins id ≡ some o → IsNested origins id

above-insert_entry :
    (key : ℕ) (origins : Origins) (id : ℕ) (origin : GatewayOrigin)
    → key < id
    → All (λ (e : ℕ × GatewayOrigin). key < e.0) origins
    → All (λ (e : ℕ × GatewayOrigin). key < e.0) (insert_entry origins id origin)
above-insert_entry key [] id origin h a = (h, tt)
above-insert_entry key ((k, o) ∷ rest) id origin h a =
    if_cases (λ (os : Origins). All (λ (e : ℕ × GatewayOrigin). key < e.0) os) (ltb id k)
      ((id, origin) ∷ (k, o) ∷ rest) ((k, o) ∷ insert_entry rest id origin) (λ _. (h, a))
      (λ _. (a.0, above-insert_entry key rest id origin h a.1))

above_lower :
    (i k : ℕ) (origins : Origins)
    → i < k
    → All (λ (e : ℕ × GatewayOrigin). k < e.0) origins
    → All (λ (e : ℕ × GatewayOrigin). i < e.0) origins
above_lower i k [] h a = tt
above_lower i k ((key, o) ∷ rest) h a = (omega (arith, h, a.0), above_lower i k rest h a.1)

insert_entry-IsOrdered :
    (origins : Origins) (id : ℕ) (origin : GatewayOrigin)
    → contains_key origins id ≡ false
    → IsOrdered origins
    → IsOrdered (insert_entry origins id origin)
insert_entry-IsOrdered [] id origin h o = (tt, tt)
insert_entry-IsOrdered ((k, old) ∷ rest) id origin h o =
    let (other, absent) = both_absent (k == id) (contains_key rest id) h in
    if_cases IsOrdered (ltb id k) ((id, origin) ∷ (k, old) ∷ rest)
      ((k, old) ∷ insert_entry rest id origin)
      (λ t. let l : id < k = ground arith in ((l, above_lower id k rest l o.0), o))
      (λ f.
        let l : k < id = ground arith in
        (
          above-insert_entry k rest id origin l o.0,
          insert_entry-IsOrdered rest id origin absent o.1,
        ))

find_new :
    (origins : Origins) (id : ℕ) (origin : GatewayOrigin)
    → contains_key origins id ≡ false
    → find (insert_entry origins id origin) id ≡ some origin
find_new origins id origin h = find-insert_entry origins id id origin h ∙ rw (==_refl id) refl

new-IsNested :
    (origins : Origins) (id : ℕ) (origin : GatewayOrigin)
    → contains_key origins id ≡ false
    → check_origin origins id origin ≡ none
    → IsNested (insert_entry origins id origin) id
new-IsNested origins id direct h k = (1, at_root (find_new origins id direct h), omega arith)
new-IsNested origins id (pane parent s w p) h k =
    elim (Bool-cases (parent == id || not (contains_key origins parent))) [
      | inl t ↦ cc (rw t at k)
      | inr f ↦
          let (n, r, b) =
            check_ancestors-Rooted (max_connection_depth - 1) origins parent (rw f at k) in
          (
            suc n,
            below (find_new origins id (pane parent s w p) h)
                (Rooted-insert_entry origins id (pane parent s w p) parent n h r),
            omega arith,
          )
    ]

insert_entry-IsValid :
    (origins : Origins) (id : ℕ) (origin : GatewayOrigin)
    → IsValid origins
    → contains_key origins id ≡ false
    → length origins ≢ max_connections
    → check_origin origins id origin ≡ none
    → IsValid (insert_entry origins id origin)
insert_entry-IsValid origins id origin v h l k = record {
  ordered = insert_entry-IsOrdered origins id origin h v.ordered;
  is_bounded = omega (arith, length-insert_entry origins id origin, v.is_bounded, l);
  nested = λ x o e. elim (Bool-cases (id == x)) [
    | inl t ↦
        subst (IsNested (insert_entry origins id origin)) (==→eq id x t)
          (new-IsNested origins id origin h k)
    | inr f ↦
        let (n, r, b) =
          v.nested x o (rw f at (sym (find-insert_entry origins id x origin h) ∙ e)) in
        (n, Rooted-insert_entry origins id origin x n h r, b)
  ];
}

-- Why a connection is refused, or what the hierarchy is with it.
abbrev pub Inserted : Origins → ℕ → GatewayOrigin → LifecycleError ⊎ Origins → Type 0
Inserted origins id origin (inl duplicate_connection) = contains_key origins id ≡ true
Inserted origins id origin (inl too_many_connections) = length origins ≡ max_connections
Inserted origins id (pane parent s w p) (inl missing_parent) =
    parent ≡ id ⊎ contains_key origins parent ≡ false
Inserted origins id direct (inl missing_parent) = ⊥
Inserted origins id (pane parent s w p) (inl too_deep) = Rooted origins parent max_connection_depth
Inserted origins id direct (inl too_deep) = ⊥
Inserted origins id origin (inr origins') =
    IsValid origins'
    × (contains_key origins id ≡ false)
    × ((x : ℕ) → find origins' x ≡ (if id == x then some origin else find origins x))

abbrev checked : Origins → ℕ → GatewayOrigin → Option LifecycleError → LifecycleError ⊎ Origins
checked origins id origin (some e) = inl e
checked origins id origin none = inr (insert_entry origins id origin)

refused_parent : (b c : Bool) → (b || not c) ≡ true → (b ≡ true) ⊎ (c ≡ false)
refused_parent true c h = inl refl
refused_parent false true h = cc h
refused_parent false false h = inr refl

accepted_parent : (b c : Bool) → (b || not c) ≡ false → c ≡ true
accepted_parent true c h = cc h
accepted_parent false true h = refl
accepted_parent false false h = cc h

insert-checked :
    (origins : Origins) (id : ℕ) (origin : GatewayOrigin)
    → contains_key origins id ≡ false
    → (length origins == max_connections) ≡ false
    → insert origins id origin ≡ checked origins id origin (check_origin origins id origin)
unfolding insert
insert-checked origins id origin h l = rw (h, l) (from (check_origin origins id origin))
  where
    from :
        (r : Option LifecycleError)
        → (elim r as (λ _. LifecycleError ⊎ Origins) [
          | some e ↦ inl e
          | none ↦ inr (insert_entry origins id origin)
        ])
          ≡ checked origins id origin r
    from none = refl
    from (some e) = refl

module _ (origins : Origins) (id : ℕ) (v : IsValid origins) (h : contains_key origins id ≡ false)
    (l : length origins ≢ max_connections) where
  accepted :
      (origin : GatewayOrigin)
      → check_origin origins id origin ≡ none
      → Inserted origins id origin (inr (insert_entry origins id origin))
  accepted origin k = (
    insert_entry-IsValid origins id origin v h l k,
    h,
    λ x. find-insert_entry origins id x origin h,
  )

  pane-Inserted :
      (parent s w p : ℕ)
      → (parent == id || not (contains_key origins parent)) ≡ false
      → IsNested origins parent
      → Inserted origins id (pane parent s w p) (
          checked origins id
            (pane parent s w p)
            (check_ancestors (max_connection_depth - 1) origins parent))
  pane-Inserted parent s w p f (n, r, b) = elim (Bool-cases (leb n (max_connection_depth - 1))) [
    | inl t ↦
        let k : check_ancestors (max_connection_depth - 1) origins parent ≡ none =
          Rooted-check_ancestors (max_connection_depth - 1) n origins parent r (ground arith) in
        subst
          (λ o. Inserted origins id (pane parent s w p) (checked origins id (pane parent s w p) o))
          (sym k) (accepted (pane parent s w p) (rw f k))
    | inr g ↦
        let deep : n ≡ max_connection_depth = ground arith in
        subst
          (λ o. Inserted origins id (pane parent s w p) (checked origins id (pane parent s w p) o))
          (sym (Rooted-too_deep (max_connection_depth - 1) n origins parent r (ground arith)))
          (subst (Rooted origins parent) deep r)
  ]

  parent-IsNested : (parent : ℕ) → contains_key origins parent ≡ true → IsNested origins parent
  parent-IsNested parent c = elim (Option-cases (find origins parent)) [
    | inl e ↦ cc (contains_key-find origins parent, c, ap is_some e)
    | inr (o, e) ↦ v.nested parent o e
  ]

  checked-Inserted :
      (origin : GatewayOrigin)
      → Inserted origins id origin (checked origins id origin (check_origin origins id origin))
  checked-Inserted direct = accepted direct refl
  checked-Inserted (pane parent s w p) =
      if_cases
        (λ (r : Option LifecycleError).
          Inserted origins id (pane parent s w p) (checked origins id (pane parent s w p) r))
        (parent == id || not (contains_key origins parent)) (some missing_parent)
        (check_ancestors (max_connection_depth - 1) origins parent)
        (λ t. elim (refused_parent (parent == id) (contains_key origins parent) t) [
          | inl e ↦ inl (==→eq parent id e)
          | inr e ↦ inr e
        ])
        (λ f.
          pane-Inserted parent s w p f (
            parent-IsNested parent
              (accepted_parent (parent == id) (contains_key origins parent) f)))

-- In a valid hierarchy `insert` refuses a connection that is there, or is one too many, or is in a
-- pane of itself or of a connection that is not there, or of one at the greatest depth. It takes every
-- other one: the hierarchy is valid again, and has the new connection and what it had before.
pub insert-Inserted :
    (origins : Origins) (id : ℕ) (origin : GatewayOrigin)
    → IsValid origins
    → Inserted origins id origin (insert origins id origin)
unfolding insert
insert-Inserted origins id origin v = elim (Bool-cases (contains_key origins id)) [
  | inl t ↦
      let e : insert origins id origin ≡ inl duplicate_connection = rw t refl in
      subst (Inserted origins id origin) (sym e) t
  | inr f ↦ elim (Bool-cases (length origins == max_connections)) [
    | inl t ↦
        let e : insert origins id origin ≡ inl too_many_connections = rw (f, t) refl in
        subst (Inserted origins id origin) (sym e) (==→eq (length origins) max_connections t)
    | inr g ↦
        subst (Inserted origins id origin) (sym (insert-checked origins id origin f g))
          (checked-Inserted origins id v f (ground arith) origin)
  ]
]

pub empty-IsValid : IsValid []
empty-IsValid = record { ordered = tt; is_bounded = omega arith; nested = λ id o e. cc e }
