-- ===== src/Topology/Maps.antt =====
-- `BTreeMap` and `BTreeSet` as src/tmux_model.rs uses them: the list of the entries in the order of
-- the keys. A set is a map to the unit.
pub mod Lookup
use lector.Prelude.{
  ℕ, ◌≡◌, ◌↔◌, refl, ap, Bool, true, false, not, ◌&&◌, ◌||◌, Option, none, some, List, [], ◌∷◌,
  Bytes, ltb, ◌==◌, ==→eq, ==_refl, and_true, bytes_eq, if◌then◌else◌, is_some, arith,
}

-- The order and the equality of a type of keys.
pub record Key {ℓ} (K : Type ℓ) : Type ℓ where
  pub lt : K → K → Bool
  pub same : K → K → Bool
  pub same_iff : (a b : K) → (same a b ≡ true) ↔ (a ≡ b)

pub nat_iff : (a b : ℕ) → ((a == b) ≡ true) ↔ (a ≡ b)
nat_iff a b = (==→eq a b, λ e. rw e (==_refl b))

instance abbrev pub nat_key : Key ℕ
nat_key = record { lt = ltb; same = ◌==◌; same_iff = nat_iff }

pub bytes_lt : Bytes → Bytes → Bool
bytes_lt [] [] = false
bytes_lt [] (y ∷ ys) = true
bytes_lt (x ∷ xs) [] = false
bytes_lt (x ∷ xs) (y ∷ ys) = ltb x y || (x == y && bytes_lt xs ys)

bytes_eq→eq : (xs ys : Bytes) → bytes_eq xs ys ≡ true → xs ≡ ys
bytes_eq→eq [] [] h = refl
bytes_eq→eq [] (y ∷ ys) h = cc
bytes_eq→eq (x ∷ xs) [] h = cc
bytes_eq→eq (x ∷ xs) (y ∷ ys) h =
    let (e, es) = and_true (x == y) (bytes_eq xs ys) h in cc (==→eq x y e, bytes_eq→eq xs ys es)

bytes_eq_refl : (xs : Bytes) → bytes_eq xs xs ≡ true
bytes_eq_refl [] = refl
bytes_eq_refl (x ∷ xs) = rw (==_refl x) (bytes_eq_refl xs)

pub bytes_iff : (a b : Bytes) → (bytes_eq a b ≡ true) ↔ (a ≡ b)
bytes_iff a b = (bytes_eq→eq a b, λ e. rw e (bytes_eq_refl b))

instance abbrev pub bytes_key : Key Bytes
bytes_key = record { lt = bytes_lt; same = bytes_eq; same_iff = bytes_iff }

module _ {ℓ κ} {K : Type ℓ} {V : Type κ} ⦃key : Key K⦄ where
  -- BTreeMap::get
  unfoldable pub find : K → List (K × V) → Option V
  find k [] = none
  find k ((j, v) ∷ m) = if key.same j k then some v else find k m

  unfoldable pub contains_key : K → List (K × V) → Bool
  unfolding find
  contains_key k m = is_some (find k m)

  unfoldable pub replace : K → V → List (K × V) → List (K × V)
  replace k v [] = []
  replace k v ((j, w) ∷ m) =
      let rest = replace k v m in if key.same j k then (j, v) ∷ m else (j, w) ∷ rest

  unfoldable pub place : K → V → List (K × V) → List (K × V)
  place k v [] = (k, v) ∷ []
  place k v ((j, w) ∷ m) =
      let rest = place k v m in if key.lt k j then (k, v) ∷ (j, w) ∷ m else (j, w) ∷ rest

  -- BTreeMap::insert; `contains_key` before it tells whether it returns an old value.
  unfoldable pub insert : K → V → List (K × V) → List (K × V)
  unfolding contains_key replace place
  insert k v m = if contains_key k m then replace k v m else place k v m

  -- `entry(k).or_insert_with(..)` and a change of the value there
  unfoldable pub update_or_insert : K → V → (V → V) → List (K × V) → List (K × V)
  unfolding find insert
  update_or_insert k default change m = elim (find k m) [
    | none ↦ insert k (change default) m
    | some v ↦ insert k (change v) m
  ]

module _ {ℓ κ} {K : Type ℓ} {V : Type κ} where
  -- BTreeMap::retain
  unfoldable pub retain : (K → V → Bool) → List (K × V) → List (K × V)
  retain keep [] = []
  retain keep ((k, v) ∷ m) = let rest = retain keep m in if keep k v then (k, v) ∷ rest else rest

  -- `values_mut`
  unfoldable pub map_values : (V → V) → List (K × V) → List (K × V)
  map_values change [] = []
  map_values change ((k, v) ∷ m) = (k, change v) ∷ map_values change m

-- BTreeMap::remove
unfoldable pub remove {ℓ κ} :
    {K : Type ℓ} {V : Type κ} ⦃key : Key K⦄ → K → List (K × V) → List (K × V)
unfolding retain
remove ⦃key⦄ k m = retain (λ j v. not (key.same j k)) m
