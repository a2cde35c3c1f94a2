-- ===== src/Topology/Maps/Lookup.antt =====
-- What a lookup finds after each change of a map.
use lector.Prelude.{
  ◌≡◌, refl, inl, inr, Bool, true, false, not, ◌&&◌, ◌||◌, none, some, List, [], ◌∷◌, Bool-cases,
  if◌then◌else◌, arith, is_some,
}
use lector.Topology.Maps.{
  Key, find, contains_key, insert, retain, map_values, remove, replace, place,
}

pub Key-refl {ℓ} : {K : Type ℓ} ⦃key : Key K⦄ (k : K) → key.same k k ≡ true
Key-refl ⦃key⦄ k = (key.same_iff k k).1 refl

module _ {ℓ κ} {K : Type ℓ} {V : Type κ} ⦃key : Key K⦄ where
  -- No key stands twice.
  abbrev pub IsDistinct : List (K × V) → Type κ
  IsDistinct [] = Unit
  IsDistinct ((k, v) ∷ m) = (find k m ≡ none) × IsDistinct m

  find-replace :
      (k j : K) (v : V) (m : List (K × V))
      → contains_key k m ≡ true
      → find j (replace k v m) ≡ (if key.same k j then some v else find j m)
  unfolding find contains_key replace
  find-replace k j v [] h = cc
  find-replace k j v ((i, w) ∷ m) h =
      ground (arith, key.same_iff i k, key.same_iff i j, key.same_iff k j, find-replace k j v m)

  find-place :
      (k j : K) (v : V) (m : List (K × V))
      → find k m ≡ none
      → find j (place k v m) ≡ (if key.same k j then some v else find j m)
  unfolding find place
  find-place k j v [] h = refl
  find-place k j v ((i, w) ∷ m) h =
      ground (arith, key.same_iff i k, key.same_iff i j, key.same_iff k j, find-place k j v m)

  find-none : (k : K) (m : List (K × V)) → contains_key k m ≡ false → find k m ≡ none
  unfolding contains_key
  find-none k m h = ground arith

  pub find-insert :
      (k j : K) (v : V) (m : List (K × V))
      → find j (insert k v m) ≡ (if key.same k j then some v else find j m)
  unfolding insert
  find-insert k j v m = elim (Bool-cases (contains_key k m)) [
    | inl t ↦ rw t (find-replace k j v m t)
    | inr f ↦ rw f (find-place k j v m (find-none k m f))
  ]

  pub find-retain :
      (keep : K → V → Bool) (m : List (K × V))
      → IsDistinct m
      → (k : K)
      → find k (retain keep m)
        ≡ elim (find k m) [ none ↦ none | some v ↦ if keep k v then some v else none ]
  unfolding find retain
  find-retain keep [] d k = refl
  find-retain keep ((j, v) ∷ m) d k = ground (arith, key.same_iff j k, find-retain keep m d.1 k)

  pub find-map_values :
      (change : V → V) (m : List (K × V)) (k : K)
      → find k (map_values change m) ≡ elim (find k m) [ none ↦ none | some v ↦ some (change v) ]
  unfolding find map_values
  find-map_values change [] k = refl
  find-map_values change ((j, v) ∷ m) k = ground (arith, find-map_values change m k)

  pub IsDistinct-map_values :
      (change : V → V) (m : List (K × V)) → IsDistinct m → IsDistinct (map_values change m)
  unfolding map_values
  IsDistinct-map_values change [] d = tt
  IsDistinct-map_values change ((j, v) ∷ m) d =
      (ground (arith, find-map_values change m j), IsDistinct-map_values change m d.1)

  pub IsDistinct-retain :
      (keep : K → V → Bool) (m : List (K × V)) → IsDistinct m → IsDistinct (retain keep m)
  unfolding retain
  IsDistinct-retain keep [] d = tt
  IsDistinct-retain keep ((j, v) ∷ m) d =
      ground (arith, find-retain keep m d.1 j, IsDistinct-retain keep m d.1)

  IsDistinct-replace :
      (k : K) (v : V) (m : List (K × V))
      → contains_key k m ≡ true
      → IsDistinct m
      → IsDistinct (replace k v m)
  unfolding find contains_key replace
  IsDistinct-replace k v [] h d = tt
  IsDistinct-replace k v ((j, w) ∷ m) h d =
      ground
        (arith, key.same_iff k j, key.same_iff j k, find-replace k j v m, IsDistinct-replace k v m)

  IsDistinct-place :
      (k : K) (v : V) (m : List (K × V)) → find k m ≡ none → IsDistinct m → IsDistinct (place k v m)
  unfolding find place
  IsDistinct-place k v [] h d = (refl, tt)
  IsDistinct-place k v ((j, w) ∷ m) h d =
      ground (arith, key.same_iff k j, key.same_iff j k, find-place k j v m, IsDistinct-place k v m)

  pub IsDistinct-insert :
      (k : K) (v : V) (m : List (K × V)) → IsDistinct m → IsDistinct (insert k v m)
  unfolding insert
  IsDistinct-insert k v m d = elim (Bool-cases (contains_key k m)) [
    | inl t ↦ rw t (IsDistinct-replace k v m t d)
    | inr f ↦ rw f (IsDistinct-place k v m (find-none k m f) d)
  ]

  pub contains_key-eq : (k : K) (m : List (K × V)) → contains_key k m ≡ is_some (find k m)
  unfolding contains_key
  contains_key-eq k m = refl

  pub contains_key-insert :
      (k j : K) (v : V) (m : List (K × V))
      → contains_key j (insert k v m) ≡ (key.same k j || contains_key j m)
  unfolding contains_key
  contains_key-insert k j v m = ground (arith, find-insert k j v m)

  pub contains_key-map_values :
      (change : V → V) (m : List (K × V)) (k : K)
      → contains_key k (map_values change m) ≡ contains_key k m
  unfolding contains_key
  contains_key-map_values change m k = ground (arith, find-map_values change m k)

  -- A set keeps the elements that pass the test.
  pub contains_key-retain :
      (keep : K → Bool) (m : List (K × V)) (k : K)
      → contains_key k (retain (λ j _. keep j) m) ≡ (contains_key k m && keep k)
  unfolding contains_key find retain
  contains_key-retain keep [] k = refl
  contains_key-retain keep ((j, v) ∷ m) k =
      ground (arith, key.same_iff j k, contains_key-retain keep m k)

  pub find-remove :
      (k : K) (m : List (K × V))
      → IsDistinct m
      → (j : K) → find j (remove k m) ≡ (if key.same j k then none else find j m)
  unfolding remove
  find-remove k m d j = ground (arith, find-retain (λ j _. not (key.same j k)) m d j)

  pub IsDistinct-remove : (k : K) (m : List (K × V)) → IsDistinct m → IsDistinct (remove k m)
  unfolding remove
  IsDistinct-remove k m d = IsDistinct-retain (λ j _. not (key.same j k)) m d

  pub find-cons :
      (i k : K) (v : V) (m : List (K × V))
      → find k ((i, v) ∷ m) ≡ (if key.same i k then some v else find k m)
  unfolding find
  find-cons i k v m = refl

  pub find-nil : (k : K) → find k (let m : List (K × V) = [] in m) ≡ none
  unfolding find
  find-nil k = refl

  pub contains_key-remove :
      (k : K) (m : List (K × V))
      → IsDistinct m
      → (j : K) → contains_key j (remove k m) ≡ (contains_key j m && not (key.same j k))
  contains_key-remove k m d j =
      ground (arith, contains_key-eq j (remove k m), contains_key-eq j m, find-remove k m d j)

pub contains_key-nil {ℓ κ} :
    {K : Type ℓ} (V : Type κ) ⦃key : Key K⦄ (k : K)
    → contains_key k (let m : List (K × V) = [] in m) ≡ false
unfolding contains_key
contains_key-nil V k = refl
