-- ===== src/Topology/Coherence/Entries.antt =====
-- A predicate on the entries of a map, through each change of the map.
use lector.Prelude.{ℕ, ◌≡◌, Bool, true, List, arith, Option-cases, inl, inr}
use lector.Topology.Maps.{nat_key, find, insert, retain, map_values}
use lector.Topology.Maps.Lookup.{IsDistinct, find-insert, find-retain, find-map_values}
use lector.Topology.Coherence.{Entries}

module _ {V : Type 0} (P : ℕ → V → Type 0) where
  pub Entries-insert :
      (k : ℕ) (v : V) (m : List (ℕ × V)) → P k v → Entries P m → Entries P (insert k v m)
  Entries-insert k v m p h j u e = ground (arith, find-insert k j v m, h j u)

  pub Entries-retain :
      (keep : ℕ → V → Bool) (m : List (ℕ × V))
      → IsDistinct m
      → Entries P m
      → Entries (λ k v. P k v × (keep k v ≡ true)) (retain keep m)
  Entries-retain keep m d h k v e = ground (arith, find-retain keep m d k, h k v)

pub Entries-map_values :
    {V : Type 0} (P Q : ℕ → V → Type 0) (change : V → V) (m : List (ℕ × V))
    → ((k : ℕ) (v : V) → P k v → Q k (change v))
    → Entries P m
    → Entries Q (map_values change m)
Entries-map_values P Q change m keeps h k v e = elim (Option-cases (find k m)) [
  | inl q ↦ ground (arith, find-map_values change m k)
  | inr (u, q) ↦ ground (arith, find-map_values change m k, h k u, keeps k u)
]
