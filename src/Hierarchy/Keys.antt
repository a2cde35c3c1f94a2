-- ===== src/Hierarchy/Keys.antt =====
-- The keys that `filter_map` finds among the origins in src/tmux_lifecycle.rs.
use lector.Prelude.{
  ℕ, ◌<◌, ◌≡◌, ◌≢◌, refl, sym, subst, ◌⊎◌, inl, inr, Bool, true, some, List, [], ◌∷◌, ◌++◌, arith,
  ◌==◌, ==→eq, ==_refl, ne→==, if_cases, Bool-cases, All,
}
use lector.Hierarchy.Origins.{GatewayOrigin, Origins, find, keys_where}
use lector.Hierarchy.Insertion.{IsOrdered}

abbrev pub IsIn : ℕ → List ℕ → Type 0
IsIn x [] = ⊥
IsIn x (y ∷ ys) = x ≡ y ⊎ IsIn x ys

pub IsIn-append : (x : ℕ) (xs ys : List ℕ) → IsIn x xs ⊎ IsIn x ys → IsIn x (xs ++ ys)
IsIn-append x [] ys (inl h) = absurd h
IsIn-append x [] ys (inr h) = h
IsIn-append x (z ∷ xs) ys (inl (inl e)) = inl e
IsIn-append x (z ∷ xs) ys (inl (inr h)) = inr (IsIn-append x xs ys (inl h))
IsIn-append x (z ∷ xs) ys (inr h) = inr (IsIn-append x xs ys (inr h))

-- `id` is a key of an origin of the kind.
abbrev pub Has : (GatewayOrigin → Bool) → Origins → ℕ → Type 0
Has test origins id = (o : GatewayOrigin) × (find origins id ≡ some o) × (test o ≡ true)

find_above :
    (key : ℕ) (origin : GatewayOrigin) (rest : Origins) (id : ℕ) (o : GatewayOrigin)
    → All (λ (e : ℕ × GatewayOrigin). key < e.0) rest
    → find rest id ≡ some o
    → find ((key, origin) ∷ rest) id ≡ some o
find_above key origin rest id o a e = rw (ne→== key id (above rest a e)) e
  where
    above :
        (os : Origins)
        → All (λ (e : ℕ × GatewayOrigin). key < e.0) os
        → find os id ≡ some o
        → key ≢ id
    above [] a e q = cc e
    above ((k, p) ∷ os) a e q = elim (Bool-cases (k == id)) [
      | inl t ↦ absurd (omega (arith, a.0, q, ==→eq k id t))
      | inr f ↦ above os a.1 (rw f at e) q
    ]

pub keys_where-Has :
    (test : GatewayOrigin → Bool) (origins : Origins)
    → IsOrdered origins
    → All (Has test origins) (keys_where test origins)
keys_where-Has test [] h = tt
keys_where-Has test ((key, origin) ∷ rest) h =
    let later : All (Has test ((key, origin) ∷ rest)) (keys_where test rest) =
      lifted (keys_where test rest) (keys_where-Has test rest h.1) in
    if_cases (λ (ks : List ℕ). All (Has test ((key, origin) ∷ rest)) ks) (test origin)
      (key ∷ keys_where test rest) (keys_where test rest)
      (λ t. ((origin, rw (==_refl key) refl, t), later)) (λ _. later)
  where
    lifted : (ks : List ℕ) → All (Has test rest) ks → All (Has test ((key, origin) ∷ rest)) ks
    lifted [] a = tt
    lifted (k ∷ ks) a =
        let (o, e, t) = a.0 in ((o, find_above key origin rest k o h.0 e, t), lifted ks a.1)

pub IsIn-keys_where :
    (test : GatewayOrigin → Bool) (origins : Origins) (id : ℕ)
    → Has test origins id
    → IsIn id (keys_where test origins)
IsIn-keys_where test [] id (o, e, t) = cc e
IsIn-keys_where test ((key, origin) ∷ rest) id (o, e, t) = elim (Bool-cases (key == id)) [
  | inl k ↦
      let same : some origin ≡ some o = rw k at e in
      let kept : test origin ≡ true = cc (same, t) in rw kept (inl (sym (==→eq key id k)))
  | inr f ↦
      let later : IsIn id (keys_where test rest) = IsIn-keys_where test rest id (o, rw f at e, t) in
      if_cases (IsIn id) (test origin) (key ∷ keys_where test rest) (keys_where test rest)
        (λ _. inr later) (λ _. later)
]

pub IsIn-cases : (x : ℕ) (xs ys : List ℕ) → IsIn x (xs ++ ys) → IsIn x xs ⊎ IsIn x ys
IsIn-cases x [] ys h = inr h
IsIn-cases x (z ∷ xs) ys (inl e) = inl (inl e)
IsIn-cases x (z ∷ xs) ys (inr h) = elim (IsIn-cases x xs ys h) [
  | inl k ↦ inl (inr k)
  | inr k ↦ inr k
]

pub member : (P : ℕ → Type 0) (xs : List ℕ) (x : ℕ) → All P xs → IsIn x xs → P x
member P [] x a i = absurd i
member P (y ∷ ys) x a (inl e) = subst P (sym e) a.0
member P (y ∷ ys) x a (inr i) = member P ys x a.1 i
