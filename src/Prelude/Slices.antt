-- ===== src/Prelude/Slices.antt =====
-- Byte slices: a byte is a number, and the operations are those of Rust's `[u8]` that the
-- program uses. Words keep their width by explicit checks against `u64_max` and `usize_max`.
use Prim.Native.Nat.{ℕ, ◌-◌, ◌^◌}
use Prim.Native.Char.{code}
use Prim.Native.String.{String}
use mathlib.Core.Path.{◌≡◌, refl}
use mathlib.Core.Bool.{Bool, true, false, ◌&&◌, ◌||◌}
use mathlib.Core.List.{List, [], ◌∷◌, ◌++◌}
use mathlib.Core.Option.{Option, none, some}
use lector.Prelude.Tests.{leb, ◌==◌, ==_refl, if◌then◌else◌}
use lector.Prelude.Lists.{is_empty}

abbrev pub Bytes : Type 0
Bytes = List ℕ

-- The bytes of an ASCII literal.
abbrev pub bytes : String → Bytes
bytes String.[] = []
bytes (String.◌∷◌ c s) = code c ∷ bytes s

abbrev pub u64_max : ℕ
u64_max = 2 ^ 64 - 1

abbrev pub usize_max : ℕ
usize_max = 2 ^ 64 - 1

abbrev pub is_ascii_digit : ℕ → Bool
is_ascii_digit b = leb b'0' b && leb b b'9'

abbrev pub all {ℓ} : {A : Type ℓ} → (A → Bool) → List A → Bool
all p [] = true
all p (x ∷ xs) = p x && all p xs

abbrev pub any {ℓ} : {A : Type ℓ} → (A → Bool) → List A → Bool
any p [] = false
any p (x ∷ xs) = p x || any p xs

-- slice equality
abbrev pub bytes_eq : Bytes → Bytes → Bool
bytes_eq [] [] = true
bytes_eq [] (y ∷ ys) = false
bytes_eq (x ∷ xs) [] = false
bytes_eq (x ∷ xs) (y ∷ ys) = x == y && bytes_eq xs ys

-- slice::strip_prefix
unfoldable pub strip_prefix : Bytes → Bytes → Option Bytes
strip_prefix [] bs = some bs
strip_prefix (p ∷ ps) [] = none
strip_prefix (p ∷ ps) (b ∷ bs) = let rest = strip_prefix ps bs in if b == p then rest else none

-- slice::starts_with
unfoldable pub starts_with : Bytes → Bytes → Bool
starts_with [] bs = true
starts_with (p ∷ ps) [] = false
starts_with (p ∷ ps) (b ∷ bs) = b == p && starts_with ps bs

-- slice::split at a byte: the first field and the others
unfoldable pub split_on : ℕ → Bytes → Bytes × List Bytes
split_on c [] = ([], [])
split_on c (b ∷ bs) =
    let (field, fields) = split_on c bs in
    if b == c then ([], field ∷ fields) else (b ∷ field, fields)

-- `iter().position` of a byte, with the slices before and after it
unfoldable pub split_once : ℕ → Bytes → Option (Bytes × Bytes)
split_once c [] = none
split_once c (b ∷ bs) =
    if b == c
    then some ([], bs)
    else elim (split_once c bs) [ none ↦ none | some (front, back) ↦ some (b ∷ front, back) ]

-- `windows(n).position` of a pattern, with the slices before and after it
unfoldable pub split_at_pattern : Bytes → Bytes → Option (Bytes × Bytes)
unfolding strip_prefix
split_at_pattern pat [] = elim (strip_prefix pat []) [ none ↦ none | some back ↦ some ([], back) ]
split_at_pattern pat (b ∷ bs) = elim (strip_prefix pat (b ∷ bs)) [
  | some back ↦ some ([], back)
  | none ↦ elim (split_at_pattern pat bs) [
    | none ↦ none
    | some (front, back) ↦ some (b ∷ front, back)
  ]
]

-- `while v.last() == Some(&c) { v.pop(); }`
unfoldable pub trim_end : ℕ → Bytes → Bytes
trim_end c [] = []
trim_end c (b ∷ bs) = let rest = trim_end c bs in if b == c && is_empty rest then [] else b ∷ rest

pub strip_prefix-append : (ps bs : Bytes) → strip_prefix ps (ps ++ bs) ≡ some bs
unfolding strip_prefix
strip_prefix-append [] bs = refl
strip_prefix-append (p ∷ ps) bs = rw (==_refl p) (strip_prefix-append ps bs)
