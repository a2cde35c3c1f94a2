-- ===== src/Clipboard/Base64/Decoding.antt =====
-- A decoder of Base64 (RFC 4648), and `encode_base64` of src/clipboard.rs against it.
use lector.Prelude.{
  ℕ, zero, suc, ◌+◌, ◌*◌, ◌/◌, ◌%◌, ◌<◌, ◌≡◌, refl, sym, ap, ◌∙◌, Bool, true, false, ◌&&◌, Option,
  none, some, [], ◌∷◌, Bytes, arith, ltb, ◌==◌, if◌then◌else◌, and_true, ==→eq,
}
use lector.Clipboard.Base64.{table, symbol}

-- Where a symbol stands in a list of symbols.
abbrev pub index_of : Bytes → ℕ → ℕ → Option ℕ
index_of [] i s = none
index_of (x ∷ xs) i s = if s == x then some i else index_of xs (suc i) s

unfoldable pub value : ℕ → Option ℕ
value s = index_of table 0 s

-- Four symbols, of which the last one or the last two may be padding.
abbrev pub decode_quad : Option ℕ → Option ℕ → Option ℕ → Option ℕ → Bytes → Option Bytes
decode_quad (some x) (some y) (some z) (some w) rest =
    some ((x * 4 + y / 16) ∷ (y % 16 * 16 + z / 4) ∷ (z % 4 * 64 + w) ∷ rest)
decode_quad (some x) (some y) (some z) none [] =
    some ((x * 4 + y / 16) ∷ (y % 16 * 16 + z / 4) ∷ [])
decode_quad (some x) (some y) none none [] = some ((x * 4 + y / 16) ∷ [])
decode_quad _ _ _ _ _ = none

-- A symbol is in the alphabet or is the padding.
abbrev pub sextet : ℕ → Option (Option ℕ)
sextet s = if s == b'=' then some none else elim (value s) [ none ↦ none | some v ↦ some (some v) ]

abbrev pub decode_four :
    Option (Option ℕ)
    → Option (Option ℕ)
    → Option (Option ℕ)
    → Option (Option ℕ)
    → Option Bytes
    → Option Bytes
decode_four (some x) (some y) (some z) (some w) (some rest) = decode_quad x y z w rest
decode_four _ _ _ _ _ = none

unfoldable pub decode_base64 : Bytes → Option Bytes
decode_base64 [] = some []
decode_base64 (a ∷ b ∷ c ∷ d ∷ rest) =
    decode_four (sextet a) (sextet b) (sextet c) (sextet d) (decode_base64 rest)
decode_base64 _ = none

-- Printable, so no control byte.
abbrev pub IsPlain : ℕ → Type 0
IsPlain b = (0x20 < b) × (b < 0x7f)

is_sextet : ℕ → ℕ → Bool
is_sextet v s = elim (sextet s) [ some (some w) ↦ (w == v) && ltb 0x20 s && ltb s 0x7f | _ ↦ false ]

has_sextet : ℕ → Bool
has_sextet v = elim (symbol v) [ none ↦ false | some s ↦ is_sextet v s ]

all_below : ℕ → Bool
all_below zero = true
all_below (suc n) = has_sextet n && all_below n

all_below_64 : all_below 64 ≡ true
unfolding all_below has_sextet is_sextet symbol value
all_below_64 = refl

pub record HasSextet (v : ℕ) : Type 0 where
  pub symbol_of : ℕ
  pub at : symbol v ≡ some symbol_of
  pub back : sextet symbol_of ≡ some (some v)
  pub plain : IsPlain symbol_of

all_below-has_sextet : (n v : ℕ) → all_below n ≡ true → v < n → has_sextet v ≡ true
unfolding all_below
all_below-has_sextet zero v h l = absurd (omega arith)
all_below-has_sextet (suc n) v h l =
    let (here, below) = and_true (has_sextet n) (all_below n) h in
    elim (n == v) as (λ b. (n == v) ≡ b → has_sextet v ≡ true) [
      | true ↦ λ e. ap has_sextet (sym (==→eq n v e)) ∙ here
      | false ↦ λ e. all_below-has_sextet n v below (ground arith)
    ]
      refl

is_sextet-back : (v s : ℕ) → is_sextet v s ≡ true → (sextet s ≡ some (some v)) × IsPlain s
unfolding is_sextet
is_sextet-back v s h = from (sextet s) refl h
  where
    from :
        (o : Option (Option ℕ))
        → sextet s ≡ o
        → (elim o as (λ _. Bool) [
          | some (some w) ↦ (w == v) && ltb 0x20 s && ltb s 0x7f
          | _ ↦ false
        ])
          ≡ true
        → (sextet s ≡ some (some v)) × IsPlain s
    from (some (some w)) e k =
        let (same, low, high) : (w ≡ v) × (0x20 < s) × (s < 0x7f) = ground arith in
        (e ∙ ap (λ x. some (some x)) same, (low, high))
    from (some none) e k = cc k
    from none e k = cc k

pub symbol-HasSextet : (v : ℕ) → v < 64 → HasSextet v
unfolding has_sextet
symbol-HasSextet v h = from (symbol v) refl (all_below-has_sextet 64 v all_below_64 h)
  where
    from :
        (o : Option ℕ)
        → symbol v ≡ o
        → (elim o as (λ _. Bool) [ none ↦ false | some s ↦ is_sextet v s ]) ≡ true
        → HasSextet v
    from none e k = cc k
    from (some s) e k =
        let (b, p) = is_sextet-back v s k in record { symbol_of = s; at = e; back = b; plain = p }

pub decode_base64_nil : decode_base64 [] ≡ some []
unfolding decode_base64
decode_base64_nil = refl

pub decode_base64-cons :
    (a b c d : ℕ) (rest bs : Bytes) {x y z w : Option ℕ}
    → sextet a ≡ some x
    → sextet b ≡ some y
    → sextet c ≡ some z
    → sextet d ≡ some w
    → decode_base64 rest ≡ some bs
    → decode_base64 (a ∷ b ∷ c ∷ d ∷ rest) ≡ decode_quad x y z w bs
unfolding decode_base64
decode_base64-cons a b c d rest bs h i j k l = rw (h, i, j, k, l) refl
