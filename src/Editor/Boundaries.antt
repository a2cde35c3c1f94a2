-- ===== src/Editor/Boundaries.antt =====
-- The indexes that `LineEditor` of src/line_editor.rs makes of its graphemes.
use lector.Prelude.{
  ℕ, zero, suc, ◌+◌, ◌≤◌, ◌≡◌, refl, ap, ◌∙◌, subst, true, List, [], ◌∷◌, ◌++◌, Bytes, arith, ltb,
  leb, if_cases, length, length-append, drop, some, take,
}
use lector.Editor.Text.{
  Unicode, LineEditor, offset_of, starts_char, is_char_boundary, inserted_at, without_range,
  byte_index,
}

abbrev pub join : List Bytes → Bytes
join [] = []
join (piece ∷ pieces) = piece ++ join pieces

abbrev pub StartChars : List Bytes → Type 0
StartChars [] = Unit
StartChars (piece ∷ pieces) = (starts_char piece ≡ true) × StartChars pieces

le→leb : (a b : ℕ) → a ≤ b → leb a b ≡ true
le→leb a b h = ground arith

-- The pieces of a text are the text, and none behind the first begins with a continuation byte.
pub record IsSegmentation (U : Unicode) : Type 0 where
  pub join-graphemes : (text : Bytes) → join (U.graphemes text) ≡ text
  pub graphemes-StartChars : (text : Bytes) → StartChars (drop 1 (U.graphemes text))

drop-append : (xs ys : Bytes) (n : ℕ) → drop (length xs + n) (xs ++ ys) ≡ drop n ys
drop-append [] ys n = let same : 0 + n ≡ n = omega arith in ap (λ k. drop k ys) same
drop-append (x ∷ xs) ys n =
    let same : suc (length xs) + n ≡ suc (length xs + n) = omega arith in
    ap (λ k. drop k (x ∷ xs ++ ys)) same ∙ drop-append xs ys n

drop-length : (xs : Bytes) → drop (length xs) xs ≡ []
drop-length [] = refl
drop-length (x ∷ xs) = drop-length xs

drop-offset_of :
    (n : ℕ) (pieces : List Bytes) → drop (offset_of n pieces) (join pieces) ≡ join (drop n pieces)
drop-offset_of zero pieces = refl
drop-offset_of (suc n) [] = refl
drop-offset_of (suc n) (piece ∷ pieces) =
    drop-append piece (join pieces) (offset_of n pieces) ∙ drop-offset_of n pieces

offset_of-le : (n : ℕ) (pieces : List Bytes) → offset_of n pieces ≤ length (join pieces)
offset_of-le zero pieces = omega arith
offset_of-le (suc n) [] = omega arith
offset_of-le (suc n) (piece ∷ pieces) =
    omega (arith, offset_of-le n pieces, length-append piece (join pieces))

offset_of_mono : (m n : ℕ) (pieces : List Bytes) → m ≤ n → offset_of m pieces ≤ offset_of n pieces
offset_of_mono zero n pieces h = omega arith
offset_of_mono (suc m) zero pieces h = absurd (omega arith)
offset_of_mono (suc m) (suc n) [] h = omega arith
offset_of_mono (suc m) (suc n) (piece ∷ pieces) h =
    omega (arith, offset_of_mono m n pieces (omega arith))

join-starts_char : (pieces : List Bytes) → StartChars pieces → starts_char (join pieces) ≡ true
join-starts_char [] h = refl
join-starts_char ([] ∷ pieces) h = join-starts_char pieces h.1
join-starts_char ((b ∷ bs) ∷ pieces) h = h.0

drop-StartChars : (n : ℕ) (pieces : List Bytes) → StartChars pieces → StartChars (drop n pieces)
drop-StartChars zero pieces h = h
drop-StartChars (suc n) [] h = h
drop-StartChars (suc n) (piece ∷ pieces) h = drop-StartChars n pieces h.1

behind_first :
    (n : ℕ) (pieces : List Bytes) → StartChars (drop 1 pieces) → StartChars (drop (suc n) pieces)
behind_first n [] h = h
behind_first n (piece ∷ pieces) h = drop-StartChars n pieces h

le-is_char_boundary :
    (text : Bytes) (n : ℕ)
    → n ≤ length text
    → starts_char (drop n text) ≡ true
    → is_char_boundary text n ≡ true
le-is_char_boundary text n h k = rw (k, is_char_boundary) (ground arith)

offset_of-is_char_boundary :
    (n : ℕ) (pieces : List Bytes)
    → StartChars (drop 1 pieces)
    → is_char_boundary (join pieces) (offset_of n pieces) ≡ true
offset_of-is_char_boundary zero pieces h = refl
offset_of-is_char_boundary (suc n) pieces h =
    le-is_char_boundary (join pieces) (offset_of (suc n) pieces) (offset_of-le (suc n) pieces) (
      ap starts_char (drop-offset_of (suc n) pieces)
      ∙ join-starts_char (drop (suc n) pieces) (behind_first n pieces h))

module _ (U : Unicode) (law : IsSegmentation U) where
  pub byte_index-is_char_boundary :
      (e : LineEditor) (i : ℕ) → is_char_boundary e.input (byte_index U e i) ≡ true
  unfolding byte_index
  byte_index-is_char_boundary e i =
      let pieces = U.graphemes e.input in
      if_cases (λ at. is_char_boundary e.input at ≡ true) (ltb i (length pieces)) _ _
        (λ _.
          subst (λ text. is_char_boundary text (offset_of i pieces) ≡ true)
            (law.join-graphemes e.input)
            (offset_of-is_char_boundary i pieces (law.graphemes-StartChars e.input)))
        (λ _.
          le-is_char_boundary e.input (length e.input) (omega arith)
            (ap starts_char (drop-length e.input)))

  pub byte_index_mono : (e : LineEditor) (i j : ℕ) → i ≤ j → byte_index U e i ≤ byte_index U e j
  unfolding byte_index
  byte_index_mono e i j h =
      let pieces = U.graphemes e.input in
      let whole : length (join pieces) ≡ length e.input = ap length (law.join-graphemes e.input) in
      if_cases (λ at. at ≤ byte_index U e j) (ltb i (length pieces)) _ _
        (λ p.
          if_cases (λ at. offset_of i pieces ≤ at) (ltb j (length pieces)) _ _
            (λ _. offset_of_mono i j pieces h) (λ _. omega (arith, offset_of-le i pieces, whole)))
        (λ f.
          if_cases (λ at. length e.input ≤ at) (ltb j (length pieces)) _ _
            (λ p. absurd (ground arith)) (λ _. omega arith))

  pub inserted_at-byte_index :
      (e : LineEditor) (i : ℕ) (s : Bytes)
      → inserted_at e.input (byte_index U e i) s
        ≡ some (take (byte_index U e i) e.input ++ s ++ drop (byte_index U e i) e.input)
  inserted_at-byte_index e i s = rw (byte_index-is_char_boundary e i, inserted_at) refl

  pub without_range-byte_index :
      (e : LineEditor) (i j : ℕ)
      → i ≤ j
      → without_range e.input (byte_index U e i) (byte_index U e j)
        ≡ some (take (byte_index U e i) e.input ++ drop (byte_index U e j) e.input)
  without_range-byte_index e i j h =
      let ordered : leb (byte_index U e i) (byte_index U e j) ≡ true =
        le→leb _ _ (byte_index_mono e i j h) in
      rw (ordered, byte_index-is_char_boundary e i, byte_index-is_char_boundary e j, without_range)
        refl
