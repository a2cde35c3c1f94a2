-- ===== src/Editor/Edits.antt =====
-- The edits of `LineEditor` in src/line_editor.rs do not panic, and leave the history.
use lector.Prelude.{
  ℕ, zero, suc, ◌+◌, ◌-◌, ◌<◌, ◌≤◌, ◌≡◌, refl, min, Bool, false, not, Option, none, some, List,
  Bytes, arith, ltb, leb, ◌==◌, if_cases, length, get_elem?-lt,
}
use lector.Editor.Text.{
  Unicode, LineEditor, back_while, is_word_grapheme, word_start, len_graphemes, move_left,
  move_right, insert_str, backspace, delete, move_word_left, move_word_right, erase_back_to,
  erase_word_left,
}
use lector.Editor.Boundaries.{IsSegmentation, inserted_at-byte_index, without_range-byte_index}

abbrev pub IndexIn : List Bytes → Option ℕ → Type 0
IndexIn history none = Unit
IndexIn history (some index) = index < length history

-- The history is `history`, and the entry shown is one of it.
abbrev pub Recalls : List Bytes → LineEditor → Type 0
Recalls history e = (e.history ≡ history) × IndexIn history e.history_index

-- No panic, and then the same of the new state.
abbrev pub KeepsEdit : List Bytes → Option LineEditor → Type 0
KeepsEdit history none = ⊥
KeepsEdit history (some e) = Recalls history e

abbrev pub KeepsDone : List Bytes → Option (Bool × LineEditor) → Type 0
KeepsDone history none = ⊥
KeepsDone history (some (done, e)) = Recalls history e

back_while-le :
    (test : Bytes → Bool) (pieces : List Bytes) (n : ℕ)
    → n ≤ length pieces
    → (i : ℕ) × (i ≤ n) × (back_while test pieces n ≡ some i)
back_while-le test pieces zero h = (0, omega arith, refl)
back_while-le test pieces (suc n) h =
    let (piece, at) = get_elem?-lt pieces n (omega arith) in
    let (i, le, eq) = back_while-le test pieces n (omega arith) in
    rw (at, back_while)
      (if_cases (λ (o : Option ℕ). (i : ℕ) × (i ≤ suc n) × (o ≡ some i)) (test piece)
        (back_while test pieces n) (some (suc n)) (λ _. (i, omega arith, eq))
        (λ _. (suc n, omega arith, refl)))

word_start-le :
    (U : Unicode) (pieces : List Bytes) (n : ℕ)
    → n ≤ length pieces
    → (i : ℕ) × (i ≤ n) × (word_start U pieces n ≡ some i)
word_start-le U pieces n h =
    let (s, s_le, s_eq) = back_while-le (λ g. not (is_word_grapheme U g)) pieces n h in
    let (i, i_le, i_eq) = back_while-le (is_word_grapheme U) pieces s (omega arith) in
    (i, omega arith, rw (s_eq, word_start) i_eq)

-- `move_word_left` does not panic, and moves the cursor to the left if at all.
move_word_left-le :
    (U : Unicode) (e : LineEditor)
    → (i : ℕ) × (i ≤ e.cursor) × (move_word_left U e ≡ some (record e { cursor = i }))
unfolding move_word_left
move_word_left-le U e =
    let pieces = U.graphemes e.input in
    if_cases
      (λ (o : Option LineEditor). (i : ℕ) × (i ≤ e.cursor) × (o ≡ some (record e { cursor = i })))
      (e.cursor == 0) (some e) _ (λ _. (e.cursor, omega arith, refl))
      (λ _.
        let (i, le, eq) = word_start-le U pieces (min e.cursor (length pieces)) (omega arith) in
        (i, omega arith, rw (eq) refl))

module _ (U : Unicode) (law : IsSegmentation U) (history : List Bytes) where
  pub move_left-Recalls : (e : LineEditor) → Recalls history e → Recalls history (move_left U e)
  unfolding move_left
  move_left-Recalls e k = if_cases (Recalls history) (ltb 0 e.cursor) _ _ (λ _. k) (λ _. k)

  pub move_right-Recalls : (e : LineEditor) → Recalls history e → Recalls history (move_right U e)
  unfolding move_right
  move_right-Recalls e k =
      if_cases (Recalls history) (ltb e.cursor (len_graphemes U e)) _ _ (λ _. k) (λ _. k)

  pub insert_str-KeepsEdit :
      (e : LineEditor) (s : Bytes) → Recalls history e → KeepsEdit history (insert_str U e s)
  unfolding insert_str
  insert_str-KeepsEdit e s k = rw (inserted_at-byte_index U law e e.cursor s, KeepsEdit) k

  pub backspace-KeepsEdit : (e : LineEditor) → Recalls history e → KeepsEdit history (backspace U e)
  unfolding backspace
  backspace-KeepsEdit e k =
      if_cases (KeepsEdit history) (e.cursor == 0) (some e) _ (λ _. k)
        (λ _.
          rw (without_range-byte_index U law e (e.cursor - 1) e.cursor (omega arith), KeepsEdit) k)

  pub delete-KeepsDone : (e : LineEditor) → Recalls history e → KeepsDone history (delete U e)
  unfolding delete
  delete-KeepsDone e k =
      if_cases (KeepsDone history) (leb (len_graphemes U e) e.cursor) (some (false, e)) _ (λ _. k)
        (λ _.
          rw (without_range-byte_index U law e e.cursor (e.cursor + 1) (omega arith), KeepsDone) k)

  pub move_word_left-KeepsEdit :
      (e : LineEditor) → Recalls history e → KeepsEdit history (move_word_left U e)
  move_word_left-KeepsEdit e k = let (i, le, eq) = move_word_left-le U e in rw (eq, KeepsEdit) k

  pub move_word_right-Recalls :
      (e : LineEditor) → Recalls history e → Recalls history (move_word_right U e)
  unfolding move_word_right
  move_word_right-Recalls e k =
      if_cases (Recalls history) (leb (length (U.graphemes e.input)) e.cursor) _ _ (λ _. k) (λ _. k)

  erase_back_to-KeepsDone :
      (e moved : LineEditor)
      → moved.cursor ≤ e.cursor
      → Recalls history moved
      → KeepsDone history (erase_back_to U e moved)
  unfolding erase_back_to
  erase_back_to-KeepsDone e moved h k =
      if_cases (KeepsDone history) (moved.cursor == e.cursor) (some (false, moved)) _ (λ _. k)
        (λ _. rw (without_range-byte_index U law e moved.cursor e.cursor h, KeepsDone) k)

  pub erase_word_left-KeepsDone :
      (e : LineEditor) → Recalls history e → KeepsDone history (erase_word_left U e)
  unfolding erase_word_left
  erase_word_left-KeepsDone e k =
      let (i, le, eq) = move_word_left-le U e in
      if_cases (KeepsDone history) (e.cursor == 0) (some (false, e)) _ (λ _. k)
        (λ _. rw (eq, KeepsDone) (erase_back_to-KeepsDone e (record e { cursor = i }) le k))
