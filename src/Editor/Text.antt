-- ===== src/Editor/Text.antt =====
-- The state of `LineEditor` in src/line_editor.rs, and the operations on its text. A text is its UTF-8
-- bytes. The segmentation into graphemes (the crate unicode_segmentation) and the Unicode tables of
-- `char` are a parameter. `none` is a panic: of an index or a range of a text, or of an index into the
-- graphemes.
use mathlib.Core.Option
use lector.Prelude.{
  ℕ, zero, suc, ◌+◌, ◌-◌, min, Bool, true, false, not, ◌&&◌, ◌||◌, Option, none, some, List, [],
  ◌∷◌, ◌++◌, Bytes, ltb, leb, ◌==◌, if◌then◌else◌, length, get_elem?, take, drop,
}

pub record Unicode : Type 0 where
  pub graphemes : Bytes → List Bytes
  -- the first character is alphanumeric
  pub starts_alphanumeric : Bytes → Bool
  -- there is nothing but white space
  pub is_blank : Bytes → Bool

pub data InputState : Type 0 where
  normal esc csi ss3 : InputState

-- `unchanged` is `None` in the source.
pub data EditorAction : Type 0 where
  unchanged changed submit bell : EditorAction

pub record LineEditor : Type 0 where
  pub input : Bytes
  pub cursor : ℕ
  pub state : InputState
  pub csi_buf : Bytes
  pub history : List Bytes
  pub history_index : Option ℕ
  pub history_draft : Bytes

abbrev pub new_editor : LineEditor
new_editor = record {
  input = [];
  cursor = 0;
  state = normal;
  csi_buf = [];
  history = [];
  history_index = none;
  history_draft = [];
}

unfoldable pub clear_editor : LineEditor → LineEditor
clear_editor e = record e { input = []; cursor = 0; history_index = none; history_draft = [] }

abbrev pub starts_with_underscore : Bytes → Bool
starts_with_underscore [] = false
starts_with_underscore (b ∷ bs) = b == b'_'

-- The length in bytes of the first `n` pieces; all of them if there are fewer.
abbrev pub offset_of : ℕ → List Bytes → ℕ
offset_of zero pieces = 0
offset_of (suc n) [] = 0
offset_of (suc n) (piece ∷ pieces) = length piece + offset_of n pieces

-- How many pieces the loop of `insert_str` counts, the first one from `start`.
abbrev pub count_until : ℕ → ℕ → List Bytes → ℕ
count_until inserted_end start [] = 0
count_until inserted_end start (piece ∷ pieces) =
    let rest = count_until inserted_end (start + length piece) pieces in
    if leb inserted_end (start + length piece) then 1 else suc rest

-- Backwards from `idx` while the piece before it passes the test.
abbrev pub back_while : (Bytes → Bool) → List Bytes → ℕ → Option ℕ
back_while test pieces zero = some zero
back_while test pieces (suc idx) =
    let back = back_while test pieces idx in
    elim (get_elem? pieces idx) [
      | none ↦ none
      | some piece ↦ if test piece then back else some (suc idx)
    ]

-- Not in front of a continuation byte
abbrev pub starts_char : Bytes → Bool
starts_char [] = true
starts_char (b ∷ bs) = ltb b 0x80 || leb 0xc0 b

-- str::is_char_boundary
abbrev pub is_char_boundary : Bytes → ℕ → Bool
is_char_boundary text index =
    index == 0 || (leb index (length text) && starts_char (drop index text))

-- String::insert_str
abbrev pub inserted_at : Bytes → ℕ → Bytes → Option Bytes
inserted_at text at s =
    if is_char_boundary text at then some (take at text ++ s ++ drop at text) else none

-- String::replace_range with no text
abbrev pub without_range : Bytes → ℕ → ℕ → Option Bytes
without_range text start end =
    if leb start end && (is_char_boundary text start && is_char_boundary text end)
    then some (take start text ++ drop end text)
    else none

-- How many of the pieces the loop passes.
abbrev pub run_of : (Bytes → Bool) → List Bytes → ℕ
run_of test [] = 0
run_of test (piece ∷ pieces) = let rest = run_of test pieces in if test piece then suc rest else 0

module _ (U : Unicode) where
  unfoldable pub len_graphemes : LineEditor → ℕ
  len_graphemes e = length (U.graphemes e.input)

  abbrev pub is_word_grapheme : Bytes → Bool
  is_word_grapheme grapheme = U.starts_alphanumeric grapheme || starts_with_underscore grapheme

  -- The offset of the grapheme, or the length of the text.
  unfoldable pub byte_index : LineEditor → ℕ → ℕ
  byte_index e char_index =
      if ltb char_index (length (U.graphemes e.input))
      then offset_of char_index (U.graphemes e.input)
      else length e.input

  unfoldable pub move_left : LineEditor → LineEditor
  move_left e = if ltb 0 e.cursor then record e { cursor = e.cursor - 1 } else e

  unfoldable pub move_right : LineEditor → LineEditor
  unfolding len_graphemes
  move_right e = if ltb e.cursor (len_graphemes e) then record e { cursor = e.cursor + 1 } else e

  unfoldable pub insert_str : LineEditor → Bytes → Option LineEditor
  unfolding byte_index
  insert_str e s =
      let at = byte_index e e.cursor in
      Option.map
        (λ text. record e {
          input = text;
          cursor = count_until (at + length s) 0 (U.graphemes text);
        })
        (inserted_at e.input at s)

  unfoldable pub backspace : LineEditor → Option LineEditor
  unfolding byte_index
  backspace e =
      if e.cursor == 0
      then some e
      else Option.map (λ text. record e { input = text; cursor = e.cursor - 1 })
          (without_range e.input (byte_index e (e.cursor - 1)) (byte_index e e.cursor))

  unfoldable pub delete : LineEditor → Option (Bool × LineEditor)
  unfolding byte_index len_graphemes
  delete e =
      if leb (len_graphemes e) e.cursor
      then some (false, e)
      else Option.map (λ text. (true, record e { input = text }))
          (without_range e.input (byte_index e e.cursor) (byte_index e (e.cursor + 1)))

  -- Both loops of `move_word_left`.
  abbrev pub word_start : List Bytes → ℕ → Option ℕ
  word_start pieces idx = elim (back_while (λ g. not (is_word_grapheme g)) pieces idx) [
    | none ↦ none
    | some skipped ↦ back_while is_word_grapheme pieces skipped
  ]

  unfoldable pub move_word_left : LineEditor → Option LineEditor
  move_word_left e =
      let pieces = U.graphemes e.input in
      if e.cursor == 0
      then some e
      else Option.map (λ idx. record e { cursor = idx })
          (word_start pieces (min e.cursor (length pieces)))

  unfoldable pub move_word_right : LineEditor → LineEditor
  move_word_right e =
      let pieces = U.graphemes e.input in
      if leb (length pieces) e.cursor
      then e
      else let skipped = e.cursor + run_of (λ g. not (is_word_grapheme g)) (drop e.cursor pieces) in
        record e { cursor = skipped + run_of is_word_grapheme (drop skipped pieces) }

  -- The end of `erase_word_left`, behind the move of the cursor.
  unfoldable pub erase_back_to : LineEditor → LineEditor → Option (Bool × LineEditor)
  unfolding byte_index
  erase_back_to e moved =
      if moved.cursor == e.cursor
      then some (false, moved)
      else Option.map (λ text. (true, record moved { input = text }))
          (without_range e.input (byte_index e moved.cursor) (byte_index e e.cursor))

  unfoldable pub erase_word_left : LineEditor → Option (Bool × LineEditor)
  unfolding move_word_left erase_back_to
  erase_word_left e =
      if e.cursor == 0
      then some (false, e)
      else elim (move_word_left e) [ none ↦ none | some moved ↦ erase_back_to e moved ]
