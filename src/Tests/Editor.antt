-- ===== src/Tests/Editor.antt =====
-- Runs of the model of src/line_editor.rs, with a segmentation that takes each character for a
-- grapheme.
use lector.Prelude.{
  ℕ, ◌≡◌, ◌-◌, refl, ap, ◌∙◌, Bool, true, false, none, some, List, [], ◌∷◌, ◌++◌, Bytes, bytes, leb,
  all, ◌==◌, if◌then◌else◌, if_cases, length, get_elem?, drop,
}
use lector.Editor.Text.{Unicode, LineEditor, new_editor, changed, starts_char, without_range}
use lector.Editor.Boundaries.{join, StartChars, IsSegmentation}
use lector.Editor.History.{history_up, history_down}
use lector.Editor.Input.{handle_bytes}
use lector.Editor.Recall.{KeepsRecall, handle_bytes-KeepsRecall}
use lector.Editor.Draft.{history_down-history_up}

abbrev starts_lower : Bytes → Bool
starts_lower [] = false
starts_lower (b ∷ bs) = leb b'a' b

-- A byte joins the piece behind it if that begins with a continuation byte.
abbrev in_front : ℕ → List Bytes → List Bytes
in_front b [] = (b ∷ []) ∷ []
in_front b (piece ∷ pieces) =
    if starts_char piece then (b ∷ []) ∷ piece ∷ pieces else (b ∷ piece) ∷ pieces

abbrev characters : Bytes → List Bytes
characters [] = []
characters (b ∷ bs) = in_front b (characters bs)

join-in_front : (b : ℕ) (pieces : List Bytes) → join (in_front b pieces) ≡ b ∷ join pieces
join-in_front b [] = refl
join-in_front b (piece ∷ pieces) =
    if_cases (λ (out : List Bytes). join out ≡ b ∷ piece ++ join pieces) (starts_char piece)
      ((b ∷ []) ∷ piece ∷ pieces) ((b ∷ piece) ∷ pieces) (λ _. refl) (λ _. refl)

join-characters : (text : Bytes) → join (characters text) ≡ text
join-characters [] = refl
join-characters (b ∷ bs) =
    join-in_front b (characters bs) ∙ ap (λ text. b ∷ text) (join-characters bs)

in_front-StartChars :
    (b : ℕ) (pieces : List Bytes)
    → StartChars (drop 1 pieces)
    → StartChars (drop 1 (in_front b pieces))
in_front-StartChars b [] h = h
in_front-StartChars b (piece ∷ pieces) h =
    if_cases (λ (out : List Bytes). StartChars (drop 1 out)) (starts_char piece)
      ((b ∷ []) ∷ piece ∷ pieces) ((b ∷ piece) ∷ pieces) (λ p. (p, h)) (λ _. h)

characters-StartChars : (text : Bytes) → StartChars (drop 1 (characters text))
characters-StartChars [] = tt
characters-StartChars (b ∷ bs) = in_front-StartChars b (characters bs) (characters-StartChars bs)

abbrev plain : Unicode
plain = record {
  graphemes = characters;
  starts_alphanumeric = starts_lower;
  is_blank = all (λ b. b == b' ');
}

abbrev editor : LineEditor
editor = record new_editor { history = bytes "one" ∷ bytes "two" ∷ [] }

word_erased :
    handle_bytes plain new_editor (bytes "ab cd" ++ 0x17 ∷ [])
    ≡ some (changed, record new_editor { input = bytes "ab "; cursor = 3 })
unfolding handle_bytes
word_erased = refl

plain-IsSegmentation : IsSegmentation plain
plain-IsSegmentation = record {
  join-graphemes = join-characters;
  graphemes-StartChars = characters-StartChars;
}

-- Both bytes of the character go.
character_erased :
    handle_bytes plain
      (record new_editor { input = b'a' ∷ 0xc3 ∷ 0xa9 ∷ []; cursor = 2 })
      (0x7f ∷ [])
    ≡ some (changed, record new_editor { input = bytes "a"; cursor = 1 })
unfolding handle_bytes
character_erased = refl

cut_off_boundary : without_range (b'a' ∷ 0xc3 ∷ 0xa9 ∷ []) 1 2 ≡ none
cut_off_boundary = refl

handle_bytes-KeepsRecall_example :
    KeepsRecall editor.history
      (handle_bytes plain editor (bytes "a b" ++ 0x17 ∷ 0x7f ∷ 0x10 ∷ 0x10 ∷ 0x0e ∷ bytes "\r"))
handle_bytes-KeepsRecall_example =
    handle_bytes-KeepsRecall plain plain-IsSegmentation editor.history editor
      (bytes "a b" ++ 0x17 ∷ 0x7f ∷ 0x10 ∷ 0x10 ∷ 0x0e ∷ bytes "\r") (refl, tt)

history_down-history_up_example :
    (newest : Bytes) × (shown : LineEditor) × (get_elem? editor.history (length editor.history - 1)
      ≡ some newest)
    × (history_up plain editor ≡ some (true, shown))
    × (shown ≡ record editor {
      input = newest;
      cursor = length (plain.graphemes newest);
      history_index = some (length editor.history - 1);
      history_draft = editor.input;
    })
    × (history_down plain shown
        ≡ some (
          true,
          record editor {
            cursor = length (plain.graphemes editor.input);
            history_draft = editor.input;
          },
        ))
history_down-history_up_example = history_down-history_up plain editor refl refl
