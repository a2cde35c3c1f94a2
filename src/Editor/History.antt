-- ===== src/Editor/History.antt =====
-- The history of `LineEditor` in src/line_editor.rs. An index that is out of range gives `none`.
use lector.Prelude.{
  ℕ, ◌+◌, ◌-◌, Bool, true, false, ◌||◌, Option, none, some, List, [], ◌∷◌, ◌++◌, Bytes, leb,
  is_empty, if◌then◌else◌, length, get_elem?, bytes_eq, starts_with,
}
use lector.Editor.Text.{Unicode, LineEditor, EditorAction, changed, bell}

abbrev pub last : List Bytes → Option Bytes
last [] = none
last (x ∷ []) = some x
last (x ∷ y ∷ ys) = last (y ∷ ys)

abbrev pub repeats : List Bytes → Bytes → Bool
repeats history line = elim (last history) [ none ↦ false | some entry ↦ bytes_eq entry line ]

module _ (U : Unicode) where
  abbrev pub ignored : List Bytes → Bytes → Bool
  ignored history line = U.is_blank line || starts_with (b' ' ∷ []) line || repeats history line

  unfoldable pub commit_history_entry : LineEditor → Bytes → LineEditor
  commit_history_entry e line = record e {
    history = if ignored e.history line then e.history else e.history ++ line ∷ [];
    history_index = none;
    history_draft = [];
  }

  unfoldable pub commit_history : LineEditor → LineEditor
  unfolding commit_history_entry
  commit_history e = commit_history_entry e e.input

  unfoldable pub set_history : LineEditor → List Bytes → LineEditor
  set_history e history = record e { history = history; history_index = none; history_draft = [] }

  -- The entry becomes the text, and the cursor stands behind it.
  abbrev pub show : LineEditor → Bytes → LineEditor
  show e text = record e { input = text; cursor = length (U.graphemes text) }

  abbrev pub show_entry : LineEditor → ℕ → Option (Bool × LineEditor)
  show_entry e next_index = elim (get_elem? e.history next_index) [
    | none ↦ none
    | some text ↦ some (true, show (record e { history_index = some next_index }) text)
  ]

  unfoldable pub history_up : LineEditor → Option (Bool × LineEditor)
  history_up e = if is_empty e.history then some (false, e) else elim e.history_index [
    | some index ↦ show_entry e (index - 1)
    | none ↦ show_entry (record e { history_draft = e.input }) (length e.history - 1)
  ]

  unfoldable pub history_down : LineEditor → Option (Bool × LineEditor)
  history_down e = elim e.history_index [
    | none ↦ some (false, e)
    | some index ↦
        if leb (length e.history) (index + 1)
        then some (true, show (record e { history_index = none }) e.history_draft)
        else show_entry e (index + 1)
  ]

  abbrev pub changed_or_bell : Bool × LineEditor → EditorAction × LineEditor
  changed_or_bell (done, e) = (if done then changed else bell, e)

  abbrev pub told : Option (Bool × LineEditor) → Option (EditorAction × LineEditor)
  told none = none
  told (some result) = some (changed_or_bell result)

  unfoldable pub handle_history_up : LineEditor → Option (EditorAction × LineEditor)
  unfolding history_up
  handle_history_up e = told (history_up e)

  unfoldable pub handle_history_down : LineEditor → Option (EditorAction × LineEditor)
  unfolding history_down
  handle_history_down e = told (history_down e)
