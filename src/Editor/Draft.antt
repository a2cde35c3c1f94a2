-- ===== src/Editor/Draft.antt =====
-- The draft that `LineEditor` of src/line_editor.rs keeps while it shows the history.
use lector.Prelude.{
  ℕ, ◌+◌, ◌-◌, ◌≡◌, refl, true, false, none, some, Bytes, arith, leb, is_empty, length, get_elem?,
  get_elem?-lt,
}
use lector.Editor.Text.{Unicode, LineEditor}
use lector.Editor.History.{show, show_entry, history_up, history_down}
use lector.Editor.Recall.{length_pos}

newest_is_last : (n : ℕ) → leb n (n - 1 + 1) ≡ true
newest_is_last n = ground arith

show_entry_at :
    (U : Unicode) (e : LineEditor) (i : ℕ) (text : Bytes)
    → get_elem? e.history i ≡ some text
    → show_entry U e i ≡ some (true, show U (record e { history_index = some i }) text)
show_entry_at U e i text h = rw (h, show_entry) refl

-- From a draft, with a history that is not empty, `history_up` shows the newest entry, and
-- `history_down` then brings the draft back. In both the cursor stands behind the last grapheme, and the
-- rest of the editor is as before but for the draft that is kept.
pub history_down-history_up :
    (U : Unicode) (e : LineEditor)
    → e.history_index ≡ none
    → is_empty e.history ≡ false
    → (newest : Bytes) × (shown : LineEditor) × (get_elem? e.history (length e.history - 1)
        ≡ some newest)
      × (history_up U e ≡ some (true, shown))
      × (shown ≡ record e {
        input = newest;
        cursor = length (U.graphemes newest);
        history_index = some (length e.history - 1);
        history_draft = e.input;
      })
      × (history_down U shown
          ≡ some
              (true, record e { cursor = length (U.graphemes e.input); history_draft = e.input }))
unfolding history_up history_down
history_down-history_up U e idle f =
    let (newest, at) =
      get_elem?-lt e.history (length e.history - 1) (omega (arith, length_pos e.history f)) in
    let shown : LineEditor =
      show U (record e { history_draft = e.input; history_index = some (length e.history - 1) })
        newest in
    (
      newest,
      shown,
      at,
      rw (f, idle)
          (show_entry_at U (record e { history_draft = e.input }) (length e.history - 1) newest at),
      refl,
      rw (newest_is_last (length e.history), idle) refl,
    )
