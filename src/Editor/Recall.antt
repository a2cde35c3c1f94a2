-- ===== src/Editor/Recall.antt =====
-- The place in the history that `LineEditor` of src/line_editor.rs shows, through all of its input.
use lector.Prelude.{
  ℕ, ◌+◌, ◌-◌, ◌<◌, ◌≤◌, ◌≡◌, sym, ap, ◌∙◌, Bool, true, false, not, ◌&&◌, ◌||◌, Option, none, some,
  List, [], ◌∷◌, ◌++◌, Bytes, arith, ltb, leb, ◌==◌, is_empty, if◌then◌else◌, if_cases, length,
  get_elem?, get_elem?-lt,
}
use lector.Editor.Text.{
  Unicode, LineEditor, InputState, normal, esc, csi, ss3, EditorAction, unchanged, insert_str,
  backspace, delete, move_word_left, erase_word_left,
}
use lector.Editor.Boundaries.{IsSegmentation}
use lector.Editor.Edits.{
  Recalls, IndexIn, KeepsEdit, KeepsDone, move_left-Recalls, move_right-Recalls,
  insert_str-KeepsEdit, backspace-KeepsEdit, delete-KeepsDone, move_word_left-KeepsEdit,
  move_word_right-Recalls, erase_word_left-KeepsDone,
}
use lector.Editor.History.{
  told, show, show_entry, history_up, history_down, handle_history_up, handle_history_down,
}
use lector.Editor.Input.{
  Handled, to_start, to_end, handle_backspace, handle_byte, handle_esc, handle_csi_tilde,
  handle_final, drop_csi_buf, handle_csi, handle_ss3, handle_in, is_submit, handle_all, changed_by,
  in_normal, changed_or_not, handle_bytes, parse_csi_param,
}

-- No panic, and then the same of the new state.
pub data KeepsRecall (history : List Bytes) : Handled → Type 0 where
  keeps :
      {action : EditorAction} {e : LineEditor}
      → Recalls history e
      → KeepsRecall history (some (action, e))

later : (n index : ℕ) → leb n (index + 1) ≡ false → index + 1 < n
later n index f = ground arith

pub length_pos : (xs : List Bytes) → is_empty xs ≡ false → 1 ≤ length xs
length_pos [] h = cc h
length_pos (x ∷ xs) h = omega arith

module _ (U : Unicode) (law : IsSegmentation U) (history : List Bytes) where
  show_entry-KeepsDone :
      (e : LineEditor) (i : ℕ)
      → e.history ≡ history
      → i < length history
      → KeepsDone history (show_entry U e i)
  show_entry-KeepsDone e i h b =
      let (x, at) = get_elem?-lt history i b in
      let at' : get_elem? e.history i ≡ some x = ap (λ xs. get_elem? xs i) h ∙ at in
      rw (at', KeepsDone) (h, b)

  history_up-KeepsDone : (e : LineEditor) → Recalls history e → KeepsDone history (history_up U e)
  unfolding history_up
  history_up-KeepsDone e k =
      if_cases (KeepsDone history) (is_empty e.history) (some (false, e)) _ (λ _. k)
        (λ f. from e.history_index (ap is_empty (sym k.0) ∙ f) k.1)
    where
      from :
          (o : Option ℕ)
          → is_empty history ≡ false
          → IndexIn history o
          → KeepsDone history (elim o as (λ _. Option (Bool × LineEditor)) [
            | some index ↦ show_entry U e (index - 1)
            | none ↦ show_entry U (record e { history_draft = e.input }) (length e.history - 1)
          ])
      from none f i =
          show_entry-KeepsDone (record e { history_draft = e.input }) (length e.history - 1) k.0
            (omega (arith, ap length k.0, length_pos history f))
      from (some index) f i = show_entry-KeepsDone e (index - 1) k.0 (omega arith)

  history_down-KeepsDone :
      (e : LineEditor) → Recalls history e → KeepsDone history (history_down U e)
  unfolding history_down
  history_down-KeepsDone e k = from e.history_index k.1
    where
      from :
          (o : Option ℕ)
          → IndexIn history o
          → KeepsDone history (elim o as (λ _. Option (Bool × LineEditor)) [
            | none ↦ some (false, e)
            | some index ↦
                if leb (length e.history) (index + 1)
                then some (true, show U (record e { history_index = none }) e.history_draft)
                else show_entry U e (index + 1)
          ])
      from none i = k
      from (some index) i =
          if_cases (KeepsDone history) (leb (length e.history) (index + 1)) _
            (show_entry U e (index + 1)) (λ _. (k.0, tt))
            (λ f.
              show_entry-KeepsDone e (index + 1) k.0
                (omega (arith, ap length k.0, later (length e.history) index f)))

  told-KeepsRecall :
      (o : Option (Bool × LineEditor)) → KeepsDone history o → KeepsRecall history (told U o)
  told-KeepsRecall none k = absurd k
  told-KeepsRecall (some (done, e)) k = keeps k

  changed_by-KeepsRecall :
      (o : Option LineEditor) → KeepsEdit history o → KeepsRecall history (changed_by U o)
  changed_by-KeepsRecall none k = absurd k
  changed_by-KeepsRecall (some e) k = keeps k

  in_normal-KeepsRecall :
      (o : Handled) → KeepsRecall history o → KeepsRecall history (in_normal U o)
  in_normal-KeepsRecall _ (keeps k) = keeps k

  changed_or_not-KeepsRecall :
      (o : Option (Bool × LineEditor))
      → KeepsDone history o
      → KeepsRecall history (changed_or_not U o)
  changed_or_not-KeepsRecall none k = absurd k
  changed_or_not-KeepsRecall (some (done, e)) k = keeps k

  up : (e : LineEditor) → Recalls history e → KeepsRecall history (handle_history_up U e)
  unfolding handle_history_up
  up e k = told-KeepsRecall (history_up U e) (history_up-KeepsDone e k)

  down : (e : LineEditor) → Recalls history e → KeepsRecall history (handle_history_down U e)
  unfolding handle_history_down
  down e k = told-KeepsRecall (history_down U e) (history_down-KeepsDone e k)

  either :
      (b : Bool) (x y : Handled)
      → KeepsRecall history x
      → KeepsRecall history y
      → KeepsRecall history (if b then x else y)
  either b x y h k = if_cases (KeepsRecall history) b x y (λ _. h) (λ _. k)

  erased : (e : LineEditor) → Recalls history e → KeepsRecall history (told U (erase_word_left U e))
  erased e k = told-KeepsRecall (erase_word_left U e) (erase_word_left-KeepsDone U law history e k)

  typed :
      (e : LineEditor) (text : Bytes)
      → Recalls history e
      → KeepsRecall history (changed_by U (insert_str U e text))
  typed e text k =
      changed_by-KeepsRecall (insert_str U e text) (insert_str-KeepsEdit U law history e text k)

  handle_backspace-KeepsRecall :
      (e : LineEditor) → Recalls history e → KeepsRecall history (handle_backspace U e)
  unfolding handle_backspace
  handle_backspace-KeepsRecall e k = either (e.cursor == 0 && is_empty e.input) _ _ (keeps k) (
      either (e.cursor == 0) _ _ (keeps k)
        (changed_by-KeepsRecall (backspace U e) (backspace-KeepsEdit U law history e k)))

  handle_byte-KeepsRecall :
      (e : LineEditor) (b : ℕ) → Recalls history e → KeepsRecall history (handle_byte U e b)
  unfolding handle_byte to_end
  handle_byte-KeepsRecall e b k = either (b == 0x1b) _ _ (keeps k) (
      either (b == 0x01) _ _ (keeps k) (
        either (b == 0x05) _ _ (keeps k) (
          either (b == 0x10) _ _ (up e k) (
            either (b == 0x0e) _ _ (down e k) (
              either (b == 0x17) _ _ (erased e k) (
                either (b == b'\r' || b == b'\n') _ _ (keeps k) (
                  either (b == 0x7f || b == 0x08) _ _ (handle_backspace-KeepsRecall e k)
                    (either (leb 0x20 b && ltb b 0x7f) _ _ (typed e (b ∷ []) k) (keeps k)))))))))

  handle_esc-KeepsRecall :
      (e : LineEditor) (b : ℕ) → Recalls history e → KeepsRecall history (handle_esc U e b)
  unfolding handle_esc
  handle_esc-KeepsRecall e b k = either (b == b'[') _ _ (keeps k) (
      either (b == b'O') _ _ (keeps k) (
        either (b == b'b') _ _
          (in_normal-KeepsRecall (changed_by U (move_word_left U e)) (
            changed_by-KeepsRecall (move_word_left U e)
              (move_word_left-KeepsEdit U law history e k)))
          (either (b == b'f') _ _ (keeps (move_word_right-Recalls U law history e k)) (
            either (b == 0x7f || b == 0x08) _ _
              (in_normal-KeepsRecall (told U (erase_word_left U e)) (erased e k)) (keeps k)))))

  handle_csi_tilde-KeepsDone :
      (e : LineEditor) → Recalls history e → KeepsDone history (handle_csi_tilde U e)
  unfolding handle_csi_tilde to_end
  handle_csi_tilde-KeepsDone e k = from (parse_csi_param e)
    where
      from :
          (o : Option ℕ)
          → KeepsDone history (elim o as (λ _. Option (Bool × LineEditor)) [
            | none ↦ some (false, e)
            | some n ↦
                if n == 1 || n == 7
                then some (true, to_start U e)
                else if n == 4 || n == 8
                then some (true, to_end U e)
                else if n == 3
                then delete U e
                else some (false, e)
          ])
      from none = k
      from (some n) =
          if_cases (KeepsDone history) (n == 1 || n == 7) (some (true, to_start U e)) _ (λ _. k)
            (λ _.
              if_cases (KeepsDone history) (n == 4 || n == 8) (some (true, to_end U e)) _ (λ _. k)
                (λ _.
                  if_cases (KeepsDone history) (n == 3) (delete U e) (some (false, e))
                    (λ _. delete-KeepsDone U law history e k) (λ _. k)))

  handle_final-KeepsRecall :
      (e : LineEditor) (b : ℕ) (other : Handled)
      → Recalls history e
      → KeepsRecall history other
      → KeepsRecall history (handle_final U e b other)
  unfolding handle_final to_end
  handle_final-KeepsRecall e b other k h =
      either (b == b'D') _ _ (keeps (move_left-Recalls U law history e k)) (
        either (b == b'C') _ _ (keeps (move_right-Recalls U law history e k)) (
          either (b == b'A') _ _ (up e k) (
            either (b == b'B') _ _ (down e k)
              (either (b == b'H') _ _ (keeps k) (either (b == b'F') _ _ (keeps k) h)))))

  drop_csi_buf-KeepsRecall :
      (o : Handled) → KeepsRecall history o → KeepsRecall history (drop_csi_buf U o)
  drop_csi_buf-KeepsRecall _ (keeps k) = keeps k

  handle_csi-KeepsRecall :
      (e : LineEditor) (b : ℕ) → Recalls history e → KeepsRecall history (handle_csi U e b)
  unfolding handle_csi
  handle_csi-KeepsRecall e b k =
      let e' : LineEditor = record e { csi_buf = e.csi_buf ++ b ∷ []; state = normal } in
      either (not (leb 0x40 b && leb b 0x7e)) _ _ (keeps k) (
        drop_csi_buf-KeepsRecall _ (
          handle_final-KeepsRecall e' b _ k (
            either (b == b'~') _ _
              (changed_or_not-KeepsRecall (handle_csi_tilde U e') (handle_csi_tilde-KeepsDone e' k))
              (keeps k))))

  handle_in-KeepsRecall :
      (s : InputState) (e : LineEditor) (b : ℕ)
      → Recalls history e
      → KeepsRecall history (handle_in U s e b)
  unfolding handle_in handle_ss3
  handle_in-KeepsRecall normal e b k = handle_byte-KeepsRecall e b k
  handle_in-KeepsRecall esc e b k = handle_esc-KeepsRecall e b k
  handle_in-KeepsRecall csi e b k = handle_csi-KeepsRecall e b k
  handle_in-KeepsRecall ss3 e b k =
      handle_final-KeepsRecall (record e { state = normal }) b _ k (keeps k)

  handle_all-KeepsRecall :
      (action : EditorAction) (e : LineEditor) (bs : Bytes)
      → Recalls history e
      → KeepsRecall history (handle_all U action e bs)
  unfolding handle_all
  handle_all-KeepsRecall action e [] k = keeps k
  handle_all-KeepsRecall action e (b ∷ bs) k =
      from (handle_in U e.state e b) (handle_in-KeepsRecall e.state e b k)
        (λ a e' h. handle_all-KeepsRecall a e' bs h)
    where
      from :
          (o : Handled)
          → KeepsRecall history o
          → ((a : EditorAction) (e' : LineEditor)
              → Recalls history e'
              → KeepsRecall history (handle_all U a e' bs))
          → KeepsRecall history (elim o as (λ _. Handled) [
            | none ↦ none
            | some (action', e') ↦
                let rest = handle_all U action' e' bs in
                if is_submit U action' then some (action', e') else rest
          ])
      from _ (keeps {action = a} {e = e'} h) ih = either (is_submit U a) _ _ (keeps h) (ih a e' h)

  -- If the graphemes of a text make up the text and none of them begins with a continuation byte but
  -- perhaps the first, then whatever bytes come, in whatever state and with the cursor anywhere,
  -- `handle_bytes` returns: no index into the graphemes or the history is out of range, and no text
  -- is cut or extended out of its range, off the boundary of a character or with the ends reversed.
  -- The history is the one from before, and an entry that is shown is one of it, if one was before.
  pub handle_bytes-KeepsRecall :
      (e : LineEditor) (bs : Bytes) → Recalls history e → KeepsRecall history (handle_bytes U e bs)
  unfolding handle_bytes
  handle_bytes-KeepsRecall e bs k = handle_all-KeepsRecall unchanged e bs k
