-- ===== src/Editor/Input.antt =====
-- The input of `LineEditor` in src/line_editor.rs: bytes, escape sequences and keys. `none` is a panic.
use lector.Prelude.{
  ℕ, ◌+◌, ◌-◌, ◌*◌, min, Bool, true, false, not, ◌&&◌, ◌||◌, Option, none, some, [], ◌∷◌, ◌++◌,
  Bytes, ltb, leb, ◌==◌, is_empty, is_ascii_digit, if◌then◌else◌,
}
use lector.Editor.Text.{
  Unicode, LineEditor, InputState, normal, esc, csi, ss3, EditorAction, unchanged, changed, submit,
  bell, len_graphemes, move_left, move_right, insert_str, backspace, delete, move_word_left,
  move_word_right, erase_word_left,
}
use lector.Editor.History.{told, handle_history_up, handle_history_down}

abbrev pub Handled : Type 0
Handled = Option (EditorAction × LineEditor)

abbrev pub u16_max : ℕ
u16_max = 65535

-- The digits so far, with the saturating operations of `u16`.
abbrev pub csi_digits : Bytes → ℕ → Bool → Option ℕ
csi_digits [] v saw = if saw then some v else none
csi_digits (b ∷ bs) v saw =
    let digit = csi_digits bs (min u16_max (min u16_max (v * 10) + (b - b'0'))) true in
    let other = csi_digits bs v saw in
    if is_ascii_digit b then digit else if b == b';' then (if saw then some v else none) else other

abbrev pub parse_csi_param : LineEditor → Option ℕ
parse_csi_param e = csi_digits e.csi_buf 0 false

module _ (U : Unicode) where
  abbrev pub to_start : LineEditor → LineEditor
  to_start e = record e { cursor = 0 }

  unfoldable pub to_end : LineEditor → LineEditor
  unfolding len_graphemes
  to_end e = record e { cursor = len_graphemes U e }

  abbrev pub with_state : InputState → LineEditor → LineEditor
  with_state s e = record e { state = s }

  -- The editor that an edit gives has changed.
  abbrev pub changed_by : Option LineEditor → Handled
  changed_by none = none
  changed_by (some e) = some (changed, e)

  -- The editor that is handled is back in the normal state.
  abbrev pub in_normal : Handled → Handled
  in_normal none = none
  in_normal (some (action, e)) = some (action, with_state normal e)

  unfoldable pub handle_text : LineEditor → Bytes → Handled
  unfolding insert_str
  handle_text e text =
      if is_empty text then some (unchanged, e) else changed_by (insert_str U e text)

  unfoldable pub handle_backspace : LineEditor → Handled
  unfolding backspace
  handle_backspace e =
      if e.cursor == 0 && is_empty e.input
      then some (bell, e)
      else if e.cursor == 0
      then some (unchanged, e)
      else changed_by (backspace U e)

  unfoldable pub handle_byte : LineEditor → ℕ → Handled
  unfolding to_end handle_history_up handle_history_down erase_word_left handle_backspace insert_str
  handle_byte e byte =
      if byte == 0x1b
      then some (unchanged, record e { state = esc })
      else if byte == 0x01
      then some (changed, to_start e)
      else if byte == 0x05
      then some (changed, to_end e)
      else if byte == 0x10
      then handle_history_up U e
      else if byte == 0x0e
      then handle_history_down U e
      else if byte == 0x17
      then told U (erase_word_left U e)
      else if byte == b'\r' || byte == b'\n'
      then some (submit, e)
      else if byte == 0x7f || byte == 0x08
      then handle_backspace e
      else if leb 0x20 byte && ltb byte 0x7f
      then changed_by (insert_str U e (byte ∷ []))
      else some (unchanged, e)

  unfoldable pub handle_esc : LineEditor → ℕ → Handled
  unfolding move_word_left move_word_right erase_word_left
  handle_esc e byte =
      if byte == b'['
      then some (unchanged, record e { state = csi; csi_buf = [] })
      else if byte == b'O'
      then some (unchanged, record e { state = ss3 })
      else if byte == b'b'
      then in_normal (changed_by (move_word_left U e))
      else if byte == b'f'
      then some (changed, with_state normal (move_word_right U e))
      else if byte == 0x7f || byte == 0x08
      then in_normal (told U (erase_word_left U e))
      else some (unchanged, record e { state = normal })

  abbrev pub changed_or_not : Option (Bool × LineEditor) → Handled
  changed_or_not none = none
  changed_or_not (some (done, e)) = some (if done then changed else unchanged, e)

  unfoldable pub handle_csi_tilde : LineEditor → Option (Bool × LineEditor)
  unfolding to_end delete
  handle_csi_tilde e = elim (parse_csi_param e) [
    | none ↦ some (false, e)
    | some n ↦
        if n == 1 || n == 7
        then some (true, to_start e)
        else if n == 4 || n == 8
        then some (true, to_end e)
        else if n == 3
        then delete U e
        else some (false, e)
  ]

  -- The final bytes that CSI and SS3 sequences share.
  unfoldable pub handle_final : LineEditor → ℕ → Handled → Handled
  unfolding move_left move_right handle_history_up handle_history_down to_end
  handle_final e byte other =
      if byte == b'D'
      then some (changed, move_left U e)
      else if byte == b'C'
      then some (changed, move_right U e)
      else if byte == b'A'
      then handle_history_up U e
      else if byte == b'B'
      then handle_history_down U e
      else if byte == b'H'
      then some (changed, to_start e)
      else if byte == b'F'
      then some (changed, to_end e)
      else other

  abbrev pub drop_csi_buf : Handled → Handled
  drop_csi_buf none = none
  drop_csi_buf (some (action, e)) = some (action, record e { csi_buf = [] })

  unfoldable pub handle_csi : LineEditor → ℕ → Handled
  unfolding handle_final handle_csi_tilde
  handle_csi e byte =
      let pushed : LineEditor = record e { csi_buf = e.csi_buf ++ byte ∷ [] } in
      let e' = with_state normal pushed in
      if not (leb 0x40 byte && leb byte 0x7e)
      then some (unchanged, pushed)
      else drop_csi_buf (
          handle_final e' byte
            (if byte == b'~' then changed_or_not (handle_csi_tilde e') else some (unchanged, e')))

  unfoldable pub handle_ss3 : LineEditor → ℕ → Handled
  unfolding handle_final
  handle_ss3 e byte = let e' = with_state normal e in handle_final e' byte (some (unchanged, e'))

  unfoldable pub handle_in : InputState → LineEditor → ℕ → Handled
  unfolding handle_byte handle_esc handle_csi handle_ss3
  handle_in normal e byte = handle_byte e byte
  handle_in esc e byte = handle_esc e byte
  handle_in csi e byte = handle_csi e byte
  handle_in ss3 e byte = handle_ss3 e byte

  abbrev pub is_submit : EditorAction → Bool
  is_submit submit = true
  is_submit _ = false

  -- The loop: a submitted line ends it, and the bytes behind are dropped.
  unfoldable pub handle_all : EditorAction → LineEditor → Bytes → Handled
  unfolding handle_in
  handle_all action e [] = some (action, e)
  handle_all action e (byte ∷ bs) = elim (handle_in e.state e byte) [
    | none ↦ none
    | some (action', e') ↦
        let rest = handle_all action' e' bs in
        if is_submit action' then some (action', e') else rest
  ]

  unfoldable pub handle_bytes : LineEditor → Bytes → Handled
  unfolding handle_all
  handle_bytes e bs = handle_all unchanged e bs
