-- ===== src/Clipboard/Ring.antt =====
-- `Clipboard` of src/clipboard.rs: a ring of texts and the selected one. A text is its UTF-8 bytes.
use lector.Prelude.{
  ℕ, ◌+◌, ◌-◌, Bool, true, false, ◌||◌, Option, none, some, List, [], ◌∷◌, ◌++◌, reverse, Bytes,
  ltb, leb, ◌==◌, is_empty, if◌then◌else◌, length, get_elem?, drop,
}
pub mod Order
pub mod Selection

abbrev pub internal_clipboard_capacity : ℕ
internal_clipboard_capacity = 10

-- The oldest text comes first.
pub record Clipboard : Type 0 where
  pub idx : ℕ
  pub clipboards : List Bytes

abbrev pub empty : Clipboard
empty = record { idx = 0; clipboards = [] }

unfoldable pub size : Clipboard → ℕ
size c = length c.clipboards

unfoldable pub get : Clipboard → Option Bytes
get c = get_elem? c.clipboards c.idx

-- `pop_front`, when the ring is full.
abbrev pub make_room : List Bytes → List Bytes
make_room texts = if leb internal_clipboard_capacity (length texts) then drop 1 texts else texts

unfoldable pub put : Clipboard → Bytes → Clipboard
put c text =
    let texts = make_room c.clipboards in
    record { idx = length texts; clipboards = texts ++ text ∷ [] }

unfoldable pub prev : Clipboard → Bool × Clipboard
unfolding size
prev c = if leb (size c) (c.idx + 1) then (false, c) else (true, record c { idx = c.idx + 1 })

unfoldable pub next : Clipboard → Bool × Clipboard
next c = if c.idx == 0 then (false, c) else (true, record c { idx = c.idx - 1 })

unfoldable pub index : Clipboard → ℕ
index c = c.idx

unfoldable pub entries : Clipboard → List Bytes
entries c = reverse c.clipboards

-- `saturating_sub` is the subtraction of the naturals.
unfoldable pub selected_index : Clipboard → Option ℕ
selected_index c = if is_empty c.clipboards then none else some (length c.clipboards - c.idx)

unfoldable pub select_index : Clipboard → ℕ → Bool × Clipboard
select_index c index =
    if index == 0 || ltb (length c.clipboards) index
    then (false, c)
    else (true, record c { idx = length c.clipboards - index })

unfoldable pub clear : Clipboard → Clipboard
clear c = record { idx = 0; clipboards = [] }
