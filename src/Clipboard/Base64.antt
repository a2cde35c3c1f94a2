-- ===== src/Clipboard/Base64.antt =====
-- `encode_base64` and `osc52_write` of src/clipboard.rs. Shifts and masks of a byte are written as
-- quotients and remainders, and an `|` of parts that share no bit as a sum.
use lector.Prelude.{
  ℕ, ◌+◌, ◌*◌, ◌/◌, ◌%◌, Bool, Option, none, some, List, [], ◌∷◌, ◌++◌, Bytes, bytes, ltb,
  if◌then◌else◌, get_elem?,
}
pub mod Decoding
pub mod RoundTrip

abbrev pub table : Bytes
table = bytes "ABCDEFGHIJKLMNOPQRSTUVWXYZabcdefghijklmnopqrstuvwxyz0123456789+/"

abbrev pub osc52_prefix : Bytes
osc52_prefix = 0x1b ∷ bytes "]52;c;"

abbrev pub osc52_suffix : Bytes
osc52_suffix = 0x1b ∷ bytes "\\"

-- An index into the table; `none` is a panic.
unfoldable pub symbol : ℕ → Option ℕ
symbol v = get_elem? table v

abbrev pub four : Option ℕ → Option ℕ → Option ℕ → Option ℕ → Option Bytes
four (some a) (some b) (some c) (some d) = some (a ∷ b ∷ c ∷ d ∷ [])
four _ _ _ _ = none

-- A chunk of `len` bytes, where a missing one is zero.
unfoldable pub encode_chunk : ℕ → ℕ → ℕ → ℕ → Option Bytes
encode_chunk len first second third =
    four (symbol (first / 4)) (symbol (first % 4 * 16 + second / 16))
      (if ltb 1 len then symbol (second % 16 * 4 + third / 64) else some b'=')
      (if ltb 2 len then symbol (third % 64) else some b'=')

abbrev pub joined : Option Bytes → Option Bytes → Option Bytes
joined (some xs) (some ys) = some (xs ++ ys)
joined _ _ = none

-- The loop over the chunks.
unfoldable pub encode_base64 : Bytes → Option Bytes
encode_base64 [] = some []
encode_base64 (a ∷ []) = encode_chunk 1 a 0 0
encode_base64 (a ∷ b ∷ []) = encode_chunk 2 a b 0
encode_base64 (a ∷ b ∷ c ∷ rest) = joined (encode_chunk 3 a b c) (encode_base64 rest)

unfoldable pub osc52_write : Bytes → Option Bytes
osc52_write text = elim (encode_base64 text) [
  | none ↦ none
  | some encoded ↦ some (osc52_prefix ++ encoded ++ osc52_suffix)
]
