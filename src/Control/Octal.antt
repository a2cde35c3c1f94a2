-- ===== src/Control/Octal.antt =====
-- `decode_octal` of src/tmux_control.rs: tmux writes a byte as a backslash and three octal digits.
pub mod Encoding
use lector.Prelude.{
  ℕ, ◌+◌, ◌-◌, ◌*◌, Bool, ◌&&◌, List, [], ◌∷◌, Bytes, leb, ltb, ◌==◌, if◌then◌else◌,
}
use lector.Control.Data.{invalid_octal_escape, Result, ok, err, ◌>>=◌, ◌>>◌, guard}

abbrev pub is_octal_digit : ℕ → Bool
is_octal_digit b = leb b'0' b && leb b b'7'

-- `u16::from(..) * 64 + ..` of three digits; at most 511, so the u16 does not wrap.
abbrev pub octal_value : ℕ → ℕ → ℕ → ℕ
octal_value a b c = (a - b'0') * 64 + (b - b'0') * 8 + (c - b'0')

-- The value of an escape, or the error of the digits or of `u8::try_from`.
abbrev pub decode_escape : ℕ → ℕ → ℕ → Result ℕ
decode_escape a b c =
    if is_octal_digit a && is_octal_digit b && is_octal_digit c
    then (if leb (octal_value a b c) 255 then ok (octal_value a b c) else err invalid_octal_escape)
    else err invalid_octal_escape

abbrev pub cons_ok : ℕ → Result Bytes → Result Bytes
cons_ok v rest = rest >>= λ bs. ok (v ∷ bs)

-- The loop over `index`, as a recursion on the bytes from `index` on.
unfoldable pub decode_octal : Bytes → Result Bytes
decode_octal [] = ok []
decode_octal (b ∷ []) = if b == b'\\' then err invalid_octal_escape else ok (b ∷ [])
decode_octal (b ∷ d1 ∷ []) =
    let plain = cons_ok b (decode_octal (d1 ∷ [])) in
    if b == b'\\' then err invalid_octal_escape else plain
decode_octal (b ∷ d1 ∷ d2 ∷ []) =
    let plain = cons_ok b (decode_octal (d1 ∷ d2 ∷ [])) in
    if b == b'\\' then err invalid_octal_escape else plain
decode_octal (b ∷ d1 ∷ d2 ∷ d3 ∷ bs) =
    let escaped = decode_escape d1 d2 d3 >>= λ v. cons_ok v (decode_octal bs) in
    let plain = cons_ok b (decode_octal (d1 ∷ d2 ∷ d3 ∷ bs)) in
    if b == b'\\' then escaped else plain
