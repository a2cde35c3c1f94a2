-- ===== src/Topology/Lexer.antt =====
-- The lexer of reloadable `bind-key` lines in src/tmux_model.rs. Its state is the input from the offset
-- on; each operation returns what is left.
use lector.Prelude.{
  ℕ, Bool, true, false, not, ◌&&◌, ◌||◌, Option, none, some, [], ◌∷◌, ◌++◌, Bytes, is_empty,
  is_some, ◌==◌, if◌then◌else◌,
}
use lector.Topology.Text.{Result, ok, err, malformed_inventory}

-- `u8::is_ascii_whitespace`
unfoldable pub is_ascii_whitespace : ℕ → Bool
is_ascii_whitespace b = b == 32 || b == 9 || b == 10 || b == 12 || b == 13

unfoldable pub skip_whitespace : Bytes → Bytes
unfolding is_ascii_whitespace
skip_whitespace [] = []
skip_whitespace (b ∷ bs) =
    let rest = skip_whitespace bs in if is_ascii_whitespace b then rest else b ∷ bs

-- The local variables of the loop of `next`; `escaped` is true between a backslash and its byte.
pub record Token : Type 0 where
  pub quote : Option ℕ
  pub bytes : Bytes
  pub escaped : Bool

-- `quote == Some(byte)`
unfoldable pub is_quote : Option ℕ → ℕ → Bool
is_quote none b = false
is_quote (some q) b = q == b

unfoldable pub push_token : Token → ℕ → Token
push_token t b = record t { bytes = t.bytes ++ b ∷ []; escaped = false }

unfoldable pub take_byte : Token → ℕ → Token
unfolding is_quote push_token
take_byte t b =
    if t.escaped
    then push_token t b
    else if b == b'\\'
    then record t { escaped = true }
    else if (b == b'\'' || b == b'"') && is_quote t.quote b
    then record t { quote = none }
    else if (b == b'\'' || b == b'"') && not (is_some t.quote)
    then record t { quote = some b }
    else push_token t b

-- An unquoted white space ends the token.
unfoldable pub ends_token : Token → ℕ → Bool
unfolding is_ascii_whitespace
ends_token t b = not t.escaped && not (is_some t.quote) && is_ascii_whitespace b

-- behind the loop, with the input that is left
unfoldable pub finish_token : Token → Bytes → Result (Bytes × Bytes)
finish_token t rest =
    if t.escaped || is_some t.quote || is_empty t.bytes
    then err malformed_inventory
    else ok (t.bytes, rest)

unfoldable pub scan_token : Token → Bytes → Result (Bytes × Bytes)
unfolding take_byte ends_token finish_token
scan_token t [] = finish_token t []
scan_token t (b ∷ bs) =
    let more = scan_token (take_byte t b) bs in
    if ends_token t b then finish_token t (b ∷ bs) else more

abbrev pub empty_token : Token
empty_token = record { quote = none; bytes = []; escaped = false }

-- `LegacyBindingLexer::next`; `none` at the end of the input
unfoldable pub next_token : Bytes → Result (Option Bytes × Bytes)
unfolding skip_whitespace scan_token
next_token input = after (skip_whitespace input)
  where
    found : Result (Bytes × Bytes) → Result (Option Bytes × Bytes)
    found (err reason) = err reason
    found (ok (token, rest)) = ok (some token, rest)

    after : Bytes → Result (Option Bytes × Bytes)
    after [] = ok (none, [])
    after (b ∷ bs) = found (scan_token empty_token (b ∷ bs))

unfoldable pub remainder : Bytes → Result Bytes
unfolding skip_whitespace
remainder input =
    if is_empty (skip_whitespace input) then err malformed_inventory else ok (skip_whitespace input)
