-- ===== src/Topology/Quoting.antt =====
-- What the lexer of src/tmux_model.rs reads from a `bind-key` line whose table and key are quoted.
use lector.Prelude.{
  sym, ℕ, ◌≡◌, ◌≢◌, refl, ◌∙◌, ◌⊎◌, inl, inr, Bool, true, false, none, some, List, [], ◌∷◌, ◌++◌,
  append-nil, append_assoc, ap, arith, Bytes, bytes, is_empty,
}
use lector.Topology.Text.{ok, is_utf8, text}
use lector.Topology.Lexer.{
  Token, is_ascii_whitespace, is_quote, push_token, take_byte, ends_token, scan_token, next_token,
  remainder, skip_whitespace, finish_token,
}
use lector.Topology.Bindings.{
  required_token, after_repeat, table_option, validate_binding, parse_legacy_binding,
}
use lector.Topology.Data.{TmuxBinding}

-- A byte between quotes, as it is or behind a backslash
pub data Inner : Type 0 where
  literal slashed : ℕ → Inner

-- A piece of a token: a byte as it is, a byte behind a backslash, or bytes between two quotes
pub data Piece : Type 0 where
  bare escaped : ℕ → Piece
  quoted : ℕ → List Inner → Piece

abbrev pub print_inner : List Inner → Bytes
print_inner [] = []
print_inner (literal b ∷ is) = b ∷ print_inner is
print_inner (slashed b ∷ is) = b'\\' ∷ b ∷ print_inner is

abbrev pub inner_bytes : List Inner → Bytes
inner_bytes [] = []
inner_bytes (literal b ∷ is) = b ∷ inner_bytes is
inner_bytes (slashed b ∷ is) = b ∷ inner_bytes is

-- How the pieces are written
unfoldable pub print : List Piece → Bytes
print [] = []
print (bare b ∷ ps) = b ∷ print ps
print (escaped b ∷ ps) = b'\\' ∷ b ∷ print ps
print (quoted q is ∷ ps) = q ∷ (print_inner is ++ q ∷ print ps)

-- The bytes that they stand for
unfoldable pub meaning : List Piece → Bytes
meaning [] = []
meaning (bare b ∷ ps) = b ∷ meaning ps
meaning (escaped b ∷ ps) = b ∷ meaning ps
meaning (quoted q is ∷ ps) = inner_bytes is ++ meaning ps

-- Between quotes every byte may stand as it is but a backslash and the quote.
abbrev pub AreInner : ℕ → List Inner → Type 0
AreInner q [] = Unit
AreInner q (literal b ∷ is) = (b ≢ b'\\') × (b ≢ q) × AreInner q is
AreInner q (slashed b ∷ is) = AreInner q is

-- Outside, every byte may but a backslash, a quote and white space.
abbrev pub AreFit : List Piece → Type 0
AreFit [] = Unit
AreFit (bare b ∷ ps) =
    (b ≢ b'\\') × (b ≢ b'\'') × (b ≢ b'"') × (is_ascii_whitespace b ≡ false) × AreFit ps
AreFit (escaped b ∷ ps) = AreFit ps
AreFit (quoted q is ∷ ps) = ((q ≡ b'\'') ⊎ (q ≡ b'"')) × AreInner q is × AreFit ps

-- A token as far as it is read, outside quotes and within
abbrev unquoted : Bytes → Token
unquoted bs = record { quote = none; bytes = bs; escaped = false }

abbrev within : ℕ → Bytes → Token
within q bs = record { quote = some q; bytes = bs; escaped = false }

abbrev IsMark : ℕ → Type 0
IsMark q = (q ≡ b'\'') ⊎ (q ≡ b'"')

take_literal :
    (q b : ℕ) (taken : Bytes)
    → b ≢ b'\\'
    → b ≢ q
    → take_byte (within q taken) b ≡ within q (taken ++ b ∷ [])
unfolding take_byte is_quote push_token
take_literal q b taken s n = ground (arith, s, n)

take_bare :
    (b : ℕ) (taken : Bytes)
    → b ≢ b'\\'
    → b ≢ b'\''
    → b ≢ b'"'
    → take_byte (unquoted taken) b ≡ unquoted (taken ++ b ∷ [])
unfolding take_byte is_quote push_token
take_bare b taken s x y = ground (arith, s, x, y)

take_opening : (q : ℕ) (taken : Bytes) → IsMark q → take_byte (unquoted taken) q ≡ within q taken
unfolding take_byte is_quote push_token
take_opening q taken (inl e) = ground (arith, e)
take_opening q taken (inr e) = ground (arith, e)

take_closing : (q : ℕ) (taken : Bytes) → IsMark q → take_byte (within q taken) q ≡ unquoted taken
unfolding take_byte is_quote push_token
take_closing q taken (inl e) = ground (arith, e)
take_closing q taken (inr e) = ground (arith, e)

-- A quote is no white space.
mark_unspaced : (q : ℕ) → IsMark q → is_ascii_whitespace q ≡ false
unfolding is_ascii_whitespace
mark_unspaced q (inl e) = ground (arith, e)
mark_unspaced q (inr e) = ground (arith, e)

-- A byte in quotes never ends the token, and outside none but white space does.
scan_within :
    (q b : ℕ) (taken rest : Bytes)
    → scan_token (within q taken) (b ∷ rest) ≡ scan_token (take_byte (within q taken) b) rest
unfolding scan_token ends_token
scan_within q b taken rest = refl

scan_unquoted :
    (b : ℕ) (taken rest : Bytes)
    → is_ascii_whitespace b ≡ false
    → scan_token (unquoted taken) (b ∷ rest) ≡ scan_token (take_byte (unquoted taken) b) rest
unfolding scan_token ends_token
scan_unquoted b taken rest h = rw h refl

-- A backslash takes the byte behind it, within quotes and outside.
scan_slashed :
    (q b : ℕ) (taken rest : Bytes)
    → scan_token (within q taken) (b'\\' ∷ b ∷ rest) ≡ scan_token (within q (taken ++ b ∷ [])) rest
unfolding scan_token take_byte ends_token push_token
scan_slashed q b taken rest = refl

scan_escaped :
    (b : ℕ) (taken rest : Bytes)
    → scan_token (unquoted taken) (b'\\' ∷ b ∷ rest) ≡ scan_token (unquoted (taken ++ b ∷ [])) rest
unfolding scan_token take_byte ends_token push_token is_ascii_whitespace
scan_escaped b taken rest = refl

scan_inner :
    (q : ℕ) (taken rest : Bytes) (is : List Inner)
    → IsMark q
    → AreInner q is
    → scan_token (within q taken) (print_inner is ++ q ∷ rest)
      ≡ scan_token (unquoted (taken ++ inner_bytes is)) rest
scan_inner q taken rest [] m h =
    scan_within q q taken rest
    ∙ ap (λ t. scan_token t rest)
        (take_closing q taken m ∙ ap (λ (bs : Bytes). unquoted bs) (sym (append-nil taken)))
scan_inner q taken rest (literal b ∷ is) m h =
    scan_within q b taken (print_inner is ++ q ∷ rest)
    ∙ (ap (λ t. scan_token t (print_inner is ++ q ∷ rest)) (take_literal q b taken h.0 h.1)
        ∙ (scan_inner q (taken ++ b ∷ []) rest is m h.2
            ∙ ap (λ (bs : Bytes). scan_token (unquoted bs) rest)
                (append_assoc taken (b ∷ []) (inner_bytes is))))
scan_inner q taken rest (slashed b ∷ is) m h =
    scan_slashed q b taken (print_inner is ++ q ∷ rest)
    ∙ (scan_inner q (taken ++ b ∷ []) rest is m h
        ∙ ap (λ (bs : Bytes). scan_token (unquoted bs) rest)
            (append_assoc taken (b ∷ []) (inner_bytes is)))

scan_print :
    (taken rest : Bytes) (ps : List Piece)
    → AreFit ps
    → scan_token (unquoted taken) (print ps ++ rest)
      ≡ scan_token (unquoted (taken ++ meaning ps)) rest
unfolding print meaning
scan_print taken rest [] h =
    ap (λ (bs : Bytes). scan_token (unquoted bs) rest) (sym (append-nil taken))
scan_print taken rest (bare b ∷ ps) h =
    scan_unquoted b taken (print ps ++ rest) h.3
    ∙ (ap (λ t. scan_token t (print ps ++ rest)) (take_bare b taken h.0 h.1 h.2)
        ∙ (scan_print (taken ++ b ∷ []) rest ps h.4
            ∙ ap (λ (bs : Bytes). scan_token (unquoted bs) rest)
                (append_assoc taken (b ∷ []) (meaning ps))))
scan_print taken rest (escaped b ∷ ps) h =
    scan_escaped b taken (print ps ++ rest)
    ∙ (scan_print (taken ++ b ∷ []) rest ps h
        ∙ ap (λ (bs : Bytes). scan_token (unquoted bs) rest)
            (append_assoc taken (b ∷ []) (meaning ps)))
scan_print taken rest (quoted q is ∷ ps) h =
    scan_unquoted q taken ((print_inner is ++ q ∷ print ps) ++ rest) (mark_unspaced q h.0)
    ∙ (ap (λ t. scan_token t ((print_inner is ++ q ∷ print ps) ++ rest)) (take_opening q taken h.0)
        ∙ (ap (λ (bs : Bytes). scan_token (within q taken) bs)
              (append_assoc (print_inner is) (q ∷ print ps) rest)
            ∙ (scan_inner q taken (print ps ++ rest) is h.0 h.1
                ∙ (scan_print (taken ++ inner_bytes is) rest ps h.2
                    ∙ ap (λ (bs : Bytes). scan_token (unquoted bs) rest)
                        (append_assoc taken (inner_bytes is) (meaning ps))))))

-- The token ends at the white space behind it.
scan_end :
    (token rest : Bytes)
    → is_empty token ≡ false
    → scan_token (unquoted token) (b' ' ∷ rest) ≡ ok (token, b' ' ∷ rest)
unfolding scan_token ends_token finish_token is_ascii_whitespace
scan_end token rest n = rw n refl

scan_found :
    (ps : List Piece) (rest : Bytes)
    → AreFit ps
    → is_empty (meaning ps) ≡ false
    → scan_token (unquoted []) (print ps ++ b' ' ∷ rest) ≡ ok (meaning ps, b' ' ∷ rest)
scan_found ps rest h n = scan_print [] (b' ' ∷ rest) ps h ∙ scan_end (meaning ps) rest n

next_found :
    (b : ℕ) (bs token left : Bytes)
    → is_ascii_whitespace b ≡ false
    → scan_token (unquoted []) (b ∷ bs) ≡ ok (token, left)
    → next_token (b' ' ∷ b ∷ bs) ≡ ok (some token, left)
unfolding next_token skip_whitespace
next_found b bs token left h e = rw (h, e) refl

next_token-print :
    (ps : List Piece) (rest : Bytes)
    → AreFit ps
    → is_empty (meaning ps) ≡ false
    → next_token (b' ' ∷ (print ps ++ b' ' ∷ rest)) ≡ ok (some (meaning ps), b' ' ∷ rest)
unfolding print meaning
next_token-print [] rest h n = cc n
next_token-print (bare b ∷ ps) rest h n =
    next_found b (print ps ++ b' ' ∷ rest) (meaning (bare b ∷ ps)) (b' ' ∷ rest) h.3
      (scan_found (bare b ∷ ps) rest h n)
next_token-print (escaped b ∷ ps) rest h n =
    next_found b'\\' (b ∷ (print ps ++ b' ' ∷ rest)) (meaning (escaped b ∷ ps)) (b' ' ∷ rest)
      (unfold is_ascii_whitespace in refl) (scan_found (escaped b ∷ ps) rest h n)
next_token-print (quoted q is ∷ ps) rest h n =
    next_found q ((print_inner is ++ q ∷ print ps) ++ b' ' ∷ rest) (meaning (quoted q is ∷ ps))
      (b' ' ∷ rest) (mark_unspaced q h.0) (scan_found (quoted q is ∷ ps) rest h n)

remainder-unspaced :
    (c : ℕ) (cs : Bytes) → is_ascii_whitespace c ≡ false → remainder (b' ' ∷ c ∷ cs) ≡ ok (c ∷ cs)
unfolding remainder
remainder-unspaced c cs h = rw h refl

repeat_flag : Bool → Bytes
repeat_flag true = bytes "-r "
repeat_flag false = []

-- The line that binds a command, with the pieces of the table and of the key
unfoldable pub binding_line : Bool → List Piece → List Piece → Bytes → Bytes
unfolding repeat_flag print
binding_line repeatable table key command =
    bytes "bind-key "
    ++ (repeat_flag repeatable
        ++ (bytes "-T " ++ (print table ++ b' ' ∷ (print key ++ b' ' ∷ command))))

abbrev pub starts_blank : Bytes → Bool
starts_blank [] = false
starts_blank (c ∷ cs) = is_ascii_whitespace c

-- The text of a binding that tmux may print: valid UTF-8, in the accepted sizes, and a command that does
-- not begin with white space.
pub record IsPrintable (b : TmuxBinding) : Type 0 where
  pub table_text : is_utf8 b.table ≡ true
  pub key_text : is_utf8 b.key ≡ true
  pub command_text : is_utf8 b.command ≡ true
  pub sizes : validate_binding b.table b.key b.command ≡ ok tt
  pub unspaced : starts_blank b.command ≡ false

validate_binding-filled :
    (table key command : Bytes)
    → validate_binding table key command ≡ ok tt
    → (is_empty table ≡ false) × (is_empty key ≡ false) × (is_empty command ≡ false)
unfolding validate_binding
validate_binding-filled table key command h = ground (arith, h)

parse_line :
    (repeatable : Bool) (table key : List Piece) (c : ℕ) (cs : Bytes)
    → AreFit table
    → AreFit key
    → IsPrintable (record {
      table = meaning table;
      key = meaning key;
      repeatable = repeatable;
      command = c ∷ cs;
    })
    → (let b : TmuxBinding = record {
      table = meaning table;
      key = meaning key;
      repeatable = repeatable;
      command = c ∷ cs;
    } in
        parse_legacy_binding (binding_line repeatable table key (c ∷ cs)) ≡ ok b)
unfolding parse_legacy_binding required_token after_repeat table_option binding_line text
parse_line true table key c cs f g p =
    let (t, k, _) = validate_binding-filled (meaning table) (meaning key) (c ∷ cs) p.sizes in
    rw
      (
        next_token-print table (print key ++ b' ' ∷ c ∷ cs) f t,
        next_token-print key (c ∷ cs) g k,
        remainder-unspaced c cs p.unspaced,
        p.table_text,
        p.key_text,
        p.command_text,
        p.sizes,
      )
      refl
parse_line false table key c cs f g p =
    let (t, k, _) = validate_binding-filled (meaning table) (meaning key) (c ∷ cs) p.sizes in
    rw
      (
        next_token-print table (print key ++ b' ' ∷ c ∷ cs) f t,
        next_token-print key (c ∷ cs) g k,
        remainder-unspaced c cs p.unspaced,
        p.table_text,
        p.key_text,
        p.command_text,
        p.sizes,
      )
      refl

-- A printable binding is read back from its `bind-key` line, however its table and its key are written:
-- each byte as it is, behind a backslash, or between single or double quotes, within which a backslash
-- takes the next byte too. The command is read back byte for byte.
pub parse_legacy_binding-binding_line :
    (repeatable : Bool) (table key : List Piece) (command : Bytes)
    → AreFit table
    → AreFit key
    → IsPrintable (record {
      table = meaning table;
      key = meaning key;
      repeatable = repeatable;
      command = command;
    })
    → (let b : TmuxBinding = record {
      table = meaning table;
      key = meaning key;
      repeatable = repeatable;
      command = command;
    } in
        parse_legacy_binding (binding_line repeatable table key command) ≡ ok b)
parse_legacy_binding-binding_line repeatable table key [] f g p =
    let (_, _, c) = validate_binding-filled (meaning table) (meaning key) [] p.sizes in cc c
parse_legacy_binding-binding_line repeatable table key (c ∷ cs) f g p =
    parse_line repeatable table key c cs f g p
