-- ===== src/Topology/Text.antt =====
-- The fields of tmux's records (src/tmux_model.rs) and what it uses of std on text: `from_utf8`,
-- `str::parse` of numbers, `str::trim`, the Display of a number.
use lector.Prelude.{
  ℕ, zero, suc, ◌+◌, ◌-◌, ◌*◌, ◌/◌, ◌%◌, ◌^◌, String, Bool, true, false, not, ◌&&◌, ◌||◌, Option,
  none, some, List, [], ◌∷◌, ◌++◌, Bytes, bytes, reverse, u64_max, is_ascii_digit, is_empty, all,
  any, ltb, leb, ◌==◌, bytes_eq, if◌then◌else◌, length, strip_prefix, split_once,
}

pub data TopologyError : Type 0 where
  malformed_inventory invalid_label malformed_notification : TopologyError
  invalid_id invalid_number invalid_utf8 contradictory_inventory : String → TopologyError

pub data Result {ℓ} (A : Type ℓ) : Type ℓ where
  ok : A → Result A
  err : TopologyError → Result A

infixl 5 ◌>>=◌ ◌>>◌
-- `?`, which hands an error on.
abbrev pub ◌>>=◌ {ℓ κ} : {X : Type ℓ} {Y : Type κ} → Result X → (X → Result Y) → Result Y
err reason >>= next = err reason
ok x >>= next = next x

abbrev pub ◌>>◌ {ℓ} : {Y : Type ℓ} → Result (Unit {0}) → Result Y → Result Y
checked >> rest = checked >>= λ _. rest

-- An early `return Err(reason)` if the test holds.
abbrev pub refuse_if : Bool → TopologyError → Result (Unit {0})
refuse_if true reason = err reason
refuse_if false reason = ok tt

abbrev pub ok_or {ℓ} : {A : Type ℓ} → Option A → TopologyError → Result A
ok_or none reason = err reason
ok_or (some a) reason = ok a

-- The ranges of the bytes that follow a first byte, in the table of well-formed UTF-8.
unfoldable pub utf8_rest : ℕ → Option (List (ℕ × ℕ))
utf8_rest b =
    if ltb b 0x80
    then some []
    else if ltb b 0xc2
    then none
    else if ltb b 0xe0
    then some (follow ∷ [])
    else if b == 0xe0
    then some ((0xa0, 0xbf) ∷ follow ∷ [])
    else if b == 0xed
    then some ((0x80, 0x9f) ∷ follow ∷ [])
    else if ltb b 0xf0
    then some (follow ∷ follow ∷ [])
    else if b == 0xf0
    then some ((0x90, 0xbf) ∷ follow ∷ follow ∷ [])
    else if ltb b 0xf4
    then some (follow ∷ follow ∷ follow ∷ [])
    else if b == 0xf4
    then some ((0x80, 0x8f) ∷ follow ∷ follow ∷ [])
    else none
  where
    follow : ℕ × ℕ
    follow = (0x80, 0xbf)

unfoldable pub utf8_from : List (ℕ × ℕ) → Bytes → Bool
unfolding utf8_rest
utf8_from [] [] = true
utf8_from (range ∷ ranges) [] = false
utf8_from [] (b ∷ bs) = elim (utf8_rest b) [ none ↦ false | some ranges ↦ utf8_from ranges bs ]
utf8_from ((low, high) ∷ ranges) (b ∷ bs) = leb low b && leb b high && utf8_from ranges bs

-- `std::str::from_utf8(bs).is_ok()`
unfoldable pub is_utf8 : Bytes → Bool
unfolding utf8_from
is_utf8 bs = utf8_from [] bs

unfoldable pub text : Bytes → String → Result Bytes
unfolding is_utf8
text bs field = if is_utf8 bs then ok bs else err (invalid_utf8 field)

-- The characters of a text, each with its bytes: a continuation byte joins what stands before it.
characters : Bytes → List Bytes
characters [] = []
characters (b ∷ bs) = join (characters bs)
  where
    join : List Bytes → List Bytes
    join [] = (b ∷ []) ∷ []
    join ([] ∷ cs) = (b ∷ []) ∷ cs
    join ((c ∷ d) ∷ cs) =
        if leb 0x80 c && ltb c 0xc0 then (b ∷ c ∷ d) ∷ cs else (b ∷ []) ∷ (c ∷ d) ∷ cs

-- `char::is_control`: U+0000 to U+001F and U+007F to U+009F
is_control : Bytes → Bool
is_control [] = false
is_control (b ∷ []) = ltb b 0x20 || b == 0x7f
is_control (b ∷ c ∷ rest) = b == 0xc2 && ltb c 0xa0

-- `text.chars().any(char::is_control)`
unfoldable pub any_control : Bytes → Bool
unfolding characters is_control
any_control bs = any is_control (characters bs)

-- `char::is_whitespace`: the code points of White_Space
is_whitespace : Bytes → Bool
is_whitespace [] = false
is_whitespace (b ∷ []) = (leb 9 b && leb b 13) || b == 32
is_whitespace (b ∷ c ∷ []) = b == 0xc2 && (c == 0x85 || c == 0xa0)
is_whitespace (b ∷ c ∷ d ∷ rest) =
    (b == 0xe1 && c == 0x9a && d == 0x80)
    || (b == 0xe2
        && c == 0x80
        && ((leb 0x80 d && leb d 0x8a) || d == 0xa8 || d == 0xa9 || d == 0xaf))
    || (b == 0xe2 && c == 0x81 && d == 0x9f)
    || (b == 0xe3 && c == 0x80 && d == 0x80)

trim_start : List Bytes → List Bytes
unfolding is_whitespace
trim_start [] = []
trim_start (c ∷ cs) = let rest = trim_start cs in if is_whitespace c then rest else c ∷ cs

concat : List Bytes → Bytes
concat [] = []
concat (c ∷ cs) = c ++ concat cs

-- `str::trim`
unfoldable pub trim : Bytes → Bytes
unfolding characters trim_start concat
trim bs = concat (reverse (trim_start (reverse (trim_start (characters bs)))))

unfoldable pub parse_digits : ℕ → ℕ → Bytes → Option ℕ
parse_digits bound n [] = some n
parse_digits bound n (d ∷ ds) =
    let rest = parse_digits bound (n * 10 + (d - b'0')) ds in
    if is_ascii_digit d && leb (n * 10 + (d - b'0')) bound then rest else none

-- The digits behind a `+`, which may be left out.
unfoldable pub unsigned : Bytes → Bytes
unsigned [] = []
unsigned (b ∷ bs) = if b == b'+' then bs else b ∷ bs

-- `str::parse` to an unsigned number of the given bound
unfoldable pub parse_unsigned : ℕ → Bytes → Option ℕ
unfolding parse_digits unsigned
parse_unsigned bound bs =
    if is_empty (unsigned bs) then none else parse_digits bound 0 (unsigned bs)

abbrev pub u32_max : ℕ
u32_max = 2 ^ 32 - 1

unfoldable pub number : Bytes → String → Result ℕ
unfolding text parse_unsigned
number bs field = do
  digits ← text bs field
  ok_or (parse_unsigned u32_max digits) (invalid_number field)

unfoldable pub boolean : Bytes → String → Result Bool
boolean bs field =
    if bytes_eq bs (bytes "0")
    then ok false
    else if bytes_eq bs (bytes "1")
    then ok true
    else err (invalid_number field)

unfoldable pub parse_cursor_shape : Bytes → Result Bytes
unfolding text
parse_cursor_shape bs = do
  shape ← text bs "cursor shape"
  ok (if is_empty shape then bytes "default" else shape)

unfoldable pub parse_id : Bytes → ℕ → String → Result ℕ
unfolding strip_prefix text parse_unsigned
parse_id bs prefix kind = do
  digits ← ok_or (strip_prefix (prefix ∷ []) bs) (invalid_id kind)
  refuse_if (is_empty digits || not (all is_ascii_digit digits)) (invalid_id kind)
  checked ← text digits "id"
  ok_or (parse_unsigned u64_max checked) (invalid_id kind)

abbrev pub parse_session_id : Bytes → Result ℕ
parse_session_id bs = parse_id bs b'$' "session"

abbrev pub parse_window_id : Bytes → Result ℕ
parse_window_id bs = parse_id bs b'@' "window"

abbrev pub parse_pane_id : Bytes → Result ℕ
parse_pane_id bs = parse_id bs b'%' "pane"

-- `splitn`: the rest behind the last separator stays whole.
unfoldable pub splitn : ℕ → ℕ → Bytes → List Bytes
unfolding split_once
splitn zero sep bs = []
splitn (suc zero) sep bs = bs ∷ []
splitn (suc (suc n)) sep bs = elim (split_once sep bs) [
  | none ↦ bs ∷ []
  | some (field, rest) ↦ field ∷ splitn (suc n) sep rest
]

unfoldable pub split_inventory : Bytes → ℕ → Result (List Bytes)
unfolding splitn
split_inventory line fields = do
  let parts = splitn fields b'\t' line
  refuse_if (not (length parts == fields) || not (length (first parts) == 1)) malformed_inventory
  ok parts
  where
    -- `parts[0]`, which is there when the number of fields is not 0
    first : List Bytes → Bytes
    first [] = []
    first (part ∷ parts) = part

unfoldable pub split_first : Bytes → Result (Bytes × Bytes)
unfolding split_once
split_first bs = do
  (front, back) ← ok_or (split_once b' ' bs) malformed_notification
  refuse_if (is_empty front || is_empty back) malformed_notification
  ok (front, back)

unfoldable pub single_field : Bytes → Result Bytes
single_field bs = do
  refuse_if (is_empty bs || any (λ b. b == b' ') bs) malformed_notification
  ok bs

unfoldable pub decimal_digits : ℕ → ℕ → Bytes
decimal_digits zero n = []
decimal_digits (suc fuel) n =
    let front = decimal_digits fuel (n / 10) in
    if ltb n 10 then (b'0' + n) ∷ [] else front ++ (b'0' + n % 10) ∷ []

-- The Display of a number: a word has at most twenty digits.
unfoldable pub decimal : ℕ → Bytes
unfolding decimal_digits
decimal n = decimal_digits 20 n
