-- ===== src/Topology/Numbers.antt =====
-- Ids in src/tmux_model.rs: how they are printed and parsed.
use lector.Prelude.{
  ℕ, zero, suc, ◌+◌, ◌-◌, ◌*◌, ◌/◌, ◌%◌, ◌≤◌, ◌<◌, ◌≡◌, refl, String, Bool, true, false, some, [],
  ◌∷◌, ◌++◌, arith, Bytes, u64_max, is_ascii_digit, all, is_empty, ltb, Bool-cases, inl, inr,
  and_true, strip_prefix-append, if_cases,
}
use lector.Topology.Text.{
  ok, utf8_rest, utf8_from, is_utf8, text, parse_digits, unsigned, parse_unsigned, parse_id,
  decimal_digits, decimal,
}

-- 10 ^ n
pow10 : ℕ → ℕ
pow10 zero = 1
pow10 (suc n) = 10 * pow10 n

digits_are_utf8 : (ds : Bytes) → all is_ascii_digit ds ≡ true → utf8_from [] ds ≡ true
unfolding utf8_from utf8_rest
digits_are_utf8 [] h = refl
digits_are_utf8 (d ∷ ds) h =
    let (digit, digits) = and_true (is_ascii_digit d) (all is_ascii_digit ds) h in
    ground (arith, digit, digits_are_utf8 ds digits)

parse_digits-append :
    (bound n m : ℕ) (ds es : Bytes)
    → parse_digits bound n ds ≡ some m
    → parse_digits bound n (ds ++ es) ≡ parse_digits bound m es
unfolding parse_digits
parse_digits-append bound n m [] es h = ground arith
parse_digits-append bound n m (d ∷ ds) es h =
    ground (arith, h, parse_digits-append bound (n * 10 + (d - b'0')) m ds es)

parse_digits-decimal :
    (bound fuel n : ℕ)
    → n < pow10 fuel
    → n ≤ bound
    → parse_digits bound 0 (decimal_digits fuel n) ≡ some n
unfolding pow10 decimal_digits parse_digits
parse_digits-decimal bound zero n h b = ground arith
parse_digits-decimal bound (suc fuel) n h b = elim (Bool-cases (ltb n 10)) [
  | inl t ↦ rw t (ground (arith, t))
  | inr f ↦
      let front =
        parse_digits-decimal bound fuel (n / 10) (ground (arith, f)) (ground (arith, f)) in
      rw f (
        ground (
          arith,
          f,
          front,
          parse_digits-append bound 0 (n / 10) (decimal_digits fuel (n / 10))
              ((b'0' + n % 10) ∷ []),
        ))
]

all-append :
    (p : ℕ → Bool) (ds es : Bytes) → all p ds ≡ true → all p es ≡ true → all p (ds ++ es) ≡ true
all-append p [] es h k = k
all-append p (d ∷ ds) es h k =
    let (first, others) = and_true (p d) (all p ds) h in rw first (all-append p ds es others k)

all_digits-decimal : (fuel n : ℕ) → all is_ascii_digit (decimal_digits fuel n) ≡ true
unfolding decimal_digits
all_digits-decimal zero n = refl
all_digits-decimal (suc fuel) n =
    if_cases (λ (ds : Bytes). all is_ascii_digit ds ≡ true) (ltb n 10) ((b'0' + n) ∷ [])
      (decimal_digits fuel (n / 10) ++ (b'0' + n % 10) ∷ []) (λ t. ground (arith, t))
      (λ _.
        all-append is_ascii_digit (decimal_digits fuel (n / 10)) ((b'0' + n % 10) ∷ [])
          (all_digits-decimal fuel (n / 10)) (ground arith))

is_empty-append_one : (ds : Bytes) (d : ℕ) → is_empty (ds ++ d ∷ []) ≡ false
is_empty-append_one [] d = refl
is_empty-append_one (e ∷ ds) d = refl

is_empty-decimal : (fuel n : ℕ) → is_empty (decimal_digits (suc fuel) n) ≡ false
unfolding decimal_digits
is_empty-decimal fuel n =
    if_cases (λ (ds : Bytes). is_empty ds ≡ false) (ltb n 10) ((b'0' + n) ∷ [])
      (decimal_digits fuel (n / 10) ++ (b'0' + n % 10) ∷ []) (λ _. refl)
      (λ _. is_empty-append_one (decimal_digits fuel (n / 10)) (b'0' + n % 10))

unsigned-digits : (ds : Bytes) → all is_ascii_digit ds ≡ true → unsigned ds ≡ ds
unfolding unsigned
unsigned-digits [] h = refl
unsigned-digits (d ∷ ds) h = ground (arith, h)

-- An id of 64 bits is parsed from its prefix and its Display: a pane, window or session that the
-- program names in a command is found again in tmux's reply.
pub parse_id-decimal :
    (prefix n : ℕ) (kind : String) → n ≤ u64_max → parse_id (prefix ∷ decimal n) prefix kind ≡ ok n
unfolding parse_id decimal text is_utf8 parse_unsigned pow10
parse_id-decimal prefix n kind h =
    rw
      (
        strip_prefix-append (prefix ∷ []) (decimal_digits 20 n),
        is_empty-decimal 19 n,
        all_digits-decimal 20 n,
        digits_are_utf8 (decimal_digits 20 n) (all_digits-decimal 20 n),
        unsigned-digits (decimal_digits 20 n) (all_digits-decimal 20 n),
        is_empty-decimal 19 n,
        parse_digits-decimal u64_max 20 n (omega arith) h,
      )
      refl
