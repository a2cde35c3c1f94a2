-- ===== src/Clipboard/Base64/RoundTrip.antt =====
-- `encode_base64` and `osc52_write` of src/clipboard.rs: every text is encoded, and decoded again.
use lector.Prelude.{
  ℕ, ◌+◌, ◌*◌, ◌/◌, ◌%◌, ◌<◌, ◌≡◌, refl, ap, ◌∙◌, Option, some, [], ◌∷◌, ◌++◌, Bytes, arith, length,
  All,
}
use lector.Clipboard.Base64.{
  encode_chunk, joined, encode_base64, osc52_prefix, osc52_suffix, osc52_write,
}
use lector.Clipboard.Base64.Decoding.{
  decode_base64, decode_base64_nil, decode_base64-cons, IsPlain, symbol-HasSextet,
}

abbrev pub IsByte : ℕ → Type 0
IsByte b = b < 256

-- `e` is the encoding of `bs`: it decodes to it, it is padded to a multiple of four, and it is plain.
pub record IsEncoding (bs e : Bytes) : Type 0 where
  pub decodes : decode_base64 e ≡ some bs
  pub padded : length e ≡ 4 * ((length bs + 2) / 3)
  pub plain : All IsPlain e

abbrev Encodes : Bytes → Option Bytes → Type 0
Encodes bs o = (e : Bytes) × (o ≡ some e) × IsEncoding bs e

-- Three bytes from four sextets.
first_byte : (a b : ℕ) → b < 256 → a / 4 * 4 + (a % 4 * 16 + b / 16) / 16 ≡ a
first_byte a b h = omega arith

second_byte :
    (a b c : ℕ)
    → b < 256
    → c < 256
    → (a % 4 * 16 + b / 16) % 16 * 16 + (b % 16 * 4 + c / 64) / 4 ≡ b
second_byte a b c h k = omega arith

third_byte : (b c : ℕ) → c < 256 → (b % 16 * 4 + c / 64) % 4 * 64 + c % 64 ≡ c
third_byte b c h = omega arith

cons2 : {a b c d : ℕ} → a ≡ c → b ≡ d → (a ∷ b ∷ []) ≡ (c ∷ d ∷ [])
cons2 h k = cc (h, k)

cons3 :
    (xs : Bytes) {a b c a' b' c' : ℕ}
    → a ≡ a'
    → b ≡ b'
    → c ≡ c'
    → (a ∷ b ∷ c ∷ xs) ≡ (a' ∷ b' ∷ c' ∷ xs)
cons3 xs h k l = cc (h, k, l)

chunk1-Encodes : (a : ℕ) → a < 256 → Encodes (a ∷ []) (encode_chunk 1 a 0 0)
unfolding encode_chunk
chunk1-Encodes a ha =
    let x = symbol-HasSextet (a / 4) (omega arith) in
    let y = symbol-HasSextet (a % 4 * 16 + 0 / 16) (omega arith) in
    (
      x.symbol_of ∷ y.symbol_of ∷ b'=' ∷ b'=' ∷ [],
      rw (x.at, y.at) refl,
      record {
        decodes =
            decode_base64-cons _ _ _ _ [] [] x.back y.back refl refl decode_base64_nil
            ∙ ap (λ v. some (v ∷ [])) (first_byte a 0 (omega arith));
        padded = refl;
        plain =
            (x.plain, (y.plain, ((omega arith, omega arith), ((omega arith, omega arith), tt))));
      },
    )

chunk2-Encodes : (a b : ℕ) → a < 256 → b < 256 → Encodes (a ∷ b ∷ []) (encode_chunk 2 a b 0)
unfolding encode_chunk
chunk2-Encodes a b ha hb =
    let x = symbol-HasSextet (a / 4) (omega arith) in
    let y = symbol-HasSextet (a % 4 * 16 + b / 16) (omega arith) in
    let z = symbol-HasSextet (b % 16 * 4 + 0 / 64) (omega arith) in
    (
      x.symbol_of ∷ y.symbol_of ∷ z.symbol_of ∷ b'=' ∷ [],
      rw (x.at, y.at, z.at) refl,
      record {
        decodes =
            decode_base64-cons _ _ _ _ [] [] x.back y.back z.back refl decode_base64_nil
            ∙ ap some (cons2 (first_byte a b hb) (second_byte a b 0 hb (omega arith)));
        padded = refl;
        plain = (x.plain, (y.plain, (z.plain, ((omega arith, omega arith), tt))));
      },
    )

chunk3-Encodes :
    (a b c : ℕ) (bs : Bytes) (o : Option Bytes)
    → a < 256
    → b < 256
    → c < 256
    → Encodes bs o
    → Encodes (a ∷ b ∷ c ∷ bs) (joined (encode_chunk 3 a b c) o)
unfolding encode_chunk
chunk3-Encodes a b c bs o ha hb hc (e, at, h) =
    let x = symbol-HasSextet (a / 4) (omega arith) in
    let y = symbol-HasSextet (a % 4 * 16 + b / 16) (omega arith) in
    let z = symbol-HasSextet (b % 16 * 4 + c / 64) (omega arith) in
    let w = symbol-HasSextet (c % 64) (omega arith) in
    (
      x.symbol_of ∷ y.symbol_of ∷ z.symbol_of ∷ w.symbol_of ∷ e,
      rw (x.at, y.at, z.at, w.at, at) refl,
      record {
        decodes =
            decode_base64-cons _ _ _ _ e bs x.back y.back z.back w.back h.decodes
            ∙ ap some (cons3 bs (first_byte a b hb) (second_byte a b c hb hc) (third_byte b c hc));
        padded = omega (arith, h.padded);
        plain = (x.plain, (y.plain, (z.plain, (w.plain, h.plain))));
      },
    )

encode_base64-Encodes : (bs : Bytes) → All IsByte bs → Encodes bs (encode_base64 bs)
unfolding encode_base64
encode_base64-Encodes [] h =
    ([], refl, record { decodes = decode_base64_nil; padded = refl; plain = tt })
encode_base64-Encodes (a ∷ []) h = chunk1-Encodes a h.0
encode_base64-Encodes (a ∷ b ∷ []) h = chunk2-Encodes a b h.0 h.1.0
encode_base64-Encodes (a ∷ b ∷ c ∷ bs) h =
    chunk3-Encodes a b c bs (encode_base64 bs) h.0 h.1.0 h.1.1.0 (encode_base64-Encodes bs h.1.1.1)

-- Every text is written, and no index into the table is out of range: the sequence is the prefix, an
-- encoding and the suffix. The encoding decodes to the text, has four symbols for each three bytes or
-- part of them, and all of it is printable, so that no byte of the text can end the sequence.
pub osc52_write-IsEncoding :
    (text : Bytes)
    → All IsByte text
    → (e : Bytes) × (osc52_write text ≡ some (osc52_prefix ++ e ++ osc52_suffix))
      × IsEncoding text e
unfolding osc52_write
osc52_write-IsEncoding text h =
    let (e, at, k) = encode_base64-Encodes text h in (e, rw (at, osc52_write) refl, k)
