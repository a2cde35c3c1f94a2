-- ===== src/Control/Octal/Encoding.antt =====
-- What `decode_octal` of src/tmux_control.rs accepts: the texts that spell a sequence of bytes.
use lector.Prelude.{
  ℕ, ◌+◌, ◌<◌, ◌/◌, ◌%◌, ◌≡◌, refl, sym, subst, ◌≢◌, ◌↔◌, inl, inr, Bool, ◌||◌, All, [], ◌∷◌, Bytes,
  arith, ◌==◌, if◌then◌else◌, Bool-cases, ne→==,
}
use lector.Control.Data.{Result, ok, err, ◌>>=◌}
use lector.Control.Octal.{decode_octal, decode_escape, cons_ok}

-- The three digits that tmux writes for a byte.
abbrev pub digit_high : ℕ → ℕ
digit_high v = b'0' + v / 64

abbrev pub digit_mid : ℕ → ℕ
digit_mid v = b'0' + v / 8 % 8

abbrev pub digit_low : ℕ → ℕ
digit_low v = b'0' + v % 8

-- `Spells text bs`: `text` is `bs` with some bytes written as a backslash and the three octal digits of
-- the byte, the backslash itself always.
pub data Spells : Bytes → Bytes → Type 0 where
  done : Spells [] []
  plain : {b : ℕ} {text bs : Bytes} → b ≢ b'\\' → Spells text bs → Spells (b ∷ text) (b ∷ bs)
  escape :
      {s a b c v : ℕ} {text bs : Bytes}
      → s ≡ b'\\'
      → v < 256
      → a ≡ digit_high v
      → b ≡ digit_mid v
      → c ≡ digit_low v
      → Spells text bs
      → Spells (s ∷ a ∷ b ∷ c ∷ text) (v ∷ bs)

decode_escape-digits :
    (v : ℕ) → v < 256 → decode_escape (digit_high v) (digit_mid v) (digit_low v) ≡ ok v
decode_escape-digits v h = ground arith

decode_escape-spelt :
    (a b c v : ℕ)
    → v < 256
    → a ≡ digit_high v
    → b ≡ digit_mid v
    → c ≡ digit_low v
    → decode_escape a b c ≡ ok v
decode_escape-spelt a b c v h x y z = rw (x, y, z) (decode_escape-digits v h)

spelt-decode_escape :
    (a b c v : ℕ)
    → decode_escape a b c ≡ ok v
    → (v < 256) × (a ≡ digit_high v) × (b ≡ digit_mid v) × (c ≡ digit_low v)
spelt-decode_escape a b c v e =
    (ground (arith, e), ground (arith, e), ground (arith, e), ground (arith, e))

decode_octal-plain :
    (b : ℕ) (text : Bytes) → b ≢ b'\\' → decode_octal (b ∷ text) ≡ cons_ok b (decode_octal text)
unfolding decode_octal
decode_octal-plain b [] h = rw (ne→== b b'\\' h)
decode_octal-plain b (d1 ∷ []) h = rw (ne→== b b'\\' h)
decode_octal-plain b (d1 ∷ d2 ∷ []) h = rw (ne→== b b'\\' h)
decode_octal-plain b (d1 ∷ d2 ∷ d3 ∷ bs) h = rw (ne→== b b'\\' h)

decode_octal-escape :
    (s a b c : ℕ) (text : Bytes)
    → s ≡ b'\\'
    → decode_octal (s ∷ a ∷ b ∷ c ∷ text)
      ≡ (decode_escape a b c >>= λ v. cons_ok v (decode_octal text))
unfolding decode_octal
decode_octal-escape s a b c text h = rw h

Spells-decode_octal : {text bs : Bytes} → Spells text bs → decode_octal text ≡ ok bs
Spells-decode_octal done = unfold decode_octal in refl
Spells-decode_octal (plain {b} {text} ne rest) =
    rw (decode_octal-plain b text ne) (rw (Spells-decode_octal rest))
Spells-decode_octal (escape {s} {a} {b} {c} {v} {text} e h x y z rest) =
    rw (decode_octal-escape s a b c text e)
      (rw (decode_escape-spelt a b c v h x y z) (rw (Spells-decode_octal rest)))

cons_ok-eq-ok :
    (v : ℕ) (r : Result Bytes) {bs : Bytes}
    → cons_ok v r ≡ ok bs
    → (rest : Bytes) × (r ≡ ok rest) × (bs ≡ v ∷ rest)
cons_ok-eq-ok v (ok rest) h = (rest, refl, cc)
cons_ok-eq-ok v (err e) h = cc

-- A plain byte in front, given what the rest spells.
Spells-plain :
    (b : ℕ) (text : Bytes) {bs : Bytes}
    → b ≢ b'\\'
    → ((rest : Bytes) → decode_octal text ≡ ok rest → Spells text rest)
    → decode_octal (b ∷ text) ≡ ok bs
    → Spells (b ∷ text) bs
Spells-plain b text ne ih h =
    let (rest, e, e') =
      cons_ok-eq-ok b (decode_octal text) (rw (decode_octal-plain b text ne) at h) in
    subst (Spells (b ∷ text)) (sym e') (plain ne (ih rest e))

bind_cons_ok-eq-ok :
    (d : Result ℕ) (r : Result Bytes) {bs : Bytes}
    → (d >>= λ v. cons_ok v r) ≡ ok bs
    → (v : ℕ) × (rest : Bytes) × (d ≡ ok v) × (r ≡ ok rest) × (bs ≡ v ∷ rest)
bind_cons_ok-eq-ok (ok v) (ok rest) h = (v, rest, refl, refl, cc)
bind_cons_ok-eq-ok (ok v) (err e) h = cc
bind_cons_ok-eq-ok (err e) r h = cc

Spells-escape :
    (s a b c : ℕ) (text : Bytes) {bs : Bytes}
    → s ≡ b'\\'
    → ((rest : Bytes) → decode_octal text ≡ ok rest → Spells text rest)
    → decode_octal (s ∷ a ∷ b ∷ c ∷ text) ≡ ok bs
    → Spells (s ∷ a ∷ b ∷ c ∷ text) bs
Spells-escape s a b c text q ih h =
    let (v, rest, d, e, e') =
      bind_cons_ok-eq-ok (decode_escape a b c) (decode_octal text)
        (rw (decode_octal-escape s a b c text q) at h) in
    subst (Spells (s ∷ a ∷ b ∷ c ∷ text)) (sym e')
      (let (h, x, y, z) = spelt-decode_escape a b c v d in escape q h x y z (ih rest e))

decode_octal-Spells : (text : Bytes) (bs : Bytes) → decode_octal text ≡ ok bs → Spells text bs
decode_octal-Spells [] bs h =
    let e : ◌≡◌ {A = Bytes} [] bs = unfold decode_octal in cc in subst (Spells []) e done
decode_octal-Spells (b ∷ []) bs h = elim (Bool-cases (b == b'\\')) [
  | inl e ↦ absurd (unfold decode_octal in ground arith)
  | inr e ↦ Spells-plain b [] (ground arith) (decode_octal-Spells []) h
]
decode_octal-Spells (b ∷ d1 ∷ []) bs h = elim (Bool-cases (b == b'\\')) [
  | inl e ↦ absurd (unfold decode_octal in ground arith)
  | inr e ↦ Spells-plain b (d1 ∷ []) (ground arith) (decode_octal-Spells (d1 ∷ [])) h
]
decode_octal-Spells (b ∷ d1 ∷ d2 ∷ []) bs h = elim (Bool-cases (b == b'\\')) [
  | inl e ↦ absurd (unfold decode_octal in ground arith)
  | inr e ↦ Spells-plain b (d1 ∷ d2 ∷ []) (ground arith) (decode_octal-Spells (d1 ∷ d2 ∷ [])) h
]
decode_octal-Spells (b ∷ d1 ∷ d2 ∷ d3 ∷ text) bs h = elim (Bool-cases (b == b'\\')) [
  | inl e ↦ Spells-escape b d1 d2 d3 text (ground arith) (decode_octal-Spells text) h
  | inr e ↦
      Spells-plain b (d1 ∷ d2 ∷ d3 ∷ text) (ground arith)
        (decode_octal-Spells (d1 ∷ d2 ∷ d3 ∷ text)) h
]

-- `decode_octal` succeeds on exactly the texts that spell a sequence of bytes, and gives that
-- sequence: a text is refused when a backslash is not followed by the three octal digits of a byte.
pub decode_octal-iff-Spells : (text bs : Bytes) → (decode_octal text ≡ ok bs) ↔ Spells text bs
decode_octal-iff-Spells text bs = (decode_octal-Spells text bs, Spells-decode_octal)

-- An encoder as tmux's: it escapes the backslash, and every other byte that `quote` picks.
pub encode : (ℕ → Bool) → Bytes → Bytes
encode quote [] = []
encode quote (b ∷ bs) =
    let rest = encode quote bs in
    if quote b || b == b'\\'
    then b'\\' ∷ digit_high b ∷ digit_mid b ∷ digit_low b ∷ rest
    else b ∷ rest

encode-Spells :
    (quote : ℕ → Bool) (bs : Bytes) → All (λ b. b < 256) bs → Spells (encode quote bs) bs
unfolding encode
encode-Spells quote [] h = done
encode-Spells quote (b ∷ bs) h = elim (Bool-cases (quote b || b == b'\\')) [
  | inl e ↦ rw e (escape refl h.0 refl refl refl (encode-Spells quote bs h.1))
  | inr e ↦ rw e (plain (ground arith) (encode-Spells quote bs h.1))
]

-- Whatever further bytes the encoder chooses to escape, decoding gives back every sequence of bytes.
pub decode_octal-encode :
    (quote : ℕ → Bool) (bs : Bytes) → All (λ b. b < 256) bs → decode_octal (encode quote bs) ≡ ok bs
decode_octal-encode quote bs h = Spells-decode_octal (encode-Spells quote bs h)
