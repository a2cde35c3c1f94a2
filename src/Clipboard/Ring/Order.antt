-- ===== src/Clipboard/Ring/Order.antt =====
-- The ring of src/clipboard.rs, as the list of its newest texts.
use lector.Prelude.{
  ℕ, zero, suc, ◌≤◌, ◌<◌, ◌≡◌, refl, sym, ap, ◌∙◌, true, false, List, [], ◌∷◌, ◌++◌, reverse,
  reverse-cons, reverse-append, Bytes, arith, leb, if_cases, length, length-append, take,
  append_assoc,
}
use lector.Clipboard.Ring.{Clipboard, make_room, put, entries, internal_clipboard_capacity}

pub length-reverse {ℓ} : {A : Type ℓ} (xs : List A) → length (reverse xs) ≡ length xs
length-reverse [] = refl
length-reverse (x ∷ xs) =
    ap length (reverse-cons x xs)
    ∙ omega (arith, length-append (reverse xs) (x ∷ []), length-reverse xs)

take_all : (n : ℕ) (xs : List Bytes) → length xs ≤ n → take n xs ≡ xs
take_all zero [] h = refl
take_all (suc n) [] h = refl
take_all zero (x ∷ xs) h = absurd (omega arith)
take_all (suc n) (x ∷ xs) h = ap (λ ys. x ∷ ys) (take_all n xs (omega arith))

take-append : (n : ℕ) (xs : List Bytes) (y : Bytes) → length xs ≡ n → take n (xs ++ y ∷ []) ≡ xs
take-append zero [] y h = refl
take-append (suc n) [] y h = absurd (omega arith)
take-append zero (x ∷ xs) y h = absurd (omega arith)
take-append (suc n) (x ∷ xs) y h = ap (λ ys. x ∷ ys) (take-append n xs y (omega arith))

reverse-make_room :
    (texts : List Bytes)
    → length texts ≤ internal_clipboard_capacity
    → reverse (make_room texts) ≡ take 9 (reverse texts)
reverse-make_room [] h = refl
reverse-make_room (x ∷ xs) h =
    if_cases (λ ys. reverse ys ≡ take 9 (reverse (x ∷ xs)))
      (leb internal_clipboard_capacity (suc (length xs))) xs (x ∷ xs)
      (λ full. sym (
        ap (take 9) (reverse-cons x xs)
        ∙ take-append 9 (reverse xs) x (omega (arith, length-reverse xs, full_length full))))
      (λ room.
        sym (
          take_all 9 (reverse (x ∷ xs))
            (omega (arith, length-reverse (x ∷ xs), spare_length room))))
  where
    full_length :
        leb internal_clipboard_capacity (suc (length xs)) ≡ true
        → internal_clipboard_capacity ≤ suc (length xs)
    full_length f = ground arith

    spare_length :
        leb internal_clipboard_capacity (suc (length xs)) ≡ false
        → suc (length xs) < internal_clipboard_capacity
    spare_length f = ground arith

pub length-make_room :
    (texts : List Bytes)
    → length texts ≤ internal_clipboard_capacity
    → length (make_room texts) < internal_clipboard_capacity
length-make_room [] h = omega arith
length-make_room (x ∷ xs) h = ground arith

entries-put :
    (c : Clipboard) (text : Bytes)
    → length c.clipboards ≤ internal_clipboard_capacity
    → entries (put c text) ≡ take internal_clipboard_capacity (text ∷ entries c)
unfolding entries put
entries-put c text h =
    reverse-append (make_room c.clipboards) (text ∷ [])
    ∙ ap (λ ys. text ∷ ys) (reverse-make_room c.clipboards h)

-- The ring after a sequence of texts.
unfoldable pub put_all : Clipboard → List Bytes → Clipboard
put_all c [] = c
put_all c (text ∷ texts) = put_all (put c text) texts

take-append-take :
    (n m : ℕ) (xs ys : List Bytes) → n ≤ m → take n (xs ++ take m ys) ≡ take n (xs ++ ys)
take-append-take zero m xs ys h = refl
take-append-take (suc n) zero xs ys h = absurd (omega arith)
take-append-take (suc n) (suc m) [] [] h = refl
take-append-take (suc n) (suc m) [] (y ∷ ys) h =
    ap (λ zs. y ∷ zs) (take-append-take n m [] ys (omega arith))
take-append-take (suc n) (suc m) (x ∷ xs) ys h =
    ap (λ zs. x ∷ zs) (take-append-take n (suc m) xs ys (omega arith))

pub put-IsBounded :
    (c : Clipboard) (text : Bytes)
    → length c.clipboards ≤ internal_clipboard_capacity
    → length (put c text).clipboards ≤ internal_clipboard_capacity
unfolding put
put-IsBounded c text h =
    omega
      (arith, length-append (make_room c.clipboards) (text ∷ []), length-make_room c.clipboards h)

-- In a ring within its capacity, after any sequence of texts the entries are the newest ten of these
-- texts and the earlier entries, newest first.
pub entries-put_all :
    (c : Clipboard) (texts : List Bytes)
    → length c.clipboards ≤ internal_clipboard_capacity
    → entries (put_all c texts) ≡ take internal_clipboard_capacity (reverse texts ++ entries c)
unfolding put_all
entries-put_all c [] h = sym (
    take_all internal_clipboard_capacity (entries c)
      (unfold entries in omega (arith, length-reverse c.clipboards)))
entries-put_all c (text ∷ texts) h =
    entries-put_all (put c text) texts (put-IsBounded c text h)
    ∙ ap (λ ys. take internal_clipboard_capacity (reverse texts ++ ys)) (entries-put c text h)
    ∙ take-append-take internal_clipboard_capacity internal_clipboard_capacity (reverse texts)
        (text ∷ entries c) (omega arith)
    ∙ ap (take internal_clipboard_capacity) (
        sym (append_assoc (reverse texts) (text ∷ []) (entries c))
        ∙ ap (λ ys. ys ++ entries c) (sym (reverse-cons text texts)))
