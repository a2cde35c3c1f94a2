-- ===== src/Clipboard/Ring/Selection.antt =====
-- The selected text of the ring of src/clipboard.rs.
use lector.Prelude.{
  ℕ, zero, suc, ◌+◌, ◌-◌, ◌≤◌, ◌<◌, ◌≡◌, refl, sym, ap, subst, ◌∙◌, ◌⊎◌, Bool, true, false, ◌||◌,
  some, List, [], ◌∷◌, ◌++◌, reverse, reverse-cons, Bytes, arith, leb, ltb, ◌==◌, if◌then◌else◌,
  if_cases, length, length-append, get_elem?,
}
use lector.Clipboard.Ring.{
  Clipboard, make_room, put, prev, next, size, entries, get, selected_index, select_index,
  internal_clipboard_capacity, clear,
}
use lector.Clipboard.Ring.Order.{length-reverse, put-IsBounded}

-- Within the capacity, and the selected text is there unless the ring is empty.
pub record IsValid (c : Clipboard) : Type 0 where
  pub is_bounded : length c.clipboards ≤ internal_clipboard_capacity
  pub selects : c.idx ≤ length c.clipboards - 1

-- A call of the ring.
pub data Operation : Type 0 where
  putting : Bytes → Operation
  selecting : ℕ → Operation
  selecting_prev selecting_next clearing : Operation

unfoldable pub apply : Clipboard → Operation → Clipboard
apply c (putting text) = put c text
apply c (selecting i) = (select_index c i).1
apply c selecting_prev = (prev c).1
apply c selecting_next = (next c).1
apply c clearing = clear c

unfoldable pub apply_all : Clipboard → List Operation → Clipboard
apply_all c [] = c
apply_all c (o ∷ os) = apply_all (apply c o) os

pub select_index-IsValid : (c : Clipboard) (i : ℕ) → IsValid c → IsValid (select_index c i).1
unfolding select_index
select_index-IsValid c i h =
    if_cases (λ (r : Bool × Clipboard). IsValid r.1) (i == 0 || ltb (length c.clipboards) i)
      (false, c) _ (λ _. h) (λ e. record { is_bounded = h.is_bounded; selects = ground arith })

-- The one-based position of the selected text among the entries, newest first; zero if there is none.
abbrev pub position : Clipboard → ℕ
position c = length c.clipboards - c.idx

abbrev chosen : Bool → Clipboard → ℕ → Bool × Clipboard
chosen b c i = if b then (false, c) else (true, record c { idx = i })

choices :
    (b b' : Bool) (c : Clipboard) (i j : ℕ)
    → b ≡ b'
    → (b ≡ false → i ≡ j)
    → chosen b c i ≡ chosen b' c j
choices true b' c i j e h = rw⁻¹ e refl
choices false b' c i j e h = rw⁻¹ e (rw (h refl) refl)

prev_test : (n i : ℕ) → leb n (i + 1) ≡ (n - i - 1 == 0 || ltb n (n - i - 1))
prev_test n i = ground arith

next_test : (n i : ℕ) → i ≤ n - 1 → (i == 0) ≡ (n - i + 1 == 0 || ltb n (n - i + 1))
next_test n i h = ground arith

-- In a valid ring, `prev` selects the entry before the selected one in the order of `entries`, newest
-- first, and `next` the one behind it, as `select_index` does, which refuses a position that is out of
-- range.
pub prev-next :
    (c : Clipboard)
    → IsValid c
    → (prev c ≡ select_index c (position c - 1)) × (next c ≡ select_index c (position c + 1))
unfolding prev next size select_index
prev-next c h =
    let n = length c.clipboards in
    (
      choices (leb n (c.idx + 1)) (n - c.idx - 1 == 0 || ltb n (n - c.idx - 1)) c (c.idx + 1)
          (n - (n - c.idx - 1)) (prev_test n c.idx) (λ e. ground arith),
      choices (c.idx == 0) (n - c.idx + 1 == 0 || ltb n (n - c.idx + 1)) c (c.idx - 1)
          (n - (n - c.idx + 1)) (next_test n c.idx h.selects) (λ e. ground arith),
    )

put-IsValid : (c : Clipboard) (text : Bytes) → IsValid c → IsValid (put c text)
put-IsValid c text h = record {
  is_bounded = put-IsBounded c text h.is_bounded;
  selects = unfold put in omega (arith, length-append (make_room c.clipboards) (text ∷ []));
}

apply-IsValid : (c : Clipboard) (o : Operation) → IsValid c → IsValid (apply c o)
unfolding apply
apply-IsValid c (putting text) h = put-IsValid c text h
apply-IsValid c (selecting i) h = select_index-IsValid c i h
apply-IsValid c selecting_prev h =
    subst (λ (r : Bool × Clipboard). IsValid r.1) (sym (prev-next c h).0)
      (select_index-IsValid c (position c - 1) h)
apply-IsValid c selecting_next h =
    subst (λ (r : Bool × Clipboard). IsValid r.1) (sym (prev-next c h).1)
      (select_index-IsValid c (position c + 1) h)
apply-IsValid c clearing h = record {
  is_bounded = unfold clear in omega arith;
  selects = unfold clear in omega arith;
}

-- After any calls on a valid ring, the ring holds at most ten texts, and the selected index is that of
-- a text, or zero in an empty ring.
pub apply_all-IsValid : (c : Clipboard) (os : List Operation) → IsValid c → IsValid (apply_all c os)
unfolding apply_all
apply_all-IsValid c [] h = h
apply_all-IsValid c (o ∷ os) h = apply_all-IsValid (apply c o) os (apply-IsValid c o h)

get_elem?-append_left :
    (xs ys : List Bytes) (i : ℕ) → i < length xs → get_elem? (xs ++ ys) i ≡ get_elem? xs i
get_elem?-append_left [] ys i h = absurd (omega arith)
get_elem?-append_left (x ∷ xs) ys zero h = refl
get_elem?-append_left (x ∷ xs) ys (suc i) h = get_elem?-append_left xs ys i (omega arith)

get_elem?-append_last :
    (xs : List Bytes) (y : Bytes) (i : ℕ) → i ≡ length xs → get_elem? (xs ++ y ∷ []) i ≡ some y
get_elem?-append_last [] y zero h = refl
get_elem?-append_last [] y (suc i) h = absurd (omega arith)
get_elem?-append_last (x ∷ xs) y zero h = absurd (omega arith)
get_elem?-append_last (x ∷ xs) y (suc i) h = get_elem?-append_last xs y i (omega arith)

get_elem?-reverse :
    (xs : List Bytes) (i j : ℕ) → i + j + 1 ≡ length xs → get_elem? (reverse xs) j ≡ get_elem? xs i
get_elem?-reverse [] i j h = absurd (omega arith)
get_elem?-reverse (x ∷ xs) zero j h =
    ap (λ ys. get_elem? ys j) (reverse-cons x xs)
    ∙ get_elem?-append_last (reverse xs) x j (omega (arith, length-reverse xs))
get_elem?-reverse (x ∷ xs) (suc i) j h =
    ap (λ ys. get_elem? ys j) (reverse-cons x xs)
    ∙ get_elem?-append_left (reverse xs) (x ∷ []) j (omega (arith, length-reverse xs))
    ∙ get_elem?-reverse xs i j (omega arith)

-- What a selection of the entry `i`, counted from one, does.
abbrev pub Selects : Clipboard → ℕ → Bool × Clipboard → Type 0
Selects c i (true, c') =
    (1 ≤ i)
    × (i ≤ length (entries c))
    × (entries c' ≡ entries c)
    × (selected_index c' ≡ some i)
    × (get c' ≡ get_elem? (entries c) (i - 1))
Selects c i (false, c') = (i ≡ 0 ⊎ length (entries c) < i) × (c' ≡ c)

selected_index_at :
    (texts : List Bytes) (i : ℕ)
    → 1 ≤ i
    → i ≤ length texts
    → selected_index (record { idx = length texts - i; clipboards = texts }) ≡ some i
unfolding selected_index
selected_index_at [] i l u = absurd (omega arith)
selected_index_at (x ∷ xs) i l u = ap some (omega arith)

-- `select_index` tells whether the position is one of the entries, newest first and counted from one.
-- If so, that entry is the selected one, and its position the selected index; else nothing changes.
pub select_index-Selects : (c : Clipboard) (i : ℕ) → Selects c i (select_index c i)
unfolding select_index entries get
select_index-Selects c i =
    let n : length (entries c) ≡ length c.clipboards = length-reverse c.clipboards in
    if_cases (Selects c i) (i == 0 || ltb (length c.clipboards) i) (false, c)
      (true, record c { idx = length c.clipboards - i })
      (λ e. (rw n (refused (length c.clipboards) e), refl))
      (λ e.
        let (l, u) = accepted (length c.clipboards) e in
        (
          l,
          rw n u,
          refl,
          selected_index_at c.clipboards i l u,
          sym (get_elem?-reverse c.clipboards (length c.clipboards - i) (i - 1) (omega arith)),
        ))
  where
    refused : (n : ℕ) → (i == 0 || ltb n i) ≡ true → i ≡ 0 ⊎ n < i
    refused n e = ground arith

    accepted : (n : ℕ) → (i == 0 || ltb n i) ≡ false → (1 ≤ i) × (i ≤ n)
    accepted n e = ground arith
