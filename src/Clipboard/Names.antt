-- ===== src/Clipboard/Names.antt =====
-- The registers and providers of src/clipboard.rs, and their names.
use lector.Prelude.{
  ◌↔◌, ◌≡◌, refl, Option, none, some, [], ◌∷◌, Bytes, bytes, Bool, true, false, ◌==◌, ==→eq,
  and_true, if◌then◌else◌, bytes_eq,
}

pub data ClipboardRegister : Type 0 where
  internal system : ClipboardRegister

abbrev pub register_name : ClipboardRegister → Bytes
register_name internal = bytes "\""
register_name system = bytes "+"

unfoldable pub parse_register : Bytes → Option ClipboardRegister
parse_register value =
    if bytes_eq value (bytes "\"")
    then some internal
    else if bytes_eq value (bytes "+")
    then some system
    else none

pub data SystemClipboardProvider : Type 0 where
  native osc52 : SystemClipboardProvider

abbrev pub provider_name : SystemClipboardProvider → Bytes
provider_name native = bytes "native"
provider_name osc52 = bytes "osc52"

unfoldable pub parse_provider : Bytes → Option SystemClipboardProvider
parse_provider value =
    if bytes_eq value (bytes "native")
    then some native
    else if bytes_eq value (bytes "osc52")
    then some osc52
    else none

pub bytes_eq→eq : (xs ys : Bytes) → bytes_eq xs ys ≡ true → xs ≡ ys
bytes_eq→eq [] [] h = refl
bytes_eq→eq [] (y ∷ ys) h = cc h
bytes_eq→eq (x ∷ xs) [] h = cc h
bytes_eq→eq (x ∷ xs) (y ∷ ys) h =
    let (e, k) = and_true (x == y) (bytes_eq xs ys) h in cc (==→eq x y e, bytes_eq→eq xs ys k)

choice-name :
    {A : Type 0} (name : A → Bytes) (value : Bytes) (x y r : A) (b b' : Bool)
    → (b ≡ true → value ≡ name x)
    → (b' ≡ true → value ≡ name y)
    → (if b then some x else if b' then some y else none) ≡ some r
    → value ≡ name r
choice-name name value x y r true b' h k e = cc (h refl, e)
choice-name name value x y r false true h k e = cc (k refl, e)
choice-name name value x y r false false h k e = cc e

-- Each register is read from its own name, and from no other text.
pub parse_register-iff-name :
    (value : Bytes) (r : ClipboardRegister)
    → (parse_register value ≡ some r) ↔ (value ≡ register_name r)
unfolding parse_register
parse_register-iff-name value r = (
  choice-name register_name value internal system r (bytes_eq value (bytes "\""))
      (bytes_eq value (bytes "+")) (bytes_eq→eq value _) (bytes_eq→eq value _),
  λ e. rw e (own r),
)
  where
    own : (q : ClipboardRegister) → parse_register (register_name q) ≡ some q
    own internal = refl
    own system = refl

-- Each provider is read from its own name, and from no other text.
pub parse_provider-iff-name :
    (value : Bytes) (p : SystemClipboardProvider)
    → (parse_provider value ≡ some p) ↔ (value ≡ provider_name p)
unfolding parse_provider
parse_provider-iff-name value p = (
  choice-name provider_name value native osc52 p (bytes_eq value (bytes "native"))
      (bytes_eq value (bytes "osc52")) (bytes_eq→eq value _) (bytes_eq→eq value _),
  λ e. rw e (own p),
)
  where
    own : (q : SystemClipboardProvider) → parse_provider (provider_name q) ≡ some q
    own native = refl
    own osc52 = refl
