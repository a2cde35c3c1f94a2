-- ===== src/Topology/Outcomes.antt =====
-- Predicates on the results of src/tmux_model.rs.
use lector.Prelude.{◌≡◌, refl, Bool, true, false, Option, none, some, subst}
use lector.Topology.Text.{Result, ok, err, ◌>>=◌, TopologyError, refuse_if, ok_or}

-- What is returned without an error satisfies the predicate.
pub data OnOk {A : Type 0} (P : A → Type 0) : Result A → Type 0 where
  returned : {a : A} → P a → OnOk P (ok a)
  refused : {reason : TopologyError} → OnOk P (err reason)

module _ {A B : Type 0} (P : B → Type 0) where
  -- Each step may use what the step before returned.
  pub OnOk-bind :
      (m : Result A) (f : A → Result B) → ((a : A) → m ≡ ok a → OnOk P (f a)) → OnOk P (m >>= f)
  OnOk-bind (ok a) f h = h a refl
  OnOk-bind (err reason) f h = refused

pub OnOk-refuse :
    {B : Type 0} (P : B → Type 0) (test : Bool) (reason : TopologyError) (f : Unit {0} → Result B)
    → (test ≡ false → OnOk P (f tt))
    → OnOk P (refuse_if test reason >>= f)
OnOk-refuse P true reason f h = refused
OnOk-refuse P false reason f h = h refl

pub OnOk-ok_or :
    {A B : Type 0} (P : B → Type 0) (o : Option A) (reason : TopologyError) (f : A → Result B)
    → ((a : A) → o ≡ some a → OnOk P (f a))
    → OnOk P (ok_or o reason >>= f)
OnOk-ok_or P none reason f h = refused
OnOk-ok_or P (some a) reason f h = h a refl

pub OnOk-elim : {A : Type 0} (P : A → Type 0) {r : Result A} (a : A) → OnOk P r → r ≡ ok a → P a
OnOk-elim P a (returned {a = b} p) e = let same : b ≡ a = cc in subst P same p
OnOk-elim P a refused e = cc
