-- ===== src/Common/Options.antt =====
-- Chains of results that may be missing, and what a chain that gives one went through.
use mathlib.Core.Path.{◌≡◌, refl}
use mathlib.Core.Option.{Option, none, some}

infixl 5 ◌>>=◌
abbrev pub ◌>>=◌ {ℓ κ} : {A : Type ℓ} {B : Type κ} → Option A → (A → Option B) → Option B
none >>= f = none
some a >>= f = f a

module _ {ℓ κ} {A : Type ℓ} {B : Type κ} where
  pub some_of_bind :
      (o : Option A) (f : A → Option B) {b : B}
      → (o >>= f) ≡ some b
      → (a : A) × (o ≡ some a) × (f a ≡ some b)
  some_of_bind none f e = absurd (cc)
  some_of_bind (some a) f e = (a, refl, e)

  pub none_of_bind_some : (o : Option A) (f : A → B) → (o >>= λ a. some (f a)) ≡ none → o ≡ none
  none_of_bind_some none f e = refl
  none_of_bind_some (some a) f e = absurd (cc)
