-- ===== src/Common/Maps.antt =====
-- Maps by name, as lists in which a name that is there is kept.
use Prim.Native.String.{String}
use text.Mathlib.Text.{◌==◌}
use text.Mathlib.TextEquality.{eq_iff}
use mathlib.Core.Path.{◌≡◌, refl, sym}
use mathlib.Core.Option.{Option, none, some}
use mathlib.Core.List.{List, [], ◌∷◌}
use native.Mathlib.Omega.{arith}
use mathlib.Core.Logic.{◌⊎◌, inl, inr}
use graphize.Common.Tests.{Bool-cases, none≢some, some-injective, if◌then◌else◌}

module _ {ℓ} {V : Type ℓ} where
  unfoldable pub lookup : String → List (String × V) → Option V
  lookup name [] = none
  lookup name ((key, v) ∷ m) = if key == name then some v else lookup name m

  -- std::unordered_map::insert
  unfoldable pub insert_new : String → V → List (String × V) → List (String × V)
  insert_new name v [] = (name, v) ∷ []
  insert_new name v ((key, w) ∷ m) =
      if key == name then (key, w) ∷ m else (key, w) ∷ insert_new name v m

  -- The name is there.
  abbrev pub IsIn : String → List (String × V) → Type ℓ
  IsIn name m = (v : V) × (lookup name m ≡ some v)

  pub insert_new-IsIn :
      (name : String) (v : V) (m : List (String × V)) → IsIn name (insert_new name v m)
  unfolding lookup insert_new
  insert_new-IsIn name v [] = (v, ground (arith, eq_iff name name))
  insert_new-IsIn name v ((key, w) ∷ m) = elim (Bool-cases (key == name)) [
    | inl here ↦ (w, rw (here, here) refl)
    | inr other ↦ let (u, found) = insert_new-IsIn name v m in (u, rw (other, other) found)
  ]

  -- What was there is still there.
  pub IsIn-insert_new :
      (name key : String) (v : V) (m : List (String × V))
      → IsIn name m
      → IsIn name (insert_new key v m)
  unfolding lookup insert_new
  IsIn-insert_new name key v [] (u, e) = absurd (none≢some e)
  IsIn-insert_new name key v ((k, w) ∷ m) (u, e) = elim (Bool-cases (k == key)) [
    | inl here ↦ rw here (u, e)
    | inr other ↦ rw other (elim (Bool-cases (k == name)) [
      | inl found ↦ (w, rw found refl)
      | inr missed ↦
          let (x, there) = IsIn-insert_new name key v m (u, rw missed at e) in (x, rw missed there)
    ])
  ]

  -- What is found was there, or is what was inserted.
  pub lookup-insert_new :
      (name key : String) (v u : V) (m : List (String × V))
      → lookup name (insert_new key v m) ≡ some u
      → (lookup name m ≡ some u) ⊎ (u ≡ v)
  unfolding lookup insert_new
  lookup-insert_new name key v u [] e = elim (Bool-cases (key == name)) [
    | inl here ↦ inr (sym (some-injective (rw here at e)))
    | inr other ↦ absurd (none≢some (rw other at e))
  ]
  lookup-insert_new name key v u ((k, w) ∷ m) e = elim (Bool-cases (k == key)) [
    | inl here ↦ inl (rw here at e)
    | inr other ↦
        let f = rw other at e in
        elim (Bool-cases (k == name)) [
          | inl found ↦ rw found (inl (rw found at f))
          | inr missed ↦ rw missed (lookup-insert_new name key v u m (rw missed at f))
        ]
  ]
