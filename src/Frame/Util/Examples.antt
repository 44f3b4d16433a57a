-- ===== src/Frame/Util/Examples.antt =====
-- A message with a repeated field, a message, and a number, and a name in two parts.
use Prim.Native.String.{String}
use text.Mathlib.Text.{◌==◌}
use graphize.Common.{
  ℕ, zero, suc, ◌≡◌, refl, subst, List, [], ◌∷◌, ◌++◌, Option, none, some, true, false,
  if◌then◌else◌, Bool-cases, inl, inr, some-injective, none≢some, not_both,
}
use graphize.Frame.Util.{FieldDescriptor, Descriptor, Reflection, get_tag_seq_by_name, fill_message}
use graphize.Frame.Util.Named.{IsConsistent, fill_message-named}

abbrev items : FieldDescriptor
items = record { index = 0; is_repeated = true; is_map = false; message_type = true }

abbrev sub : FieldDescriptor
sub = record { index = 1; is_repeated = false; is_map = false; message_type = true }

abbrev find : String → Option FieldDescriptor
find name = if name == "items" then some items else (if name == "sub" then some sub else none)

abbrev field : ℕ → Option FieldDescriptor
field zero = some items
field (suc zero) = some sub
field (suc (suc i)) = none

abbrev descriptor : Descriptor
descriptor = record { find_field_by_name = find; field = field }

-- A message is what was done to it.
abbrev reflection : Reflection (List String) String
reflection = record { add = λ fd text msg. msg ++ text ∷ []; parse = λ fd text msg. text ∷ [] }

only_two :
    (P : FieldDescriptor → Type 0) (name : String) (fd : FieldDescriptor)
    → find name ≡ some fd
    → P items
    → P sub
    → P fd
only_two P name fd e first second = elim (Bool-cases (name == "items")) [
  | inl is ↦ subst P (some-injective (rw is at e)) first
  | inr other ↦ elim (Bool-cases (name == "sub")) [
    | inl is ↦ subst P (some-injective (rw (other, is) at e)) second
    | inr neither ↦ absurd (none≢some (rw (other, neither) at e))
  ]
]

descriptor-IsConsistent : IsConsistent descriptor
descriptor-IsConsistent = record {
  at_index = λ name fd e. only_two (λ f. field f.index ≡ some f) name fd e refl refl;
  maps = λ name fd e is.
      only_two (λ f. f.is_map ≡ true → f.is_repeated ≡ true) name fd e (λ is. refl)
        (λ is. absurd (not_both is refl)) is;
}

tagged : get_tag_seq_by_name descriptor ("sub" ∷ "items" ∷ []) ≡ some (1 ∷ 0 ∷ [])
unfolding get_tag_seq_by_name
tagged = refl

fill_message-named_example :
    fill_message reflection descriptor (1 ∷ 0 ∷ []) ("a" ∷ "b" ∷ []) [] ≡ some ("a" ∷ "b" ∷ [])
unfolding fill_message
fill_message-named_example =
    fill_message-named reflection descriptor ("sub" ∷ []) "items" (1 ∷ 0 ∷ []) items "a" ("b" ∷ [])
      [] descriptor-IsConsistent tagged refl
