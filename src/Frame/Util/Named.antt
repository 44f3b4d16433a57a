-- ===== src/Frame/Util/Named.antt =====
-- A message that is filled by the name of a field (src/frame/util.cpp).
use Prim.Native.String.{String}
use graphize.Common.{
  ℕ, ◌≡◌, refl, sym, ap, ◌∙◌, List, [], ◌∷◌, ◌++◌, Option, none, some, Bool, true, false,
  if◌then◌else◌, ◌>>=◌, some_of_bind, some-injective, not_both,
}
use mathlib.Core.List.{foldl}
use graphize.Frame.Util.{
  FieldDescriptor, Descriptor, Reflection, get_tag_seq_by_name, last_field, add_all, fill_field,
  fill_message,
}

-- What protobuf documents: a field that is found has the index under which it stands, and a map is a
-- repeated field.
pub record IsConsistent (descriptor : Descriptor) : Type 0 where
  pub at_index :
      (name : String) (fd : FieldDescriptor)
      → descriptor.find_field_by_name name ≡ some fd
      → descriptor.field fd.index ≡ some fd
  pub maps :
      (name : String) (fd : FieldDescriptor)
      → descriptor.find_field_by_name name ≡ some fd
      → fd.is_map ≡ true
      → fd.is_repeated ≡ true

module _ (descriptor : Descriptor) (c : IsConsistent descriptor) where
  -- The loop ends at the field of the last name, wherever it started.
  last_field-named :
      (path : List String) (name : String) (tags : List ℕ) (fd : FieldDescriptor)
      (before : Option FieldDescriptor)
      → get_tag_seq_by_name descriptor (path ++ name ∷ []) ≡ some tags
      → descriptor.find_field_by_name name ≡ some fd
      → last_field descriptor tags before ≡ some fd
  unfolding get_tag_seq_by_name last_field
  last_field-named [] name tags fd before e found =
      let only : fd.index ∷ [] ≡ tags = some-injective (rw found at e) in
      sym (ap (λ t. last_field descriptor t before) only)
      ∙ ap (λ o. o >>= (λ f. some f)) (c.at_index name fd found)
  last_field-named (first ∷ path) name tags fd before e found =
      let (f, is_first, rest) = some_of_bind (descriptor.find_field_by_name first) _ e in
      let (tags', later, put) =
        some_of_bind (get_tag_seq_by_name descriptor (path ++ name ∷ [])) _ rest in
      sym (ap (λ t. last_field descriptor t before) (some-injective put))
      ∙ ap (λ o. o >>= (λ x. last_field descriptor tags' (some x))) (c.at_index first f is_first)
      ∙ last_field-named path name tags' fd (some f) later found

module _ {ℓ} {Message Data : Type ℓ} (reflection : Reflection Message Data) where
  add_all-foldl :
      (fd : FieldDescriptor) (texts : List Data) (msg : Message)
      → add_all reflection fd texts msg ≡ foldl (λ m p. reflection.add fd p m) msg texts
  unfolding add_all
  add_all-foldl fd [] msg = refl
  add_all-foldl fd (p ∷ texts) msg = add_all-foldl fd texts (reflection.add fd p msg)

  -- The branches of fillMessage, of which the one for maps is never taken.
  branches :
      (is_repeated is_map message_type : Bool) {all each : Message} (one : Message)
      → (is_map ≡ true → is_repeated ≡ true)
      → all ≡ each
      → (if is_repeated
          then (if message_type then some all else none)
          else (if is_map then none else (if message_type then some one else none)))
        ≡ (if message_type then some (if is_repeated then each else one) else none)
  branches true is_map true one maps e = ap some e
  branches true is_map false one maps e = refl
  branches false true message_type one maps e = absurd (not_both (maps refl) refl)
  branches false false true one maps e = refl
  branches false false false one maps e = refl

  -- What is filled: a message is added for each of the data, or the first is parsed.
  abbrev pub filled : FieldDescriptor → Data → List Data → Message → Option Message
  filled fd p texts msg =
      if fd.message_type
      then some (
          if fd.is_repeated
          then foldl (λ m q. reflection.add fd q m) msg (p ∷ texts)
          else reflection.parse fd p msg)
      else none

  fill_field-maps :
      (fd : FieldDescriptor) (p : Data) (texts : List Data) (msg : Message)
      → (fd.is_map ≡ true → fd.is_repeated ≡ true)
      → fill_field reflection fd p texts msg ≡ filled fd p texts msg
  unfolding fill_field
  fill_field-maps fd p texts msg maps =
      branches fd.is_repeated fd.is_map fd.message_type (reflection.parse fd p msg) maps
        (add_all-foldl fd (p ∷ texts) msg)

-- If protobuf keeps what it documents, getTagSeqByName finds each part of a name, and there are data: the field is
-- the one that has the last part of the name in the descriptor of the whole message. If it holds messages, fillMessage
-- adds one for each of the data, in their order, if it is repeated, and parses the first of the data into it if it is
-- not; if it does not hold messages, the process ends. It does not go into the fields of the parts before, nor
-- refuse a map.
pub fill_message-named {ℓ} :
    {Message Data : Type ℓ}
    → (reflection : Reflection Message Data) (descriptor : Descriptor) (path : List String)
      (name : String) (tags : List ℕ) (fd : FieldDescriptor) (p : Data) (texts : List Data)
      (msg : Message)
    → IsConsistent descriptor
    → get_tag_seq_by_name descriptor (path ++ name ∷ []) ≡ some tags
    → descriptor.find_field_by_name name ≡ some fd
    → fill_message reflection descriptor tags (p ∷ texts) msg ≡ (
        if fd.message_type
        then some (
            if fd.is_repeated
            then foldl (λ m q. reflection.add fd q m) msg (p ∷ texts)
            else reflection.parse fd p msg)
        else none)
unfolding fill_message
fill_message-named reflection descriptor path name tags fd p texts msg c e found =
    ap (λ o. o >>= (λ f. fill_field reflection f p texts msg))
      (last_field-named descriptor c path name tags fd none e found)
    ∙ fill_field-maps reflection fd p texts msg (c.maps name fd found)
