-- ===== src/Frame/Util.antt =====
-- The protobuf utilities (src/frame/util.cpp): from the name of a field to its indices, and the filling of a
-- message. The protobuf library is a parameter; `none` stands for LOG(FATAL), which ends the process, for a read
-- through a null pointer, and for MutableRepeatedPtrField on a field that does not repeat messages, which ends the
-- process, too.
pub mod Named
mod Examples
use Prim.Native.String.{String}
use graphize.Common.{ℕ, List, [], ◌∷◌, Option, none, some, Bool, if◌then◌else◌, ◌>>=◌}

-- google::protobuf::FieldDescriptor
pub record FieldDescriptor : Type 0 where
  pub index : ℕ
  pub is_repeated : Bool
  pub is_map : Bool
  pub message_type : Bool

-- google::protobuf::Descriptor
pub record Descriptor : Type 0 where
  pub find_field_by_name : String → Option FieldDescriptor
  pub field : ℕ → Option FieldDescriptor

-- google::protobuf::Reflection for a message: `add` adds a message, parsed from the data, to a repeated field of
-- messages, `parse` parses the data into the message of a field.
pub record Reflection {ℓ} (Message : Type ℓ) (Data : Type ℓ) : Type ℓ where
  pub add : FieldDescriptor → Data → Message → Message
  pub parse : FieldDescriptor → Data → Message → Message

-- getTagSeqByName, behind boost::split.
unfoldable pub get_tag_seq_by_name : Descriptor → List String → Option (List ℕ)
get_tag_seq_by_name descriptor [] = some []
get_tag_seq_by_name descriptor (fname ∷ names) = do
  field ← descriptor.find_field_by_name fname
  tags ← get_tag_seq_by_name descriptor names
  some (field.index ∷ tags)

-- The loop of fillMessage over the indices, which leaves the last field.
unfoldable pub last_field : Descriptor → List ℕ → Option FieldDescriptor → Option FieldDescriptor
last_field descriptor [] fd = fd
last_field descriptor (i ∷ tags) fd = do f ← descriptor.field i; last_field descriptor tags (some f)

module _ {ℓ} {Message Data : Type ℓ} (reflection : Reflection Message Data) where
  unfoldable pub add_all : FieldDescriptor → List Data → Message → Message
  add_all fd [] msg = msg
  add_all fd (p ∷ texts) msg = add_all fd texts (reflection.add fd p msg)

  -- fillMessage for one field and the data from the first on.
  unfoldable pub fill_field : FieldDescriptor → Data → List Data → Message → Option Message
  unfolding add_all
  fill_field fd p texts msg =
      if fd.is_repeated
      then (if fd.message_type then some (add_all fd (p ∷ texts) msg) else none)
      else (if fd.is_map
          then none
          else (if fd.message_type then some (reflection.parse fd p msg) else none))

  -- fillMessage
  unfoldable pub fill_message : Descriptor → List ℕ → List Data → Message → Option Message
  unfolding last_field fill_field
  fill_message descriptor tags [] msg = some msg
  fill_message descriptor tags (p ∷ texts) msg = do
    fd ← last_field descriptor tags none
    fill_field fd p texts msg
