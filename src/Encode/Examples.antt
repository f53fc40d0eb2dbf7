-- ===== src/Encode/Examples.antt =====
-- The theorems on `encode_message` of src/encode/mod.rs at a concrete message.
use fastproto.Common.{ℕ, ◌≡◌, ◌≤◌, ok, some, ◌+◌, false, if◌then◌else◌, refl, none, [], ◌∷◌, map}
use fastproto.Common.Int.{pos}
use fastproto.Common.Text.{text_eq}
use fastproto.Common.Utf8.{Text}
use fastproto.Descriptor.Types.{FieldDescriptor, FieldKind, int32, optional, max_depth}
use fastproto.Descriptor.Index.{build}
use fastproto.Parse.Examples.{bytes, message, parses}
use fastproto.Message.Link.{Handle}
use fastproto.Message.Class.{Descriptor, name_of}
use fastproto.Message.Compiled.{IsCompiled}
use fastproto.Python.Values.{
  runtime-IteratorsEnd, Value, int_object, none_object, instance_object, missing, values, runtime,
}
use fastproto.Python.Safe.{Safe}
use fastproto.Encode.Message.{
  encode_message, encode, encode_fields, encode_field, encode_kind, encode_labelled, count_member,
  check_counts, after_fields, write_unknown, append_unknown,
}
use fastproto.Encode.Repeated.{encode_single}
use fastproto.Encode.Scalars.{encode_scalar_field, varint_arm}
use fastproto.Wire.Writer.{write_varint, write_tag, write_groups}
use fastproto.Encode.Members.{set_members, encode-one_member}
use fastproto.Encode.Reference.{message_bytes}
use fastproto.Encode.Writes.{Writes}
use fastproto.Encode.Walk.{encode_message-Writes}
use fastproto.Encode.Total.{encode-Safe}

abbrev compiled : Descriptor Value
compiled = record {
  inner = message;
  names = map name_of message.fields;
  field_index = build message.fields;
  refs = none;
  linked = false;
  fast_init = none;
}

compiled-IsCompiled : IsCompiled compiled
compiled-IsCompiled = record {
  data_bytes = bytes;
  parsed = parses;
  same_names = refl;
  same_index = refl;
}

abbrev all_compiled : Handle → Descriptor Value
all_compiled h = compiled

-- The one field has the value 150, and no bytes were kept.
abbrev sample : Value
sample = instance_object (λ name. if text_eq name (97 ∷ []) then int_object (pos 150) else missing)

encode_message-Writes_example :
    Writes
      (λ buf. encode_message values runtime all_compiled (max_depth + 2) sample compiled buf 0)
      (message_bytes values runtime all_compiled (max_depth + 2) sample compiled 0)
encode_message-Writes_example =
    encode_message-Writes values runtime all_compiled (max_depth + 2) sample compiled 0

encode-Safe_example : Safe (encode values runtime all_compiled compiled sample)
encode-Safe_example =
    encode-Safe values runtime runtime-IteratorsEnd all_compiled (λ h. compiled-IsCompiled) compiled
      compiled-IsCompiled sample

-- Two fields of one oneof, of which the instance sets the first.
abbrev member : ℕ → Text → FieldDescriptor
member number name = record {
  number = number;
  name = name;
  kind = FieldKind.scalar int32;
  label = optional;
  type_name = none;
  oneof_index = some 0;
}

abbrev two_members : Descriptor Value
two_members = record {
  inner = record {
    name = 77 ∷ [];
    fields = member 1 (97 ∷ []) ∷ member 2 (98 ∷ []) ∷ [];
    oneofs = (111 ∷ []) ∷ [];
  };
  names = (97 ∷ []) ∷ (98 ∷ []) ∷ [];
  field_index = build (member 1 (97 ∷ []) ∷ member 2 (98 ∷ []) ∷ []);
  refs = none;
  linked = false;
  fast_init = none;
}

abbrev one_set : Value
one_set = instance_object (λ name.
    if text_eq name (97 ∷ [])
    then int_object (pos 150)
    else if text_eq name (98 ∷ [])
    then none_object
    else missing)

encodes : encode values runtime all_compiled two_members one_set ≡ ok (8 ∷ 150 ∷ 1 ∷ [])
unfolding encode encode_message encode_fields encode_field encode_kind encode_labelled count_member
    check_counts after_fields write_unknown append_unknown encode_single text_eq encode_scalar_field
    varint_arm write_varint write_tag write_groups
encodes = refl

encode-one_member_example :
    set_members values runtime two_members.names one_set 0 0 two_members.inner.fields ≤ 1
encode-one_member_example =
    encode-one_member values runtime all_compiled two_members one_set (8 ∷ 150 ∷ 1 ∷ []) encodes 0
