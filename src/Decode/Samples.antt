-- ===== src/Decode/Samples.antt =====
-- The theorems on `decode_message` of src/decode/mod.rs and on `link` of src/message/mod.rs at a
-- concrete message: `M` with a oneof `o` of `int32 a = 1` and `int32 b = 2`.
use fastproto.Common.{arith, ℕ, ◌+◌, ◌≡◌, refl, true, false, ok, some, none, List, [], ◌∷◌, map}
use fastproto.Common.Int.{pos}
use fastproto.Common.Utf8.{Text, is_utf8, utf8_step}
use fastproto.Wire.Types.{from_u64}
use fastproto.Wire.Reader.{is_empty, read_tag, read_varint, read_len_delimited, raw_since, skip}
use fastproto.Wire.Loop.{read_all, read_while}
use fastproto.Descriptor.Types.{
  FieldDescriptor, FieldKind, MessageDescriptor, int32, optional, max_depth, wire_type,
}
use fastproto.Descriptor.Index.{build, get, max_number, fill}
use fastproto.Parse.Types.{read_string, scalar_from_proto_type}
use fastproto.Parse.RawField.{parse_raw_field, raw_round, raw_arm}
use fastproto.Parse.Interpret.{
  interpret_field, field_of, map_entry_of, kind_of, plain_field, label_of,
}
use fastproto.Parse.Message.{
  parse_message, message_round, message_arm, interpret_all, clip_oneof, oneof_round,
}
use fastproto.Message.Link.{Handle, FastInit}
use fastproto.Message.Class.{Descriptor, name_of}
use fastproto.Message.Linking.{link, collect_linked, set_fast_init}
use fastproto.Message.Ready.{IsReady, IsLinked, link-IsLinked}
use fastproto.Python.Values.{Value, int_object, class_object, none_object, values, runtime}
use fastproto.Python.Safe.{Safe}
use fastproto.Decode.Scalars.{decode_scalar}
use fastproto.Decode.Slots.{
  absent, present, Collected, accumulator, accumulators, put, owner_of, clear_other, take_group,
}
use fastproto.Decode.Message.{
  expected, keep_unknown, store, singular_arm, kind_arm, known_field, field_arm, field_round,
  collect, decode_message, decode,
}
use fastproto.Decode.Unknown.{unknown_fields}
use fastproto.Decode.Kept.{collect-unknown_fields}
use fastproto.Decode.Total.{decode-Safe, collect-one_member}

abbrev bytes : List ℕ
bytes =
    10 ∷ 1 ∷ 77 ∷ 18 ∷ 9 ∷ 10 ∷ 1 ∷ 97 ∷ 24 ∷ 1 ∷ 40 ∷ 5 ∷ 72 ∷ 0 ∷ 18 ∷ 9 ∷ 10 ∷ 1 ∷ 98 ∷ 24 ∷ 2
    ∷ 40 ∷ 5 ∷ 72 ∷ 0 ∷ 66 ∷ 3 ∷ 10 ∷ 1 ∷ 111 ∷ []

abbrev member : ℕ → Text → FieldDescriptor
member number name = record {
  number = number;
  name = name;
  kind = FieldKind.scalar int32;
  label = optional;
  type_name = none;
  oneof_index = some 0;
}

abbrev two_members : MessageDescriptor
two_members = record {
  name = 77 ∷ [];
  fields = member 1 (97 ∷ []) ∷ member 2 (98 ∷ []) ∷ [];
  oneofs = (111 ∷ []) ∷ [];
}

parses : parse_message bytes ≡ ok two_members
unfolding parse_message read_all read_while is_empty message_round read_tag read_varint from_u64
    message_arm read_string read_len_delimited is_utf8 parse_raw_field raw_round raw_arm
    interpret_all interpret_field field_of map_entry_of kind_of plain_field label_of
    scalar_from_proto_type clip_oneof utf8_step oneof_round
parses = refl

abbrev compiled : Descriptor Value
compiled = record {
  inner = two_members;
  names = map name_of two_members.fields;
  field_index = build two_members.fields;
  refs = none;
  linked = false;
  fast_init = none;
}

compiled-IsReady : IsReady compiled
compiled-IsReady = record {
  compiled = record { data_bytes = bytes; parsed = parses; same_names = refl; same_index = refl };
  defaults = tt;
}

abbrev all_compiled : Handle → Descriptor Value
all_compiled h = compiled

decode-Safe_example :
    Safe (decode values runtime all_compiled compiled (class_object 0) (8 ∷ 1 ∷ 16 ∷ 2 ∷ []))
decode-Safe_example =
    decode-Safe values runtime all_compiled (λ h. compiled-IsReady) compiled compiled-IsReady
      (class_object 0) (8 ∷ 1 ∷ 16 ∷ 2 ∷ [])

-- Both members are on the wire, and the second stays.
abbrev last_wins : Collected Value
last_wins = record {
  values = absent ∷ present (int_object (pos 2)) ∷ [];
  unknown = [];
  owner = (0, 1) ∷ (0, 0) ∷ [];
}

collects :
    collect values runtime all_compiled
      (decode_message values runtime all_compiled (max_depth + 1))
      compiled
      (8 ∷ 1 ∷ 16 ∷ 2 ∷ [])
      0
    ≡ ok last_wins
unfolding collect read_all read_while is_empty field_round read_tag read_varint from_u64 field_arm
    known_field take_group clear_other owner_of put kind_arm singular_arm store decode_scalar
    accumulators accumulator expected wire_type get build max_number fill
collects = refl

collect-one_member_example : ◌≡◌ {A = ℕ} 1 1
collect-one_member_example =
    collect-one_member values runtime all_compiled (λ h. compiled-IsReady) compiled compiled-IsReady
      (max_depth + 1) 0 (omega arith) (omega arith) (8 ∷ 1 ∷ 16 ∷ 2 ∷ []) last_wins collects 1 1 0
      (member 2 (98 ∷ [])) (member 2 (98 ∷ [])) (present (int_object (pos 2)))
      (present (int_object (pos 2))) refl refl (refl, refl) (refl, refl) (refl, (λ e. cc))
      (refl, (λ e. cc))

abbrev fast : FastInit Value
fast = record { cls = class_object 0; defaults = none_object ∷ none_object ∷ [] }

abbrev linked : Descriptor Value
linked = record compiled { refs = some []; linked = true; fast_init = some fast }

links : link values runtime compiled [] (some fast) ≡ ok linked
unfolding link collect_linked set_fast_init
links = refl

link-IsLinked_example : IsLinked values runtime compiled linked
link-IsLinked_example =
    link-IsLinked values runtime compiled [] (some fast) linked compiled-IsReady links

-- A field 3, which the message does not have, between the two.
abbrev with_unknown : Collected Value
with_unknown = record {
  values = absent ∷ present (int_object (pos 2)) ∷ [];
  unknown = 26 ∷ 1 ∷ 65 ∷ [];
  owner = (0, 1) ∷ (0, 0) ∷ [];
}

keeps :
    collect values runtime all_compiled
      (decode_message values runtime all_compiled (max_depth + 1))
      compiled
      (8 ∷ 1 ∷ 26 ∷ 1 ∷ 65 ∷ 16 ∷ 2 ∷ [])
      0
    ≡ ok with_unknown
unfolding collect read_all read_while is_empty field_round read_tag read_varint from_u64 field_arm
    known_field take_group clear_other owner_of put kind_arm singular_arm store decode_scalar
    accumulators accumulator expected wire_type get build max_number fill keep_unknown skip
    read_len_delimited raw_since
keeps = refl

collect-unknown_fields_example :
    unknown_fields two_members.fields (8 ∷ 1 ∷ 26 ∷ 1 ∷ 65 ∷ 16 ∷ 2 ∷ []) ≡ ok (26 ∷ 1 ∷ 65 ∷ [])
collect-unknown_fields_example =
    collect-unknown_fields values runtime all_compiled
      (decode_message values runtime all_compiled (max_depth + 1)) 0 compiled
      (let ready = compiled-IsReady in ready.compiled) (8 ∷ 1 ∷ 26 ∷ 1 ∷ 65 ∷ 16 ∷ 2 ∷ [])
      with_unknown keeps
