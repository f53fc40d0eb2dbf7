-- ===== src/Parse/Examples.antt =====
-- The theorems on src/parse/mod.rs at concrete inputs: message `M` with a oneof `o` that
-- has one field, `int32 a = 1`.
use fastproto.Common.{ℕ, ◌≡◌, ◌≢◌, refl, List, [], ◌∷◌, none, some, ok, out_of_fuel}
use fastproto.Common.Int.{pos}
use fastproto.Common.Utf8.{is_utf8, utf8_step}
use fastproto.Wire.Types.{from_u64}
use fastproto.Wire.Reader.{is_empty, read_tag, read_varint, read_len_delimited}
use fastproto.Wire.Loop.{read_all, read_while}
use fastproto.Parse.Types.{read_string, scalar_from_proto_type}
use fastproto.Descriptor.Types.{FieldDescriptor, FieldKind, MessageDescriptor, int32, optional}
use fastproto.Parse.RawField.{RawField, default, parse_raw_field, raw_round, raw_arm}
use fastproto.Parse.Interpret.{
  interpret_field, field_of, map_entry_of, kind_of, plain_field, label_of,
}
use fastproto.Parse.Message.{
  parse_message, message_round, message_arm, interpret_all, clip_oneof, oneof_round,
}
use fastproto.Parse.Ends.{parse_message_ends}

abbrev pub bytes : List ℕ
bytes = 10 ∷ 1 ∷ 77 ∷ 18 ∷ 9 ∷ 10 ∷ 1 ∷ 97 ∷ 24 ∷ 1 ∷ 40 ∷ 5 ∷ 72 ∷ 0 ∷ 66 ∷ 3 ∷ 10 ∷ 1 ∷ 111 ∷ []

abbrev field : FieldDescriptor
field = record {
  number = 1;
  name = 97 ∷ [];
  kind = FieldKind.scalar int32;
  label = optional;
  type_name = none;
  oneof_index = some 0;
}

abbrev pub message : MessageDescriptor
message = record { name = 77 ∷ []; fields = field ∷ []; oneofs = (111 ∷ []) ∷ [] }

parse_message_ends_example : parse_message (10 ∷ 255 ∷ []) ≢ out_of_fuel
parse_message_ends_example = parse_message_ends (10 ∷ 255 ∷ [])

abbrev raw : RawField
raw = record default { name = 97 ∷ []; number = 1; type_code = some (pos 5); oneof_index = some 0 }

pub parses : parse_message bytes ≡ ok message
unfolding parse_message read_all read_while is_empty message_round read_tag read_varint from_u64
    message_arm read_string read_len_delimited is_utf8 parse_raw_field raw_round raw_arm
    interpret_all interpret_field field_of map_entry_of kind_of plain_field label_of
    scalar_from_proto_type clip_oneof utf8_step oneof_round
parses = refl
