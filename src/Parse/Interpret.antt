-- ===== src/Parse/Interpret.antt =====
-- `interpret_field` (src/parse/mod.rs).
use fastproto.Common.{
  ℕ, if◌then◌else◌, ◌&&◌, ◌||◌, Bool, true, false, Option, none, some, List, [], ◌∷◌, Result, ok,
  err, ◌>>=◌, ok_or, get_elem?,
}
use mathlib.Core.Option
use fastproto.Common.Int.{ℤ, as_i32, as_u64}
use fastproto.Common.Utf8.{Text}
use fastproto.Common.Text.{text_eq, rsplit}
use fastproto.Descriptor.Types.{FieldKind, FieldDescriptor, Label, single, optional, repeated}
use fastproto.Parse.Types.{
  ParseError, unsupported_type, missing_type, full_name, short_name, type_enum, type_message,
  type_group, label_repeated, int_eq, timestamp_full_name, duration_full_name,
  scalar_from_proto_type,
}
use fastproto.Parse.RawField.{RawField}
use fastproto.Parse.MapEntry.{MapEntry}

-- `HashMap<String, MapEntry>`: the entry inserted last stands first.
abbrev pub MapEntries : Type 0
MapEntries = List (Text × MapEntry)

unfoldable pub get_entry : MapEntries → Text → Option MapEntry
get_entry [] key = none
get_entry ((name, entry) ∷ rest) key = if text_eq name key then some entry else get_entry rest key

-- `full.rsplit('.').nth(1) == Some(msg_name)`
unfoldable pub parent_is : Text → Text → Bool
parent_is full msg_name = elim (get_elem? (rsplit b'.' full) 1) [
  | none ↦ false
  | some parent ↦ text_eq parent msg_name
]

-- The entry of a map field: a repeated message whose type is a map entry nested in this message.
unfoldable pub map_entry_of : RawField → ℤ → MapEntries → Text → Option MapEntry
map_entry_of raw code entries msg_name =
    if int_eq raw.label label_repeated && int_eq code type_message
    then (elim raw.type_name [
      | none ↦ none
      | some full ↦ if parent_is full msg_name then get_entry entries (short_name full) else none
    ])
    else none

unfoldable pub message_kind : Option Text → FieldKind × Option Text
message_kind none = (FieldKind.message, none)
message_kind (some full) =
    if text_eq full timestamp_full_name
    then (FieldKind.timestamp, none)
    else if text_eq full duration_full_name
    then (FieldKind.duration, none)
    else (FieldKind.message, some (full_name full))

unfoldable pub kind_of : ℤ → Option Text → Result ParseError (FieldKind × Option Text)
kind_of code full =
    if int_eq code type_enum
    then ok (FieldKind.enum, Option.map full_name full)
    else if int_eq code type_message
    then ok (message_kind full)
    else if int_eq code type_group
    then err (unsupported_type (as_i32 (as_u64 type_group)))
    else (do
      s ← ok_or (scalar_from_proto_type code) (unsupported_type (as_i32 (as_u64 code)))
      ok (FieldKind.scalar s, none))

-- `matches!(kind, Message | Timestamp | Duration)`
abbrev pub is_message_like : FieldKind → Bool
is_message_like FieldKind.message = true
is_message_like FieldKind.timestamp = true
is_message_like FieldKind.duration = true
is_message_like _ = false

abbrev pub is_some : Option ℕ → Bool
is_some none = false
is_some (some _) = true

unfoldable pub label_of : Bool → Bool → FieldKind → Option ℕ → Label
label_of is_repeated proto3_optional kind real_oneof =
    if is_repeated
    then repeated
    else if proto3_optional || (is_message_like kind || is_some real_oneof)
    then optional
    else single

-- The two ways to return: a map field, and any other.
unfoldable pub map_field : RawField → MapEntry → FieldDescriptor
map_field raw entry = record {
  number = raw.number;
  name = raw.name;
  kind = FieldKind.map_of entry.key entry.value;
  label = single;
  type_name = entry.value_type_name;
  oneof_index = none;
}

unfoldable pub plain_field : RawField → FieldKind → Option Text → FieldDescriptor
plain_field raw kind type_name =
    let real_oneof = if raw.proto3_optional then none else raw.oneof_index in
    record {
      number = raw.number;
      name = raw.name;
      kind = kind;
      label = label_of (int_eq raw.label label_repeated) raw.proto3_optional kind real_oneof;
      type_name = type_name;
      oneof_index = real_oneof;
    }

unfoldable pub field_of : RawField → ℤ → Option MapEntry → Result ParseError FieldDescriptor
field_of raw code (some entry) = ok (map_field raw entry)
field_of raw code none = do
  (kind, type_name) ← kind_of code raw.type_name
  ok (plain_field raw kind type_name)

unfoldable pub interpret_field : RawField → MapEntries → Text → Result ParseError FieldDescriptor
interpret_field raw entries msg_name = do
  code ← ok_or raw.type_code missing_type
  field_of raw code (map_entry_of raw code entries msg_name)
