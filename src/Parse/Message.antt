-- ===== src/Parse/Message.antt =====
-- `parse_message` (src/parse/mod.rs).
use fastproto.Common.{
  ℕ, ◌==◌, leb, if◌then◌else◌, ◌&&◌, Option, none, some, List, [], ◌∷◌, ◌++◌, length, map, Result,
  ok, ◌>>=◌,
}
use fastproto.Common.Utf8.{Text}
use fastproto.Wire.Types.{WireType, len, wire_eq}
use fastproto.Wire.Reader.{Reader, read_tag, read_len_delimited, skip}
use fastproto.Wire.Loop.{read_all}
use fastproto.Descriptor.Types.{FieldDescriptor, MessageDescriptor}
use fastproto.Parse.Types.{ParseError, lift, read_string}
use fastproto.Parse.RawField.{RawField, parse_raw_field}
use fastproto.Parse.MapEntry.{MapEntry, parse_nested_map_entry}
use fastproto.Parse.Interpret.{MapEntries, interpret_field}

-- The loop's variables.
pub record MessageState : Type 0 where
  pub name : Text
  pub raw_fields : List RawField
  pub map_entries : MapEntries
  pub oneofs : List Text

abbrev pub start : MessageState
start = record { name = []; raw_fields = []; map_entries = []; oneofs = [] }

-- `OneofDescriptorProto`: name = 1.
unfoldable pub oneof_round : Text → Reader → Result ParseError (Text × Reader)
oneof_round name r = do
  ((n, w), r') ← lift (read_tag r)
  if n == 1 && wire_eq w len then read_string r' else (do r'' ← lift (skip w r'); ok (name, r''))

abbrev insert_entry : Option (Text × MapEntry) → MapEntries → MapEntries
insert_entry none entries = entries
insert_entry (some e) entries = e ∷ entries

unfoldable pub message_arm :
    MessageState → ℕ → WireType → Reader → Result ParseError (MessageState × Reader)
message_arm s number w r =
    if number == 1 && wire_eq w len
    then (do (text, r') ← read_string r; ok (record s { name = text }, r'))
    else if number == 2 && wire_eq w len
    then (do
      (chunk, r') ← lift (read_len_delimited r)
      raw ← parse_raw_field chunk
      ok (record s { raw_fields = s.raw_fields ++ (raw ∷ []) }, r'))
    else if number == 3 && wire_eq w len
    then (do
      (nested, r') ← lift (read_len_delimited r)
      found ← parse_nested_map_entry nested
      ok (record s { map_entries = insert_entry found s.map_entries }, r'))
    else if number == 8 && wire_eq w len
    then (do
      (decl, r') ← lift (read_len_delimited r)
      oneof_name ← read_all oneof_round [] decl
      ok (record s { oneofs = s.oneofs ++ (oneof_name ∷ []) }, r'))
    else (do r' ← lift (skip w r); ok (s, r'))

unfoldable pub message_round : MessageState → Reader → Result ParseError (MessageState × Reader)
message_round s r = do ((number, w), r') ← lift (read_tag r); message_arm s number w r'

-- `.map(..).collect::<Result<Vec<_>, _>>()`
unfoldable pub interpret_all :
    List RawField → MapEntries → Text → Result ParseError (List FieldDescriptor)
interpret_all [] entries name = ok []
interpret_all (raw ∷ raws) entries name = do
  field ← interpret_field raw entries name
  fields ← interpret_all raws entries name
  ok (field ∷ fields)

abbrev pub clip : ℕ → Option ℕ → Option ℕ
clip n none = none
clip n (some idx) = if leb n idx then none else some idx

-- A oneof index past the declared groups is dropped.
unfoldable pub clip_oneof : ℕ → FieldDescriptor → FieldDescriptor
clip_oneof n field = record field { oneof_index = clip n field.oneof_index }

unfoldable pub parse_message : List ℕ → Result ParseError MessageDescriptor
parse_message bytes = do
  s ← read_all message_round start bytes
  fields ← interpret_all s.raw_fields s.map_entries s.name
  ok (record {
    name = s.name;
    fields = map (clip_oneof (length s.oneofs)) fields;
    oneofs = s.oneofs;
  })
