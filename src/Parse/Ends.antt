-- ===== src/Parse/Ends.antt =====
-- The loops of the descriptor parser (src/parse/mod.rs) end on every input.
use fastproto.Common.{
  ℕ, ◌==◌, ◌≢◌, ◌&&◌, Bool, Option, none, some, List, [], ◌∷◌, out_of_fuel, bind_ends, ok_or_ends,
  if_ends, ok_ends, err_ends,
}
use fastproto.Common.Int.{ℤ}
use fastproto.Common.Utf8.{Text, is_utf8}
use fastproto.Wire.Types.{WireType, varint, len, wire_eq}
use fastproto.Wire.Reader.{Reader, read_varint, read_tag, read_len_delimited}
use fastproto.Wire.Steps.{
  Steps, moves, fails, Steps-if, Steps-from, Steps-bind, Steps-pure, Steps-store, Steps-map_err,
  Steps-skip, read_varint-Steps, read_tag-Steps, read_len_delimited-Steps, read_all_ends,
}
use fastproto.Parse.Types.{
  wire, lift, read_string, missing_type, int_eq, type_enum, type_message, type_group,
}
use fastproto.Parse.RawField.{RawField, raw_arm, raw_round, parse_raw_field}
use fastproto.Parse.MapEntry.{
  MapEntry, EntryState, map_value, entry_field, option_round, entry_arm, entry_round,
  parse_nested_map_entry,
}
use fastproto.Parse.Interpret.{MapEntries, kind_of, field_of, interpret_field, map_entry_of}
use fastproto.Parse.Message.{
  MessageState, start, oneof_round, message_arm, message_round, interpret_all, parse_message,
}

number-Steps : (r : Reader) → Steps r (lift (read_varint r))
number-Steps r = Steps-map_err wire (read_varint-Steps r)

tag-Steps : (r : Reader) → Steps r (lift (read_tag r))
tag-Steps r = Steps-map_err wire (read_tag-Steps r)

chunk-Steps : (r : Reader) → Steps r (lift (read_len_delimited r))
chunk-Steps r = Steps-map_err wire (read_len_delimited-Steps r)

read_string-Steps : (r : Reader) → Steps r (read_string r)
unfolding read_string
read_string-Steps r =
    Steps-bind _ _ (chunk-Steps r) (λ text r' mv. Steps-if (is_utf8 text) (moves mv) fails)

raw_arm-Steps : (raw : RawField) (n : ℕ) (w : WireType) (r : Reader) → Steps r (raw_arm raw n w r)
unfolding raw_arm
raw_arm-Steps raw n w r =
    Steps-if (n == 1 && wire_eq w len) (Steps-store _ _ (read_string-Steps r)) (
      Steps-if (n == 3 && wire_eq w varint) (Steps-store _ _ (number-Steps r)) (
        Steps-if (n == 4 && wire_eq w varint) (Steps-store _ _ (number-Steps r)) (
          Steps-if (n == 5 && wire_eq w varint) (Steps-store _ _ (number-Steps r)) (
            Steps-if (n == 6 && wire_eq w len) (Steps-store _ _ (read_string-Steps r)) (
              Steps-if (n == 9 && wire_eq w varint) (Steps-store _ _ (number-Steps r)) (
                Steps-if (n == 17 && wire_eq w varint) (Steps-store _ _ (number-Steps r))
                  (Steps-skip wire w r raw)))))))

raw_round-Steps : (raw : RawField) (r : Reader) → Steps r (raw_round raw r)
unfolding raw_round
raw_round-Steps raw r =
    Steps-bind _ _ (tag-Steps r) (λ t r' mv. Steps-from mv (raw_arm-Steps raw t.0 t.1 r'))

pub parse_raw_field_ends : (bytes : List ℕ) → parse_raw_field bytes ≢ out_of_fuel
unfolding parse_raw_field
parse_raw_field_ends bytes = read_all_ends raw_round raw_round-Steps _ bytes

map_value_ends : (code : ℤ) (full : Option Text) → map_value code full ≢ out_of_fuel
unfolding map_value
map_value_ends code full = if_ends (int_eq code type_enum) _ _ (ok_ends _) (
    if_ends (int_eq code type_message) _ _ (ok_ends _)
      (bind_ends _ _ (ok_or_ends _ _) (λ s. ok_ends _)))

entry_field_ends : (s : EntryState) (raw : RawField) → entry_field s raw ≢ out_of_fuel
unfolding entry_field
entry_field_ends s raw = bind_ends _ _ (ok_or_ends raw.type_code missing_type) λ code.
    if_ends (raw.number == 1) _ _ (ok_ends _) (
      if_ends (raw.number == 2) _ _
        (bind_ends _ _ (map_value_ends code raw.type_name) (λ v. ok_ends _)) (ok_ends _))

option_round-Steps : (flag : Bool) (r : Reader) → Steps r (option_round flag r)
unfolding option_round
option_round-Steps flag r = Steps-bind _ _ (tag-Steps r) λ t r' mv.
    Steps-from mv (Steps-if _ (Steps-store _ _ (number-Steps r')) (Steps-skip wire t.1 r' flag))

entry_arm-Steps : (s : EntryState) (n : ℕ) (w : WireType) (r : Reader) → Steps r (entry_arm s n w r)
unfolding entry_arm
entry_arm-Steps s n w r =
    Steps-if (n == 1 && wire_eq w len) (Steps-store _ _ (read_string-Steps r)) (
      Steps-if (n == 2 && wire_eq w len)
        (Steps-bind _ _ (chunk-Steps r) λ chunk r' mv.
          Steps-pure _ _ (parse_raw_field_ends chunk)
            λ raw. Steps-pure _ _ (entry_field_ends s raw) (λ s'. moves mv))
        (Steps-if (n == 7 && wire_eq w len)
          (Steps-bind _ _ (chunk-Steps r) λ opts r' mv.
            Steps-pure _ _ (read_all_ends option_round option_round-Steps _ opts)
              (λ flag. moves mv))
          (Steps-skip wire w r s)))

entry_round-Steps : (s : EntryState) (r : Reader) → Steps r (entry_round s r)
unfolding entry_round
entry_round-Steps s r =
    Steps-bind _ _ (tag-Steps r) (λ t r' mv. Steps-from mv (entry_arm-Steps s t.0 t.1 r'))

parse_nested_map_entry_ends : (bytes : List ℕ) → parse_nested_map_entry bytes ≢ out_of_fuel
unfolding parse_nested_map_entry
parse_nested_map_entry_ends bytes =
    bind_ends _ _ (read_all_ends entry_round entry_round-Steps _ bytes) (λ s. ok_ends _)

oneof_round-Steps : (name : Text) (r : Reader) → Steps r (oneof_round name r)
unfolding oneof_round
oneof_round-Steps name r =
    Steps-bind _ _ (tag-Steps r)
      λ t r' mv. Steps-from mv (Steps-if _ (read_string-Steps r') (Steps-skip wire t.1 r' name))

message_arm-Steps :
    (s : MessageState) (n : ℕ) (w : WireType) (r : Reader) → Steps r (message_arm s n w r)
unfolding message_arm
message_arm-Steps s n w r =
    Steps-if (n == 1 && wire_eq w len) (Steps-store _ _ (read_string-Steps r)) (
      Steps-if (n == 2 && wire_eq w len)
        (Steps-bind _ _ (chunk-Steps r)
          λ chunk r' mv. Steps-pure _ _ (parse_raw_field_ends chunk) (λ raw. moves mv))
        (Steps-if (n == 3 && wire_eq w len)
          (Steps-bind _ _ (chunk-Steps r)
            λ nested r' mv. Steps-pure _ _ (parse_nested_map_entry_ends nested) (λ found. moves mv))
          (Steps-if (n == 8 && wire_eq w len)
            (Steps-bind _ _ (chunk-Steps r) λ decl r' mv.
              Steps-pure _ _ (read_all_ends oneof_round oneof_round-Steps _ decl)
                (λ name. moves mv))
            (Steps-skip wire w r s))))

message_round-Steps : (s : MessageState) (r : Reader) → Steps r (message_round s r)
unfolding message_round
message_round-Steps s r =
    Steps-bind _ _ (tag-Steps r) (λ t r' mv. Steps-from mv (message_arm-Steps s t.0 t.1 r'))

kind_of_ends : (code : ℤ) (full : Option Text) → kind_of code full ≢ out_of_fuel
unfolding kind_of
kind_of_ends code full = if_ends (int_eq code type_enum) _ _ (ok_ends _) (
    if_ends (int_eq code type_message) _ _ (ok_ends _) (
      if_ends (int_eq code type_group) _ _ (err_ends _)
        (bind_ends _ _ (ok_or_ends _ _) (λ s. ok_ends _))))

field_of_ends :
    (raw : RawField) (code : ℤ) (entry : Option MapEntry) → field_of raw code entry ≢ out_of_fuel
unfolding field_of
field_of_ends raw code (some entry) = ok_ends _
field_of_ends raw code none = bind_ends _ _ (kind_of_ends code raw.type_name) (λ p. ok_ends _)

interpret_field_ends :
    (raw : RawField) (entries : MapEntries) (name : Text)
    → interpret_field raw entries name ≢ out_of_fuel
unfolding interpret_field
interpret_field_ends raw entries name =
    bind_ends _ _ (ok_or_ends raw.type_code missing_type)
      λ code. field_of_ends raw code (map_entry_of raw code entries name)

interpret_all_ends :
    (raws : List RawField) (entries : MapEntries) (name : Text)
    → interpret_all raws entries name ≢ out_of_fuel
unfolding interpret_all
interpret_all_ends [] entries name = ok_ends _
interpret_all_ends (raw ∷ raws) entries name =
    bind_ends _ _ (interpret_field_ends raw entries name)
      λ field. bind_ends _ _ (interpret_all_ends raws entries name) (λ fields. ok_ends _)

-- Parsing ends on every input, however malformed: the loops over the message, its fields, its
-- nested types, their options and the oneofs never run out of their fuel.
pub parse_message_ends : (bytes : List ℕ) → parse_message bytes ≢ out_of_fuel
unfolding parse_message
parse_message_ends bytes =
    bind_ends _ _ (read_all_ends message_round message_round-Steps start bytes) λ s.
      bind_ends _ _ (interpret_all_ends s.raw_fields s.map_entries s.name) (λ fields. ok_ends _)
