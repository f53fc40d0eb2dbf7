-- ===== src/Encode/Calm.antt =====
-- Messages, repeated fields and maps of the encoder's reference end without a panic, where the
-- messages one level deeper do.
use fastproto.Common.{ℕ, ◌+◌, ◌||◌, ◌≡◌, refl, ap, true, false, Option, map}
use fastproto.Descriptor.Types.{
  is_map, ScalarType, FieldKind, MapValue, Label, FieldDescriptor, single, optional, repeated,
  is_packable,
}
use fastproto.WellKnown.Codec.{is_zero}
use fastproto.Message.Link.{LinkedRef, Refs, Handle}
use fastproto.Message.Class.{Descriptor}
use fastproto.Python.{Python, Runtime, not_a_dict}
use fastproto.Python.Safe.{IteratorsEnd, Safe, returns, raises, Safe-bind, Safe-if, Safe-ok_or}
use fastproto.Encode.Repeated.{drawn, Written, is_present, linked_of}
use fastproto.Encode.Reference.{
  nested_bytes, message_field, single_bytes, list_bytes, repeated_bytes, map_value_bytes,
  entry_bytes, map_bytes, implicit_bytes, labelled_bytes, kind_bytes,
}
use fastproto.Encode.Safety.{
  drawn-IsFinished, Safe-store, Safe-each, extracted-Safe, encode_scalar-Safe,
  encode_scalar_field-Safe, enum_bytes-Safe, datetime_bytes-Safe, timedelta_bytes-Safe,
  items_bytes-Safe, descriptor_for-Safe,
}

module _ (py : Python) (rt : Runtime py) (ends : IteratorsEnd rt)
    (heap : Handle → Descriptor py.Obj) (inner : py.Obj → Descriptor py.Obj → ℕ → Written)
    (depth : ℕ) (safe : (o : py.Obj) (h : Handle) → Safe (inner o (heap h) (depth + 1))) where
  message_field-Safe :
      (n : ℕ) (linked : Option (LinkedRef py.Obj)) (o : py.Obj)
      → Safe (message_field py rt heap inner n linked depth o)
  unfolding nested_bytes
  message_field-Safe n linked o =
      Safe-store _ _ (Safe-bind _ _ (descriptor_for-Safe py rt o linked) (λ h e. safe o h))

  single_bytes-Safe :
      (n : ℕ) (kind : FieldKind) (o : py.Obj) (refs : Option (Refs py.Obj))
      → is_map kind ≡ false
      → Safe (single_bytes py rt heap inner n kind o refs depth)
  unfolding single_bytes
  single_bytes-Safe n (FieldKind.scalar s) o refs h = encode_scalar_field-Safe py n s o false
  single_bytes-Safe n FieldKind.enum o refs h = Safe-store _ _ (enum_bytes-Safe py rt o)
  single_bytes-Safe n FieldKind.message o refs h = message_field-Safe n (linked_of refs n) o
  single_bytes-Safe n FieldKind.timestamp o refs h = datetime_bytes-Safe py rt n o
  single_bytes-Safe n FieldKind.duration o refs h = timedelta_bytes-Safe py rt n o
  single_bytes-Safe n (FieldKind.map_of k v) o refs h = cc

  list_bytes-Safe :
      (n : ℕ) (kind : FieldKind) (o : py.Obj) (refs : Option (Refs py.Obj))
      → is_map kind ≡ false
      → Safe (list_bytes py rt heap inner n kind o refs depth)
  unfolding list_bytes
  list_bytes-Safe n (FieldKind.scalar s) o refs h =
      Safe-if (is_packable s)
        (Safe-store _ _ (items_bytes-Safe py rt ends _ (encode_scalar-Safe py s) o))
        (items_bytes-Safe py rt ends _ (λ item. Safe-store _ _ (encode_scalar-Safe py s item)) o)
  list_bytes-Safe n FieldKind.enum o refs h =
      Safe-store _ _ (items_bytes-Safe py rt ends _ (enum_bytes-Safe py rt) o)
  list_bytes-Safe n FieldKind.message o refs h =
      items_bytes-Safe py rt ends _ (message_field-Safe n (linked_of refs n)) o
  list_bytes-Safe n FieldKind.timestamp o refs h =
      items_bytes-Safe py rt ends _ (datetime_bytes-Safe py rt n) o
  list_bytes-Safe n FieldKind.duration o refs h =
      items_bytes-Safe py rt ends _ (timedelta_bytes-Safe py rt n) o
  list_bytes-Safe n (FieldKind.map_of k v) o refs h = cc

  repeated_bytes-Safe :
      (n : ℕ) (kind : FieldKind) (o : py.Obj) (refs : Option (Refs py.Obj))
      → is_map kind ≡ false
      → Safe (repeated_bytes py rt heap inner n kind o refs depth)
  unfolding repeated_bytes
  repeated_bytes-Safe n kind o refs h =
      Safe-if (py.is_str o || is_present (py.cast_bytes o)) (raises refl)
        (list_bytes-Safe n kind o refs h)

  map_value_bytes-Safe :
      (kind : MapValue) (o : py.Obj) (linked : Option (LinkedRef py.Obj))
      → Safe (map_value_bytes py rt heap inner kind o linked depth)
  unfolding map_value_bytes
  map_value_bytes-Safe (MapValue.scalar s) o linked = Safe-store _ _ (encode_scalar-Safe py s o)
  map_value_bytes-Safe MapValue.enum o linked = Safe-store _ _ (enum_bytes-Safe py rt o)
  map_value_bytes-Safe MapValue.message o linked = message_field-Safe 2 linked o
  map_value_bytes-Safe MapValue.timestamp o linked = datetime_bytes-Safe py rt 2 o
  map_value_bytes-Safe MapValue.duration o linked = timedelta_bytes-Safe py rt 2 o

  map_bytes-Safe :
      (n : ℕ) (key : ScalarType) (kind : MapValue) (o : py.Obj) (refs : Option (Refs py.Obj))
      → Safe (map_bytes py rt heap inner n key kind o refs depth)
  unfolding map_bytes entry_bytes
  map_bytes-Safe n key kind o refs =
      Safe-bind _ _ (Safe-ok_or (rt.cast_dict o) not_a_dict refl) λ dict e.
        Safe-each _
          (λ entry. Safe-store _ _ (
            Safe-bind _ _ (Safe-store _ _ (encode_scalar-Safe py key entry.0))
              (λ k e'. Safe-store _ _ (map_value_bytes-Safe kind entry.1 (linked_of refs n)))))
          (map drawn dict) (drawn-IsFinished dict)

  implicit_bytes-Safe :
      (n : ℕ) (kind : FieldKind) (o : py.Obj) (refs : Option (Refs py.Obj))
      → is_map kind ≡ false
      → Safe (implicit_bytes py rt heap inner n kind o refs depth)
  unfolding implicit_bytes
  implicit_bytes-Safe n (FieldKind.scalar s) o refs h = encode_scalar_field-Safe py n s o true
  implicit_bytes-Safe n FieldKind.enum o refs h =
      Safe-bind _ _ (extracted-Safe py (py.extract_i32 o))
        (λ v e. Safe-if (is_zero v) returns returns)
  implicit_bytes-Safe n FieldKind.message o refs h = single_bytes-Safe n FieldKind.message o refs h
  implicit_bytes-Safe n FieldKind.timestamp o refs h =
      single_bytes-Safe n FieldKind.timestamp o refs h
  implicit_bytes-Safe n FieldKind.duration o refs h =
      single_bytes-Safe n FieldKind.duration o refs h
  implicit_bytes-Safe n (FieldKind.map_of k v) o refs h = cc

  labelled_bytes-Safe :
      (label : Label) (f : FieldDescriptor) (o : py.Obj) (refs : Option (Refs py.Obj))
      → is_map f.kind ≡ false
      → Safe (labelled_bytes py rt heap inner label f o refs depth)
  unfolding labelled_bytes
  labelled_bytes-Safe repeated f o refs h = repeated_bytes-Safe f.number f.kind o refs h
  labelled_bytes-Safe optional f o refs h =
      Safe-if (rt.is_none o) returns (single_bytes-Safe f.number f.kind o refs h)
  labelled_bytes-Safe single f o refs h = implicit_bytes-Safe f.number f.kind o refs h

  pub kind_bytes-Safe :
      (kind : FieldKind) (f : FieldDescriptor) (o : py.Obj) (refs : Option (Refs py.Obj))
      → f.kind ≡ kind
      → Safe (kind_bytes py rt heap inner kind f o refs depth)
  unfolding kind_bytes
  kind_bytes-Safe (FieldKind.map_of k v) f o refs e = map_bytes-Safe f.number k v o refs
  kind_bytes-Safe (FieldKind.scalar s) f o refs e =
      labelled_bytes-Safe f.label f o refs (ap is_map e)
  kind_bytes-Safe FieldKind.enum f o refs e = labelled_bytes-Safe f.label f o refs (ap is_map e)
  kind_bytes-Safe FieldKind.message f o refs e = labelled_bytes-Safe f.label f o refs (ap is_map e)
  kind_bytes-Safe FieldKind.timestamp f o refs e =
      labelled_bytes-Safe f.label f o refs (ap is_map e)
  kind_bytes-Safe FieldKind.duration f o refs e = labelled_bytes-Safe f.label f o refs (ap is_map e)
