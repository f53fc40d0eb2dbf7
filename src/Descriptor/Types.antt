-- ===== src/Descriptor/Types.antt =====
-- Scalars, labels, field kinds and messages (src/descriptor/mod.rs). A `String` is the list of its
-- UTF-8 bytes, and a `u32` a number.
use fastproto.Common.{ℕ, Bool, true, false, Option, List}
use fastproto.Wire.Types.{WireType, varint, i64, i32, len}

abbrev pub max_depth : ℕ
max_depth = 100

pub data ScalarType : Type 0 where
  double float int32 int64 uint32 uint64 sint32 sint64 : ScalarType
  fixed32 fixed64 sfixed32 sfixed64 bool string bytes : ScalarType

unfoldable pub wire_type : ScalarType → WireType
wire_type double = i64
wire_type fixed64 = i64
wire_type sfixed64 = i64
wire_type float = i32
wire_type fixed32 = i32
wire_type sfixed32 = i32
wire_type string = len
wire_type bytes = len
wire_type _ = varint

unfoldable pub is_packable : ScalarType → Bool
is_packable string = false
is_packable bytes = false
is_packable _ = true

pub data Label : Type 0 where
  single optional repeated : Label

pub data MapValue : Type 0 where
  scalar : ScalarType → MapValue
  enum message timestamp duration : MapValue

pub data FieldKind : Type 0 where
  scalar : ScalarType → FieldKind
  enum message : FieldKind
  map_of : ScalarType → MapValue → FieldKind
  timestamp duration : FieldKind

abbrev pub is_map : FieldKind → Bool
is_map (FieldKind.map_of k v) = true
is_map _ = false

pub record FieldDescriptor : Type 0 where
  pub number : ℕ
  pub name : List ℕ
  pub kind : FieldKind
  pub label : Label
  pub type_name : Option (List ℕ)
  pub oneof_index : Option ℕ

pub record MessageDescriptor : Type 0 where
  pub name : List ℕ
  pub fields : List FieldDescriptor
  pub oneofs : List (List ℕ)
