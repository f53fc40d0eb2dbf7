-- ===== src/Encode/Scalars.antt =====
-- Scalars on the output buffer: `byte_slice`, `encode_scalar`, `encode_scalar_field` and
-- `write_parts_field` of src/encode/mod.rs. A function that fails gives no buffer: its caller
-- drops the buffer with the error.
use fastproto.Common.{
  ◌≡◌, refl, ℕ, ◌==◌, if◌then◌else◌, ◌&&◌, ◌||◌, not, Bool, true, false, Option, none, some, List,
  [], ◌∷◌, Result, ok, ◌>>=◌, ok_or,
}
use fastproto.Common.Int.{ℤ, as_u32, as_u64}
use fastproto.Wire.Types.{varint, i64, i32, len}
use fastproto.Wire.Writer.{
  write_varint, write_tag, write_fixed32, write_fixed64, write_len_delimited, begin_len_prefix,
  finish_len_prefix,
}
use fastproto.Wire.ZigZag.{zigzag_encode32, zigzag_encode64}
use fastproto.Descriptor.Types.{
  ScalarType, double, float, int32, int64, uint32, uint64, sint32, sint64, fixed32, fixed64,
  sfixed32, sfixed64, bool, string, bytes,
}
use fastproto.WellKnown.Codec.{is_zero, encode_parts}
use fastproto.Python.{Python, CodecError, extract_failed, not_a_string, not_bytes, raised}

-- `v as u64` of a `bool`.
abbrev pub as_bit : Bool → ℕ
as_bit true = 1
as_bit false = 0

abbrev pub is_nil : List ℕ → Bool
is_nil [] = true
is_nil (_ ∷ _) = false

unfoldable pub write_parts_field : List ℕ → ℕ → ℤ → ℤ → List ℕ
write_parts_field buf number secs nanos =
    let (buf', len_pos) = begin_len_prefix (write_tag buf number len) in
    finish_len_prefix (encode_parts buf' secs nanos) len_pos

-- The macro `varint_arm!` behind the extraction; `zero` is its test `v == 0`.
unfoldable pub varint_arm : List ℕ → ℕ → Bool → Bool → ℕ → List ℕ
varint_arm buf number skip_default zero word =
    if skip_default && zero then buf else write_varint (write_tag buf number varint) word

-- The arm of `bool`.
unfoldable pub bool_arm : List ℕ → ℕ → Bool → Bool → List ℕ
bool_arm buf number skip_default v =
    if v || not skip_default then write_varint (write_tag buf number varint) (as_bit v) else buf

-- The arms of the fixed-width words, of strings and of bytes.
unfoldable pub fixed32_arm : List ℕ → ℕ → Bool → ℕ → List ℕ
fixed32_arm buf number skip_default bits =
    if skip_default && (bits == 0) then buf else write_fixed32 (write_tag buf number i32) bits

unfoldable pub fixed64_arm : List ℕ → ℕ → Bool → ℕ → List ℕ
fixed64_arm buf number skip_default bits =
    if skip_default && (bits == 0) then buf else write_fixed64 (write_tag buf number i64) bits

unfoldable pub chunk_arm : List ℕ → ℕ → Bool → List ℕ → List ℕ
chunk_arm buf number skip_default chunk =
    if skip_default && is_nil chunk
    then buf
    else write_len_delimited (write_tag buf number len) chunk

module _ (py : Python) where
  -- `extract` with its exception.
  abbrev pub extracted : {A : Type 0} → Option A → Result CodecError A
  extracted o = ok_or o extract_failed

  -- The exception of `cast::<PyString>` on another object, and of `to_str` on a lone surrogate.
  abbrev pub str_error : py.Obj → CodecError
  str_error value = if py.is_str value then raised else not_a_string

  unfoldable pub byte_slice : py.Obj → Result CodecError (List ℕ)
  byte_slice value = elim (py.cast_bytes value) [
    | some b ↦ ok b
    | none ↦ ok_or (py.cast_bytearray value) not_bytes
  ]

  unfoldable pub encode_scalar : List ℕ → ScalarType → py.Obj → Result CodecError (List ℕ)
  encode_scalar buf int32 value = do
    v ← extracted (py.extract_i32 value)
    ok (write_varint buf (as_u64 v))
  encode_scalar buf int64 value = do
    v ← extracted (py.extract_i64 value)
    ok (write_varint buf (as_u64 v))
  encode_scalar buf uint32 value = do v ← extracted (py.extract_u32 value); ok (write_varint buf v)
  encode_scalar buf uint64 value = do v ← extracted (py.extract_u64 value); ok (write_varint buf v)
  encode_scalar buf sint32 value = do
    v ← extracted (py.extract_i32 value)
    ok (write_varint buf (zigzag_encode32 v))
  encode_scalar buf sint64 value = do
    v ← extracted (py.extract_i64 value)
    ok (write_varint buf (zigzag_encode64 v))
  encode_scalar buf bool value = do
    v ← extracted (py.extract_bool value)
    ok (write_varint buf (as_bit v))
  encode_scalar buf fixed32 value = do
    v ← extracted (py.extract_u32 value)
    ok (write_fixed32 buf v)
  encode_scalar buf sfixed32 value = do
    v ← extracted (py.extract_i32 value)
    ok (write_fixed32 buf (as_u32 v))
  encode_scalar buf float value = do v ← extracted (py.extract_f32 value); ok (write_fixed32 buf v)
  encode_scalar buf fixed64 value = do
    v ← extracted (py.extract_u64 value)
    ok (write_fixed64 buf v)
  encode_scalar buf sfixed64 value = do
    v ← extracted (py.extract_i64 value)
    ok (write_fixed64 buf (as_u64 v))
  encode_scalar buf double value = do v ← extracted (py.extract_f64 value); ok (write_fixed64 buf v)
  encode_scalar buf string value = do
    s ← ok_or (py.cast_str value) (str_error value)
    ok (write_len_delimited buf s)
  encode_scalar buf bytes value = do b ← byte_slice value; ok (write_len_delimited buf b)

  unfoldable pub encode_scalar_field :
      List ℕ → ℕ → ScalarType → py.Obj → Bool → Result CodecError (List ℕ)
  encode_scalar_field buf number int32 value skip = do
    v ← extracted (py.extract_i32 value)
    ok (varint_arm buf number skip (is_zero v) (as_u64 v))
  encode_scalar_field buf number int64 value skip = do
    v ← extracted (py.extract_i64 value)
    ok (varint_arm buf number skip (is_zero v) (as_u64 v))
  encode_scalar_field buf number uint32 value skip = do
    v ← extracted (py.extract_u32 value)
    ok (varint_arm buf number skip (v == 0) v)
  encode_scalar_field buf number uint64 value skip = do
    v ← extracted (py.extract_u64 value)
    ok (varint_arm buf number skip (v == 0) v)
  encode_scalar_field buf number sint32 value skip = do
    v ← extracted (py.extract_i32 value)
    ok (varint_arm buf number skip (is_zero v) (zigzag_encode32 v))
  encode_scalar_field buf number sint64 value skip = do
    v ← extracted (py.extract_i64 value)
    ok (varint_arm buf number skip (is_zero v) (zigzag_encode64 v))
  encode_scalar_field buf number bool value skip = do
    v ← extracted (py.extract_bool value)
    ok (bool_arm buf number skip v)
  encode_scalar_field buf number fixed32 value skip = do
    v ← extracted (py.extract_u32 value)
    ok (fixed32_arm buf number skip v)
  encode_scalar_field buf number sfixed32 value skip = do
    v ← extracted (py.extract_i32 value)
    ok (fixed32_arm buf number skip (as_u32 v))
  encode_scalar_field buf number float value skip = do
    v ← extracted (py.extract_f32 value)
    ok (fixed32_arm buf number skip v)
  encode_scalar_field buf number fixed64 value skip = do
    v ← extracted (py.extract_u64 value)
    ok (fixed64_arm buf number skip v)
  encode_scalar_field buf number sfixed64 value skip = do
    v ← extracted (py.extract_i64 value)
    ok (fixed64_arm buf number skip (as_u64 v))
  encode_scalar_field buf number double value skip = do
    v ← extracted (py.extract_f64 value)
    ok (fixed64_arm buf number skip v)
  encode_scalar_field buf number string value skip = do
    s ← ok_or (py.cast_str value) (str_error value)
    ok (chunk_arm buf number skip s)
  encode_scalar_field buf number bytes value skip = do
    b ← byte_slice value
    ok (chunk_arm buf number skip b)

-- A `bytes` object is read as it is.
pub byte_slice_bytes :
    (py : Python) (o : py.Obj) (b : List ℕ) → py.cast_bytes o ≡ some b → byte_slice py o ≡ ok b
unfolding byte_slice
byte_slice_bytes py o b e = rw (e, byte_slice) refl
