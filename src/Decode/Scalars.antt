-- ===== src/Decode/Scalars.antt =====
-- Scalars off the cursor: `decode_scalar` and `scalar_default` of src/decode/mod.rs.
use fastproto.Common.{
  ◌%◌, ◌^◌, ◌==◌, if◌then◌else◌, not, false, [], Result, ok, err, ◌>>=◌, map_err,
}
use fastproto.Common.Int.{pos, as_i32, as_i64}
use fastproto.Common.Utf8.{is_utf8}
use fastproto.Wire.Reader.{
  Reader, Read, read_varint, read_fixed32, read_fixed64, read_len_delimited,
}
use fastproto.Wire.ZigZag.{zigzag_decode32, zigzag_decode64}
use fastproto.Descriptor.Types.{
  ScalarType, double, float, int32, int64, uint32, uint64, sint32, sint64, fixed32, fixed64,
  sfixed32, sfixed64, bool, string, bytes,
}
use fastproto.Python.{Python, CodecError, malformed, invalid_utf8}

-- `map_err(wire_err)?`
abbrev pub checked : {A : Type 0} → Read A → Result CodecError (A × Reader)
checked = map_err malformed

module _ (py : Python) where
  unfoldable pub scalar_default : ScalarType → py.Obj
  scalar_default float = py.from_f64 0
  scalar_default double = py.from_f64 0
  scalar_default bool = py.from_bool false
  scalar_default string = py.from_str []
  scalar_default bytes = py.from_bytes []
  scalar_default _ = py.from_int (pos 0)

  unfoldable pub decode_scalar : ScalarType → Reader → Result CodecError (py.Obj × Reader)
  decode_scalar int32 r = do (raw, r') ← checked (read_varint r); ok (py.from_int (as_i32 raw), r')
  decode_scalar int64 r = do (raw, r') ← checked (read_varint r); ok (py.from_int (as_i64 raw), r')
  decode_scalar uint32 r = do
    (raw, r') ← checked (read_varint r)
    ok (py.from_int (pos (raw % 2 ^ 32)), r')
  decode_scalar uint64 r = do (raw, r') ← checked (read_varint r); ok (py.from_int (pos raw), r')
  decode_scalar sint32 r = do
    (raw, r') ← checked (read_varint r)
    ok (py.from_int (zigzag_decode32 (raw % 2 ^ 32)), r')
  decode_scalar sint64 r = do
    (raw, r') ← checked (read_varint r)
    ok (py.from_int (zigzag_decode64 raw), r')
  decode_scalar bool r = do
    (raw, r') ← checked (read_varint r)
    ok (py.from_bool (not (raw == 0)), r')
  decode_scalar fixed32 r = do (raw, r') ← checked (read_fixed32 r); ok (py.from_int (pos raw), r')
  decode_scalar sfixed32 r = do
    (raw, r') ← checked (read_fixed32 r)
    ok (py.from_int (as_i32 raw), r')
  decode_scalar float r = do (raw, r') ← checked (read_fixed32 r); ok (py.from_f32 raw, r')
  decode_scalar fixed64 r = do (raw, r') ← checked (read_fixed64 r); ok (py.from_int (pos raw), r')
  decode_scalar sfixed64 r = do
    (raw, r') ← checked (read_fixed64 r)
    ok (py.from_int (as_i64 raw), r')
  decode_scalar double r = do (raw, r') ← checked (read_fixed64 r); ok (py.from_f64 raw, r')
  decode_scalar string r = do
    (text, r') ← checked (read_len_delimited r)
    if is_utf8 text then ok (py.from_str text, r') else err invalid_utf8
  decode_scalar bytes r = do (b, r') ← checked (read_len_delimited r); ok (py.from_bytes b, r')
