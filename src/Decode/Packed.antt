-- ===== src/Decode/Packed.antt =====
-- Packed repeated scalars: the loop in the first arm of `decode_repeated` in src/decode/mod.rs.
use fastproto.Common.{ℕ, ◌≢◌, List, [], ◌∷◌, ◌++◌, Result, ok, out_of_fuel, ◌>>=◌}
use fastproto.Common.Utf8.{is_utf8}
use fastproto.Wire.Reader.{Reader, read_len_delimited, read_varint, read_fixed32, read_fixed64}
use fastproto.Wire.Loop.{read_all, Advances}
use fastproto.Wire.Steps.{
  Steps, moves, fails, Steps-Moved, Steps-bind, Steps-if, Steps-store, Steps-map_err,
  read_varint-Steps, read_fixed32-Steps, read_fixed64-Steps, read_len_delimited-Steps,
  read_all_ends,
}
use fastproto.Descriptor.Types.{
  ScalarType, double, float, int32, int64, uint32, uint64, sint32, sint64, fixed32, fixed64,
  sfixed32, sfixed64, bool, string, bytes,
}
use fastproto.Python.{Python, CodecError, malformed}
use fastproto.Decode.Scalars.{checked, decode_scalar}

module _ (py : Python) (s : ScalarType) where
  unfoldable pub packed_round : List py.Obj → Reader → Result CodecError (List py.Obj × Reader)
  packed_round list r = do (o, r') ← decode_scalar py s r; ok (list ++ (o ∷ []), r')

  -- The items of a chunk, behind those that the list has.
  unfoldable pub decode_chunk : List py.Obj → List ℕ → Result CodecError (List py.Obj)
  decode_chunk list chunk = read_all packed_round list chunk

  unfoldable pub decode_packed : List py.Obj → Reader → Result CodecError (List py.Obj × Reader)
  decode_packed list r = do
    (chunk, r') ← checked (read_len_delimited r)
    list' ← decode_chunk list chunk
    ok (list', r')

varint-Steps : (r : Reader) → Steps r (checked (read_varint r))
varint-Steps r = Steps-map_err malformed (read_varint-Steps r)

word32-Steps : (r : Reader) → Steps r (checked (read_fixed32 r))
word32-Steps r = Steps-map_err malformed (read_fixed32-Steps r)

word64-Steps : (r : Reader) → Steps r (checked (read_fixed64 r))
word64-Steps r = Steps-map_err malformed (read_fixed64-Steps r)

chunk-Steps : (r : Reader) → Steps r (checked (read_len_delimited r))
chunk-Steps r = Steps-map_err malformed (read_len_delimited-Steps r)

module _ (py : Python) where
  decode_scalar-Steps : (s : ScalarType) (r : Reader) → Steps r (decode_scalar py s r)
  unfolding decode_scalar
  decode_scalar-Steps int32 r = Steps-store _ _ (varint-Steps r)
  decode_scalar-Steps int64 r = Steps-store _ _ (varint-Steps r)
  decode_scalar-Steps uint32 r = Steps-store _ _ (varint-Steps r)
  decode_scalar-Steps uint64 r = Steps-store _ _ (varint-Steps r)
  decode_scalar-Steps sint32 r = Steps-store _ _ (varint-Steps r)
  decode_scalar-Steps sint64 r = Steps-store _ _ (varint-Steps r)
  decode_scalar-Steps bool r = Steps-store _ _ (varint-Steps r)
  decode_scalar-Steps fixed32 r = Steps-store _ _ (word32-Steps r)
  decode_scalar-Steps sfixed32 r = Steps-store _ _ (word32-Steps r)
  decode_scalar-Steps float r = Steps-store _ _ (word32-Steps r)
  decode_scalar-Steps fixed64 r = Steps-store _ _ (word64-Steps r)
  decode_scalar-Steps sfixed64 r = Steps-store _ _ (word64-Steps r)
  decode_scalar-Steps double r = Steps-store _ _ (word64-Steps r)
  decode_scalar-Steps string r =
      Steps-bind _ _ (chunk-Steps r) (λ text r' mv. Steps-if (is_utf8 text) (moves mv) fails)
  decode_scalar-Steps bytes r = Steps-store _ _ (chunk-Steps r)

  packed_round-Steps :
      (s : ScalarType) (list : List py.Obj) (r : Reader) → Steps r (packed_round py s list r)
  unfolding packed_round
  packed_round-Steps s list r = Steps-store _ _ (decode_scalar-Steps s r)

  pub packed_round-Advances : (s : ScalarType) → Advances (packed_round py s)
  packed_round-Advances s list r list' r' e = Steps-Moved list' r' (packed_round-Steps s list r) e

  -- The items of a packed field are read to the end of every chunk, however malformed.
  pub decode_chunk_ends :
      (s : ScalarType) (list : List py.Obj) (chunk : List ℕ)
      → decode_chunk py s list chunk ≢ out_of_fuel
  unfolding decode_chunk
  decode_chunk_ends s list chunk =
      read_all_ends (packed_round py s) (packed_round-Steps s) list chunk
