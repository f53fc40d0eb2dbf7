-- ===== src/WellKnown/Codec.antt =====
-- The messages `Timestamp` and `Duration` on the wire: `encode_parts` and `decode_parts` of
-- src/wellknown/mod.rs.
use fastproto.Common.{ℕ, ◌==◌, if◌then◌else◌, Bool, false, List, Result, ok, ◌>>=◌, ◌&&◌}
use fastproto.Common.Int.{ℤ, pos, negsuc, as_u64, as_i64, as_i32}
use fastproto.Wire.Types.{WireType, WireError, varint, wire_eq}
use fastproto.Wire.Reader.{Reader, Read, read_tag, read_varint, skip}
use fastproto.Wire.Writer.{write_tag, write_varint}
use fastproto.Wire.Loop.{read_all}

-- The test `n != 0`.
abbrev pub is_zero : ℤ → Bool
is_zero (pos n) = n == 0
is_zero (negsuc n) = false

unfoldable pub encode_parts : List ℕ → ℤ → ℤ → List ℕ
encode_parts buf secs nanos =
    let buf' = if is_zero secs then buf else write_varint (write_tag buf 1 varint) (as_u64 secs) in
    if is_zero nanos then buf' else write_varint (write_tag buf' 2 varint) (as_u64 nanos)

-- The arms of the `match` of `decode_parts`, on the parts so far.
unfoldable pub parts_arm : ℤ × ℤ → ℕ → WireType → Reader → Read (ℤ × ℤ)
parts_arm (secs, nanos) number w r =
    if number == 1 && wire_eq w varint
    then (do (v, r') ← read_varint r; ok ((as_i64 v, nanos), r'))
    else if number == 2 && wire_eq w varint
    then (do (v, r') ← read_varint r; ok ((secs, as_i32 v), r'))
    else (do r' ← skip w r; ok ((secs, nanos), r'))

unfoldable pub parts_round : ℤ × ℤ → Reader → Read (ℤ × ℤ)
parts_round parts r = do ((number, w), r') ← read_tag r; parts_arm parts number w r'

unfoldable pub decode_parts : List ℕ → Result WireError (ℤ × ℤ)
decode_parts bytes = read_all parts_round (pos 0, pos 0) bytes
