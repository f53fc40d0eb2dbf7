-- ===== src/Encode/Parts.antt =====
-- The field of a timestamp or a duration: `write_parts_field` of src/encode/mod.rs.
use fastproto.Common.{ℕ, ◌≡◌, ap, ◌∙◌, List, [], arith}
use fastproto.Common.Int.{ℤ}
use fastproto.Wire.Types.{len}
use fastproto.Wire.Writer.{write_tag, write_len_delimited, begin_len_prefix, finish_len_prefix}
use fastproto.Wire.LenPrefix.{finish_len_prefix-begin_len_prefix}
use fastproto.WellKnown.Codec.{encode_parts}
use fastproto.WellKnown.RoundTrip.{encode_parts-behind, encode_parts-le}
use fastproto.Encode.Scalars.{write_parts_field}

-- The field of a time is its tag and then the bytes of its parts behind their length.
pub write_parts_field-eq-chunk :
    (buf : List ℕ) (number : ℕ) (secs nanos : ℤ)
    → write_parts_field buf number secs nanos
      ≡ write_len_delimited (write_tag buf number len) (encode_parts [] secs nanos)
unfolding write_parts_field
write_parts_field-eq-chunk buf number secs nanos =
    ap (λ (l : List ℕ). finish_len_prefix l (begin_len_prefix tagged).1)
      (encode_parts-behind (begin_len_prefix tagged).0 secs nanos)
    ∙ finish_len_prefix-begin_len_prefix tagged (encode_parts [] secs nanos)
        (omega (arith, encode_parts-le secs nanos))
  where
    tagged : List ℕ
    tagged = write_tag buf number len
