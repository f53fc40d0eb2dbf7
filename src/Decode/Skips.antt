-- ===== src/Decode/Skips.antt =====
-- The decoders of src/decode/mod.rs take the bytes that `skip` takes for the same wire type.
use fastproto.Common.{
  Gives, Gives-ok, Gives-err, Gives-if, Gives-bind, ◌≡◌, refl, Option, List, Result, ok, err,
  out_of_fuel, ◌>>=◌, map_err,
}
use fastproto.Common.Int.{ℤ, as_i32}
use fastproto.Common.Utf8.{is_utf8}
use fastproto.Wire.Types.{WireType, varint, i64, i32, len}
use fastproto.Wire.Reader.{
  Reader, read_varint, read_fixed32, read_fixed64, read_len_delimited, skip,
}
use fastproto.Descriptor.Types.{
  ScalarType, double, float, int32, int64, uint32, uint64, sint32, sint64, fixed32, fixed64,
  sfixed32, sfixed64, bool, string, bytes, wire_type,
}
use fastproto.WellKnown.Codec.{decode_parts}
use fastproto.Message.Link.{LinkedRef}
use fastproto.Python.{Python, Runtime, CodecError, malformed}
use fastproto.Decode.Scalars.{checked, decode_scalar}
use fastproto.Decode.Packed.{decode_packed, decode_chunk}
use fastproto.Decode.Values.{
  to_datetime, to_timedelta, decode_datetime, decode_timedelta, coerced, decode_enum,
}

pub map_err-eq-ok :
    {E F A : Type 0} (g : E → F) (m : Result E A) (a : A) → map_err g m ≡ ok a → m ≡ ok a
map_err-eq-ok g (ok b) a e = cc
map_err-eq-ok g (err x) a e = cc
map_err-eq-ok g out_of_fuel a e = cc

-- The reader behind a read is the one behind the skipped field.
abbrev pub Skips : {A : Type 0} → WireType → Reader → Result CodecError (A × Reader) → Type 0
Skips w r m = Gives (λ p. skip w r ≡ ok p.1) m

varint-Skips : (r : Reader) → Skips varint r (checked (read_varint r))
unfolding skip
varint-Skips r p e = rw (map_err-eq-ok malformed (read_varint r) p e, ◌>>=◌) refl

word32-Skips : (r : Reader) → Skips i32 r (checked (read_fixed32 r))
unfolding skip
word32-Skips r p e = rw (map_err-eq-ok malformed (read_fixed32 r) p e, ◌>>=◌) refl

word64-Skips : (r : Reader) → Skips i64 r (checked (read_fixed64 r))
unfolding skip
word64-Skips r p e = rw (map_err-eq-ok malformed (read_fixed64 r) p e, ◌>>=◌) refl

pub chunk-Skips : (r : Reader) → Skips len r (checked (read_len_delimited r))
unfolding skip
chunk-Skips r p e = rw (map_err-eq-ok malformed (read_len_delimited r) p e, ◌>>=◌) refl

-- What is read is turned into another value, which may raise.
Skips-store :
    {A B : Type 0} (w : WireType) (r : Reader) (m : Result CodecError (A × Reader)) (g : A → B)
    → Skips w r m
    → Skips w r (m >>= λ p. ok (g p.0, p.1))
Skips-store w r m g h = Gives-bind _ m _ (λ p e. Gives-ok _ _ (h p e))

pub Skips-then :
    {A B : Type 0} (w : WireType) (r : Reader) (m : Result CodecError (A × Reader))
    (g : A → Result CodecError B)
    → Skips w r m
    → Skips w r (m >>= λ p. g p.0 >>= λ b. ok (b, p.1))
Skips-then w r m g h =
    Gives-bind _ m _ (λ p e. Gives-bind _ (g p.0) _ (λ b e'. Gives-ok _ _ (h p e)))

module _ (py : Python) where
  pub decode_scalar-Skips :
      (s : ScalarType) (r : Reader) → Skips (wire_type s) r (decode_scalar py s r)
  unfolding decode_scalar wire_type
  decode_scalar-Skips int32 r = Skips-store varint r _ _ (varint-Skips r)
  decode_scalar-Skips int64 r = Skips-store varint r _ _ (varint-Skips r)
  decode_scalar-Skips uint32 r = Skips-store varint r _ _ (varint-Skips r)
  decode_scalar-Skips uint64 r = Skips-store varint r _ _ (varint-Skips r)
  decode_scalar-Skips sint32 r = Skips-store varint r _ _ (varint-Skips r)
  decode_scalar-Skips sint64 r = Skips-store varint r _ _ (varint-Skips r)
  decode_scalar-Skips bool r = Skips-store varint r _ _ (varint-Skips r)
  decode_scalar-Skips fixed32 r = Skips-store i32 r _ _ (word32-Skips r)
  decode_scalar-Skips sfixed32 r = Skips-store i32 r _ _ (word32-Skips r)
  decode_scalar-Skips float r = Skips-store i32 r _ _ (word32-Skips r)
  decode_scalar-Skips fixed64 r = Skips-store i64 r _ _ (word64-Skips r)
  decode_scalar-Skips sfixed64 r = Skips-store i64 r _ _ (word64-Skips r)
  decode_scalar-Skips double r = Skips-store i64 r _ _ (word64-Skips r)
  decode_scalar-Skips string r = Gives-bind _ _ _ λ p e.
      Gives-if _ (is_utf8 p.0) _ _ (λ t. Gives-ok _ _ (chunk-Skips r p e)) (λ t. Gives-err _ _)
  decode_scalar-Skips bytes r = Skips-store len r _ _ (chunk-Skips r)

  pub decode_packed-Skips :
      (s : ScalarType) (list : List py.Obj) (r : Reader) → Skips len r (decode_packed py s list r)
  unfolding decode_packed
  decode_packed-Skips s list r = Skips-then len r _ (decode_chunk py s list) (chunk-Skips r)

module _ (py : Python) (rt : Runtime py) where
  time-Skips :
      (r : Reader) (g : ℤ → ℤ → Result CodecError py.Obj)
      → Skips len r (
          checked (read_len_delimited r) >>= λ p.
          map_err malformed (decode_parts p.0) >>= λ parts. g parts.0 parts.1 >>= λ o. ok (o, p.1))
  time-Skips r g = Gives-bind _ (checked (read_len_delimited r)) _ λ p e.
      Gives-bind _ (map_err malformed (decode_parts p.0))
        (λ parts. g parts.0 parts.1 >>= λ o. ok (o, p.1))
        λ parts e'.
          Gives-bind _ (g parts.0 parts.1) (λ o. ok (o, p.1))
            λ o e''. Gives-ok _ (o, p.1) (chunk-Skips r p e)

  pub decode_datetime-Skips : (r : Reader) → Skips len r (decode_datetime py rt r)
  unfolding decode_datetime
  decode_datetime-Skips r = time-Skips r (to_datetime py rt)

  pub decode_timedelta-Skips : (r : Reader) → Skips len r (decode_timedelta py rt r)
  unfolding decode_timedelta
  decode_timedelta-Skips r = time-Skips r (to_timedelta py rt)

  pub decode_enum-Skips :
      (l : Option (LinkedRef py.Obj)) (r : Reader) → Skips varint r (decode_enum py rt l r)
  unfolding decode_enum
  decode_enum-Skips l r =
      Skips-then varint r _ (λ raw. coerced py rt l (as_i32 raw)) (varint-Skips r)
