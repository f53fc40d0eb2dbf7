-- ===== src/Decode/Safety.antt =====
-- Scalars and packed fields of src/decode/mod.rs move the cursor on, and end without a panic.
use fastproto.Common.{refl, List, Result, ok, ◌>>=◌}
use fastproto.Common.Utf8.{is_utf8}
use fastproto.Wire.Reader.{Reader, read_varint, read_fixed32, read_fixed64, read_len_delimited}
use fastproto.Wire.Progress.{Moved}
use fastproto.Wire.Steps.{
  read_varint-Steps, read_fixed32-Steps, read_fixed64-Steps, read_len_delimited-Steps,
}
use fastproto.Descriptor.Types.{
  ScalarType, double, float, int32, int64, uint32, uint64, sint32, sint64, fixed32, fixed64,
  sfixed32, sfixed64, bool, string, bytes,
}
use fastproto.WellKnown.Parts.{}
use fastproto.Python.{Python, CodecError}
use fastproto.Python.Safe.{Safe}
use fastproto.Python.Post.{
  Post, yields, throws, Post-Safe, Post-any, Post-if, Post-bind, Post-Steps, read_all-Post,
}
use fastproto.Decode.Scalars.{checked, decode_scalar}
use fastproto.Decode.Packed.{packed_round, decode_chunk, decode_packed}
use fastproto.Decode.Values.{}

-- A read that moves the cursor.
abbrev pub Reads : {A : Type 0} → Reader → Result CodecError (A × Reader) → Type 0
Reads r m = Post (λ p. Moved r p.1) m

-- What is read is turned into another value.
pub Reads-store :
    {A B : Type 0} {r : Reader} (m : Result CodecError (A × Reader)) (g : A → B)
    → Reads r m
    → Reads r (m >>= λ p. ok (g p.0, p.1))
Reads-store m g h = Post-bind m _ h (λ p mv. yields mv)

-- The same, where that may raise.
pub Reads-then :
    {A B : Type 0} {r : Reader} (m : Result CodecError (A × Reader)) (g : A → Result CodecError B)
    → Reads r m
    → ((a : A) → Safe (g a))
    → Reads r (m >>= λ p. g p.0 >>= λ b. ok (b, p.1))
Reads-then m g h k =
    Post-bind m _ h (λ p mv. Post-bind (g p.0) _ (Post-any (k p.0)) (λ b t. yields mv))

pub varint-Reads : (r : Reader) → Reads r (checked (read_varint r))
varint-Reads r = Post-Steps (read_varint-Steps r)

word32-Reads : (r : Reader) → Reads r (checked (read_fixed32 r))
word32-Reads r = Post-Steps (read_fixed32-Steps r)

word64-Reads : (r : Reader) → Reads r (checked (read_fixed64 r))
word64-Reads r = Post-Steps (read_fixed64-Steps r)

pub chunk-Reads : (r : Reader) → Reads r (checked (read_len_delimited r))
chunk-Reads r = Post-Steps (read_len_delimited-Steps r)

module _ (py : Python) where
  pub decode_scalar-Reads : (s : ScalarType) (r : Reader) → Reads r (decode_scalar py s r)
  unfolding decode_scalar
  decode_scalar-Reads int32 r = Reads-store _ _ (varint-Reads r)
  decode_scalar-Reads int64 r = Reads-store _ _ (varint-Reads r)
  decode_scalar-Reads uint32 r = Reads-store _ _ (varint-Reads r)
  decode_scalar-Reads uint64 r = Reads-store _ _ (varint-Reads r)
  decode_scalar-Reads sint32 r = Reads-store _ _ (varint-Reads r)
  decode_scalar-Reads sint64 r = Reads-store _ _ (varint-Reads r)
  decode_scalar-Reads bool r = Reads-store _ _ (varint-Reads r)
  decode_scalar-Reads fixed32 r = Reads-store _ _ (word32-Reads r)
  decode_scalar-Reads sfixed32 r = Reads-store _ _ (word32-Reads r)
  decode_scalar-Reads float r = Reads-store _ _ (word32-Reads r)
  decode_scalar-Reads fixed64 r = Reads-store _ _ (word64-Reads r)
  decode_scalar-Reads sfixed64 r = Reads-store _ _ (word64-Reads r)
  decode_scalar-Reads double r = Reads-store _ _ (word64-Reads r)
  decode_scalar-Reads string r =
      Post-bind _ _ (chunk-Reads r) (λ p mv. Post-if (is_utf8 p.0) (yields mv) (throws refl))
  decode_scalar-Reads bytes r = Reads-store _ _ (chunk-Reads r)

  packed_round-Reads :
      (s : ScalarType) (list : List py.Obj) (r : Reader)
      → Post (λ p. Unit {0} × Moved r p.1) (packed_round py s list r)
  unfolding packed_round
  packed_round-Reads s list r = Post-bind _ _ (decode_scalar-Reads s r) (λ p mv. yields (tt, mv))

  pub decode_packed-Reads :
      (s : ScalarType) (list : List py.Obj) (r : Reader) → Reads r (decode_packed py s list r)
  unfolding decode_packed decode_chunk
  decode_packed-Reads s list r = Reads-then _ _ (chunk-Reads r) (λ chunk. Post-Safe (
      read_all-Post (λ l. Unit {0}) (packed_round py s) (λ l r' h. packed_round-Reads s l r') list
        chunk tt))
