-- ===== src/Decode/RoundTrip.antt =====
-- `decode_scalar` of src/decode/mod.rs reads what `encode_scalar` of src/encode/mod.rs writes.
use fastproto.Common.{
  ℕ, ◌^◌, ◌<◌, ◌≡◌, refl, ap, sym, ◌∙◌, ◌==◌, not, Bool, true, false, List, [], ◌++◌, length,
  length-append, ok, ◌>>=◌, arith,
}
use native.Mathlib.Nat.{mod-eq_of_lt}
use fastproto.Common.Int.{
  ℤ, pos, as_u32, as_u64, IsI32, IsI64, as_i64-as_u64, as_i32-as_u64, as_i32-as_u32, as_u64-lt,
  as_u32-lt,
}
use fastproto.Common.Utf8.{Text, is_utf8}
use fastproto.Wire.Reader.{
  Reader, reader_at, read_varint, read_fixed32, read_fixed64, read_len_delimited,
}
use fastproto.Wire.Writer.{write_varint, write_fixed32, write_fixed64, write_len_delimited}
use fastproto.Wire.ZigZag.{
  zigzag_encode32, zigzag_encode64, zigzag32_roundtrip, zigzag64_roundtrip, zigzag_encode32-lt,
  zigzag_encode64-lt,
}
use fastproto.Wire.Varint.{encoding, encoding-nonempty, write_varint-append}
use fastproto.Wire.RoundTrip.{
  read_varint-write_varint, read_fixed32-write_fixed32, read_fixed64-write_fixed64,
  read_len_delimited-write_len_delimited, write_len_delimited-append,
}
use fastproto.Descriptor.Types.{
  ScalarType, double, float, int32, int64, uint32, uint64, sint32, sint64, fixed32, fixed64,
  sfixed32, sfixed64, bool, string, bytes,
}
use fastproto.Python.{Python, Converts, IsF32, IsF64}
use fastproto.Encode.Scalars.{as_bit, byte_slice_bytes, encode_scalar}
use fastproto.Decode.Scalars.{decode_scalar}

module _ (py : Python) where
  -- The objects of a scalar type: integers in its range, booleans, floats other than NaN, strings
  -- in UTF-8 and bytes.
  pub data IsScalar : ScalarType → py.Obj → Type 0 where
    int32_value : (i : ℤ) → IsI32 i → IsScalar int32 (py.from_int i)
    int64_value : (i : ℤ) → IsI64 i → IsScalar int64 (py.from_int i)
    uint32_value : (n : ℕ) → n < 2 ^ 32 → IsScalar uint32 (py.from_int (pos n))
    uint64_value : (n : ℕ) → n < 2 ^ 64 → IsScalar uint64 (py.from_int (pos n))
    sint32_value : (i : ℤ) → IsI32 i → IsScalar sint32 (py.from_int i)
    sint64_value : (i : ℤ) → IsI64 i → IsScalar sint64 (py.from_int i)
    bool_value : (b : Bool) → IsScalar bool (py.from_bool b)
    fixed32_value : (n : ℕ) → n < 2 ^ 32 → IsScalar fixed32 (py.from_int (pos n))
    fixed64_value : (n : ℕ) → n < 2 ^ 64 → IsScalar fixed64 (py.from_int (pos n))
    sfixed32_value : (i : ℤ) → IsI32 i → IsScalar sfixed32 (py.from_int i)
    sfixed64_value : (i : ℤ) → IsI64 i → IsScalar sfixed64 (py.from_int i)
    float_value : (b : ℕ) → IsF32 b → IsScalar float (py.from_f32 b)
    double_value : (b : ℕ) → IsF64 b → IsScalar double (py.from_f64 b)
    string_value : (t : Text) → is_utf8 t ≡ true → IsScalar string (py.from_str t)
    bytes_value : (b : List ℕ) → IsScalar bytes (py.from_bytes b)

  -- The encoder appends bytes for the object, and the decoder makes the object of those bytes,
  -- wherever they stand in a buffer.
  pub record Survives (s : ScalarType) (o : py.Obj) : Type 0 where
    pub payload : List ℕ
    pub nonempty : 0 < length payload
    pub written : (buf : List ℕ) → encode_scalar py buf s o ≡ ok (buf ++ payload)
    pub read :
        (front back : List ℕ)
        → length (front ++ (payload ++ back)) < 2 ^ 63
        → decode_scalar py s (reader_at front (payload ++ back))
          ≡ ok (o, reader_at (front ++ payload) back)

-- A payload goes behind what the buffer holds.
varint_behind : (buf : List ℕ) (v : ℕ) → write_varint buf v ≡ buf ++ write_varint [] v
varint_behind buf v =
    write_varint-append buf v ∙ ap (λ (l : List ℕ). buf ++ l) (sym (write_varint-append [] v))

chunk_behind :
    (buf chunk : List ℕ) → write_len_delimited buf chunk ≡ buf ++ write_len_delimited [] chunk
chunk_behind buf chunk =
    write_len_delimited-append buf chunk
    ∙ ap (λ (l : List ℕ). buf ++ l) (sym (write_len_delimited-append [] chunk))

varint-nonempty : (v : ℕ) → 0 < length (write_varint [] v)
varint-nonempty v = rw (write_varint-append [] v) (encoding-nonempty v)

chunk-nonempty : (chunk : List ℕ) → 0 < length (write_len_delimited [] chunk)
chunk-nonempty chunk =
    rw (write_len_delimited-append [] chunk) (
      omega
        (arith, length-append (encoding (length chunk)) chunk, encoding-nonempty (length chunk)))

bit_back : (b : Bool) → not (as_bit b == 0) ≡ b
bit_back true = refl
bit_back false = refl

as_bit-lt : (b : Bool) → as_bit b < 2 ^ 64
as_bit-lt true = omega arith
as_bit-lt false = omega arith

module _ (py : Python) (s : ScalarType) (o : py.Obj) where
  -- The scalars that are written as a varint, as a fixed-width word, and behind a length.
  by_varint :
      (w : ℕ)
      → w < 2 ^ 64
      → ((buf : List ℕ) → encode_scalar py buf s o ≡ ok (write_varint buf w))
      → ((r r' : Reader) → read_varint r ≡ ok (w, r') → decode_scalar py s r ≡ ok (o, r'))
      → Survives py s o
  by_varint w small enc dec = record {
    payload = write_varint [] w;
    nonempty = varint-nonempty w;
    written = λ buf. enc buf ∙ ap ok (varint_behind buf w);
    read = λ front back room. dec _ _ (read_varint-write_varint w front back small);
  }

  by_fixed32 :
      (w : ℕ)
      → w < 2 ^ 32
      → ((buf : List ℕ) → encode_scalar py buf s o ≡ ok (write_fixed32 buf w))
      → ((r r' : Reader) → read_fixed32 r ≡ ok (w, r') → decode_scalar py s r ≡ ok (o, r'))
      → Survives py s o
  unfolding write_fixed32
  by_fixed32 w small enc dec = record {
    payload = write_fixed32 [] w;
    nonempty = omega arith;
    written = enc;
    read = λ front back room. dec _ _ (read_fixed32-write_fixed32 w front back small);
  }

  by_fixed64 :
      (w : ℕ)
      → w < 2 ^ 64
      → ((buf : List ℕ) → encode_scalar py buf s o ≡ ok (write_fixed64 buf w))
      → ((r r' : Reader) → read_fixed64 r ≡ ok (w, r') → decode_scalar py s r ≡ ok (o, r'))
      → Survives py s o
  unfolding write_fixed64
  by_fixed64 w small enc dec = record {
    payload = write_fixed64 [] w;
    nonempty = omega arith;
    written = enc;
    read = λ front back room. dec _ _ (read_fixed64-write_fixed64 w front back small);
  }

  by_chunk :
      (chunk : List ℕ)
      → ((buf : List ℕ) → encode_scalar py buf s o ≡ ok (write_len_delimited buf chunk))
      → ((r r' : Reader)
          → read_len_delimited r ≡ ok (chunk, r')
          → decode_scalar py s r ≡ ok (o, r'))
      → Survives py s o
  by_chunk chunk enc dec = record {
    payload = write_len_delimited [] chunk;
    nonempty = chunk-nonempty chunk;
    written = λ buf. enc buf ∙ ap ok (chunk_behind buf chunk);
    read =
        λ front back room. dec _ _ (read_len_delimited-write_len_delimited chunk front back room);
  }

-- Every object of a scalar type is encoded, and decoding the bytes gives the same object: for all
-- fifteen scalar types, wherever the bytes stand in a buffer shorter than 2 ^ 63.
pub decode_scalar-encode_scalar :
    (py : Python) → Converts py → (s : ScalarType) (o : py.Obj) → IsScalar py s o → Survives py s o
unfolding encode_scalar decode_scalar
decode_scalar-encode_scalar py c _ _ (int32_value i h) =
    by_varint py int32 _ (as_u64 i) (as_u64-lt i) (λ buf. rw (c.i32_int i h) refl)
      (λ r r' e. rw (e, ◌>>=◌) (rw (as_i32-as_u64 i h) refl))
decode_scalar-encode_scalar py c _ _ (int64_value i h) =
    by_varint py int64 _ (as_u64 i) (as_u64-lt i) (λ buf. rw (c.i64_int i h) refl)
      (λ r r' e. rw (e, ◌>>=◌) (rw (as_i64-as_u64 i h) refl))
decode_scalar-encode_scalar py c _ _ (uint32_value n h) =
    by_varint py uint32 _ n (omega arith) (λ buf. rw (c.u32_int n h) refl)
      (λ r r' e. rw (e, ◌>>=◌) (rw (mod-eq_of_lt h) refl))
decode_scalar-encode_scalar py c _ _ (uint64_value n h) =
    by_varint py uint64 _ n h (λ buf. rw (c.u64_int n h) refl) (λ r r' e. rw e refl)
decode_scalar-encode_scalar py c _ _ (sint32_value i h) =
    by_varint py sint32 _ (zigzag_encode32 i) (omega (arith, zigzag_encode32-lt i h))
      (λ buf. rw (c.i32_int i h) refl)
      (λ r r' e.
        rw (e, ◌>>=◌) (rw (mod-eq_of_lt (zigzag_encode32-lt i h), (zigzag32_roundtrip i h).0) refl))
decode_scalar-encode_scalar py c _ _ (sint64_value i h) =
    by_varint py sint64 _ (zigzag_encode64 i) (zigzag_encode64-lt i h)
      (λ buf. rw (c.i64_int i h) refl)
      (λ r r' e. rw (e, ◌>>=◌) (rw ((zigzag64_roundtrip i h).0) refl))
decode_scalar-encode_scalar py c _ _ (bool_value b) =
    by_varint py bool _ (as_bit b) (as_bit-lt b) (λ buf. rw (c.bool_bool b) refl)
      (λ r r' e. rw (e, ◌>>=◌) (rw (bit_back b) refl))
decode_scalar-encode_scalar py c _ _ (fixed32_value n h) =
    by_fixed32 py fixed32 _ n h (λ buf. rw (c.u32_int n h) refl) (λ r r' e. rw e refl)
decode_scalar-encode_scalar py c _ _ (fixed64_value n h) =
    by_fixed64 py fixed64 _ n h (λ buf. rw (c.u64_int n h) refl) (λ r r' e. rw e refl)
decode_scalar-encode_scalar py c _ _ (sfixed32_value i h) =
    by_fixed32 py sfixed32 _ (as_u32 i) (as_u32-lt i) (λ buf. rw (c.i32_int i h) refl)
      (λ r r' e. rw (e, ◌>>=◌) (rw (as_i32-as_u32 i h) refl))
decode_scalar-encode_scalar py c _ _ (sfixed64_value i h) =
    by_fixed64 py sfixed64 _ (as_u64 i) (as_u64-lt i) (λ buf. rw (c.i64_int i h) refl)
      (λ r r' e. rw (e, ◌>>=◌) (rw (as_i64-as_u64 i h) refl))
decode_scalar-encode_scalar py c _ _ (float_value b h) =
    by_fixed32 py float _ b h.0 (λ buf. rw (c.f32_f32 b h) refl) (λ r r' e. rw e refl)
decode_scalar-encode_scalar py c _ _ (double_value b h) =
    by_fixed64 py double _ b h.0 (λ buf. rw (c.f64_f64 b h) refl) (λ r r' e. rw e refl)
decode_scalar-encode_scalar py c _ _ (string_value t h) =
    by_chunk py string _ t (λ buf. rw (c.str_str t h) refl) (λ r r' e. rw (e, ◌>>=◌) (rw (h) refl))
decode_scalar-encode_scalar py c _ _ (bytes_value b) =
    by_chunk py bytes _ b (λ buf. rw (byte_slice_bytes py _ b (c.bytes_bytes b)) refl)
      (λ r r' e. rw e refl)
