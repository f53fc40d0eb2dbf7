-- ===== src/Encode/Presence.antt =====
-- Fields with and without presence: `encode_scalar_field` against `encode_scalar`
-- (src/encode/mod.rs) and the defaults of map entries (`scalar_default` of src/decode/mod.rs).
use fastproto.Common.{
  ℕ, ◌≡◌, refl, ap, sym, ◌∙◌, ◌==◌, ==→eq, if◌then◌else◌, not, Bool, true, false, Bool-cases, ◌⊎◌,
  inl, inr, List, [], ◌∷◌, Result, ok, err, out_of_fuel, ◌>>=◌, ok_or, arith,
}
use fastproto.Common.Int.{ℤ, pos, negsuc, as_u32, as_u64}
use fastproto.Common.Utf8.{is_utf8}
use fastproto.Wire.Types.{varint}
use fastproto.Wire.Writer.{
  write_varint, write_tag, write_fixed32, write_fixed64, write_len_delimited,
}
use fastproto.Wire.ZigZag.{zigzag_encode32, zigzag_encode64}
use fastproto.Descriptor.Types.{
  ScalarType, wire_type, double, float, int32, int64, uint32, uint64, sint32, sint64, fixed32,
  fixed64, sfixed32, sfixed64, bool, string, bytes,
}
use fastproto.WellKnown.Codec.{is_zero}
use fastproto.Python.{Python, Converts, CodecError, extract_failed}
use fastproto.Encode.Scalars.{
  str_error, as_bit, is_nil, byte_slice_bytes, byte_slice, encode_scalar, encode_scalar_field,
  varint_arm, bool_arm, fixed32_arm, fixed64_arm, chunk_arm,
}
use fastproto.Decode.Scalars.{scalar_default}

bind_same :
    {A : Type 0} (m : Result CodecError A) (f g : A → Result CodecError (List ℕ))
    → ((v : A) → f v ≡ g v)
    → (m >>= f) ≡ (m >>= g)
bind_same (ok v) f g h = h v
bind_same (err e) f g h = refl
bind_same out_of_fuel f g h = refl

bool_written :
    (buf : List ℕ) (number : ℕ) (v : Bool)
    → bool_arm buf number false v ≡ write_varint (write_tag buf number varint) (as_bit v)
unfolding bool_arm
bool_written buf number true = refl
bool_written buf number false = refl

bool_skipped :
    (buf : List ℕ) (number : ℕ) (v : Bool)
    → bool_arm buf number true v ≡ (if not v then buf else bool_arm buf number false v)
unfolding bool_arm
bool_skipped buf number true = refl
bool_skipped buf number false = refl

-- A field with presence is its tag and then the payload, for every scalar type and every object,
-- errors included.
pub encode_scalar_field-eq-encode_scalar :
    (py : Python) (buf : List ℕ) (number : ℕ) (s : ScalarType) (o : py.Obj)
    → encode_scalar_field py buf number s o false
      ≡ encode_scalar py (write_tag buf number (wire_type s)) s o
unfolding encode_scalar_field encode_scalar wire_type varint_arm bool_arm fixed32_arm fixed64_arm
    chunk_arm
encode_scalar_field-eq-encode_scalar py buf number int32 o = refl
encode_scalar_field-eq-encode_scalar py buf number int64 o = refl
encode_scalar_field-eq-encode_scalar py buf number uint32 o = refl
encode_scalar_field-eq-encode_scalar py buf number uint64 o = refl
encode_scalar_field-eq-encode_scalar py buf number sint32 o = refl
encode_scalar_field-eq-encode_scalar py buf number sint64 o = refl
encode_scalar_field-eq-encode_scalar py buf number bool o =
    bind_same (ok_or (py.extract_bool o) extract_failed) _ _
      (λ v. ap ok (bool_written buf number v))
encode_scalar_field-eq-encode_scalar py buf number fixed32 o = refl
encode_scalar_field-eq-encode_scalar py buf number sfixed32 o = refl
encode_scalar_field-eq-encode_scalar py buf number float o = refl
encode_scalar_field-eq-encode_scalar py buf number fixed64 o = refl
encode_scalar_field-eq-encode_scalar py buf number sfixed64 o = refl
encode_scalar_field-eq-encode_scalar py buf number double o = refl
encode_scalar_field-eq-encode_scalar py buf number string o = refl
encode_scalar_field-eq-encode_scalar py buf number bytes o = refl

zero_int : (i : ℤ) → is_zero i ≡ true → i ≡ pos 0
zero_int (pos n) h = ap pos (==→eq n 0 h)
zero_int (negsuc n) h = cc

nil_list : (l : List ℕ) → is_nil l ≡ true → l ≡ []
nil_list [] h = refl
nil_list (x ∷ l) h = cc

-- An arm that writes nothing for a zero: what it skips has the payload of the default.
skip_or_write :
    {A : Type 0} (m : Result CodecError A) (zero : A → Bool) (field payload : A → List ℕ)
    (buf buf' : List ℕ) (d : Result CodecError (List ℕ))
    → ((v : A) → zero v ≡ true → ok (payload v) ≡ d)
    → (m >>= λ v. ok (if zero v then buf else field v)) ≡ ok buf'
    → ((buf' ≡ buf) × ((m >>= λ v. ok (payload v)) ≡ d)) ⊎ ((m >>= λ v. ok (field v)) ≡ ok buf')
skip_or_write (err e) zero field payload buf buf' d law h = cc
skip_or_write out_of_fuel zero field payload buf buf' d law h = cc
skip_or_write (ok v) zero field payload buf buf' d law h = elim (Bool-cases (zero v)) [
  | inl e ↦ inl (cc (rw e at h), law v e)
  | inr e ↦ inr (rw e at h)
]

zero_bit : (v : Bool) → not v ≡ true → as_bit v ≡ 0
zero_bit true h = cc
zero_bit false h = refl

-- A field without presence that writes nothing leaves out only an object that has the payload of
-- the default of its type, the value that the decoder gives to a key or a value missing in a map
-- entry. Where it writes, it writes what a field with presence writes. This is for every scalar
-- type and every object that is encoded, where Python objects give back the values they were made
-- of.
pub encode_scalar_field-scalar_default :
    (py : Python)
    → Converts py
    → (buf buf' : List ℕ) (number : ℕ) (s : ScalarType) (o : py.Obj)
    → encode_scalar_field py buf number s o true ≡ ok buf'
    → ((buf' ≡ buf) × (encode_scalar py [] s o ≡ encode_scalar py [] s (scalar_default py s)))
      ⊎ (encode_scalar_field py buf number s o false ≡ ok buf')
unfolding encode_scalar_field encode_scalar varint_arm fixed32_arm fixed64_arm chunk_arm
    scalar_default is_utf8
encode_scalar_field-scalar_default py c buf buf' number int32 o h =
    skip_or_write (ok_or (py.extract_i32 o) extract_failed) (is_zero) _
      (λ v. write_varint [] (as_u64 v)) buf buf' _
      (λ v e. rw (c.i32_int (pos 0) (omega arith), zero_int v e) refl) h
encode_scalar_field-scalar_default py c buf buf' number int64 o h =
    skip_or_write (ok_or (py.extract_i64 o) extract_failed) (is_zero) _
      (λ v. write_varint [] (as_u64 v)) buf buf' _
      (λ v e. rw (c.i64_int (pos 0) (omega arith), zero_int v e) refl) h
encode_scalar_field-scalar_default py c buf buf' number sint32 o h =
    skip_or_write (ok_or (py.extract_i32 o) extract_failed) (is_zero) _
      (λ v. write_varint [] (zigzag_encode32 v)) buf buf' _
      (λ v e. rw (c.i32_int (pos 0) (omega arith), zero_int v e) refl) h
encode_scalar_field-scalar_default py c buf buf' number sint64 o h =
    skip_or_write (ok_or (py.extract_i64 o) extract_failed) (is_zero) _
      (λ v. write_varint [] (zigzag_encode64 v)) buf buf' _
      (λ v e. rw (c.i64_int (pos 0) (omega arith), zero_int v e) refl) h
encode_scalar_field-scalar_default py c buf buf' number uint32 o h =
    skip_or_write (ok_or (py.extract_u32 o) extract_failed) (λ v. v == 0) _ (λ v. write_varint [] v)
      buf buf' _ (λ v e. rw (c.u32_int 0 (omega arith), ==→eq v 0 e) refl) h
encode_scalar_field-scalar_default py c buf buf' number uint64 o h =
    skip_or_write (ok_or (py.extract_u64 o) extract_failed) (λ v. v == 0) _ (λ v. write_varint [] v)
      buf buf' _ (λ v e. rw (c.u64_int 0 (omega arith), ==→eq v 0 e) refl) h
encode_scalar_field-scalar_default py c buf buf' number bool o h =
    skip_or_write (ok_or (py.extract_bool o) extract_failed) not (bool_arm buf number false)
      (λ v. write_varint [] (as_bit v)) buf buf' _
      (λ v e. rw (c.bool_bool false, zero_bit v e) refl)
      (sym (
          bind_same (ok_or (py.extract_bool o) extract_failed) _ _
            (λ v. ap ok (bool_skipped buf number v)))
        ∙ h)
encode_scalar_field-scalar_default py c buf buf' number fixed32 o h =
    skip_or_write (ok_or (py.extract_u32 o) extract_failed) (λ v. v == 0) _
      (λ v. write_fixed32 [] v) buf buf' _ (λ v e. rw (c.u32_int 0 (omega arith), ==→eq v 0 e) refl)
      h
encode_scalar_field-scalar_default py c buf buf' number sfixed32 o h =
    skip_or_write (ok_or (py.extract_i32 o) extract_failed) (λ v. (as_u32 v) == 0) _
      (λ v. write_fixed32 [] (as_u32 v)) buf buf' _
      (λ v e. rw (c.i32_int (pos 0) (omega arith), ==→eq (as_u32 v) 0 e) refl) h
encode_scalar_field-scalar_default py c buf buf' number float o h =
    skip_or_write (ok_or (py.extract_f32 o) extract_failed) (λ v. v == 0) _
      (λ v. write_fixed32 [] v) buf buf' _ (λ v e. rw (c.f32_zero, ==→eq v 0 e) refl) h
encode_scalar_field-scalar_default py c buf buf' number fixed64 o h =
    skip_or_write (ok_or (py.extract_u64 o) extract_failed) (λ v. v == 0) _
      (λ v. write_fixed64 [] v) buf buf' _ (λ v e. rw (c.u64_int 0 (omega arith), ==→eq v 0 e) refl)
      h
encode_scalar_field-scalar_default py c buf buf' number sfixed64 o h =
    skip_or_write (ok_or (py.extract_i64 o) extract_failed) (λ v. (as_u64 v) == 0) _
      (λ v. write_fixed64 [] (as_u64 v)) buf buf' _
      (λ v e. rw (c.i64_int (pos 0) (omega arith), ==→eq (as_u64 v) 0 e) refl) h
encode_scalar_field-scalar_default py c buf buf' number double o h =
    skip_or_write (ok_or (py.extract_f64 o) extract_failed) (λ v. v == 0) _
      (λ v. write_fixed64 [] v) buf buf' _
      (λ v e. rw (c.f64_f64 0 (omega arith, omega arith), ==→eq v 0 e) refl) h
encode_scalar_field-scalar_default py c buf buf' number string o h =
    skip_or_write (ok_or (py.cast_str o) (str_error py o)) (is_nil) _
      (λ v. write_len_delimited [] v) buf buf' _ (λ v e. rw (c.str_str [] refl, nil_list v e) refl)
      h
encode_scalar_field-scalar_default py c buf buf' number bytes o h =
    skip_or_write (byte_slice py o) (is_nil) _ (λ v. write_len_delimited [] v) buf buf' _
      (λ v e. rw (byte_slice_bytes py _ [] (c.bytes_bytes []), nil_list v e) refl) h
