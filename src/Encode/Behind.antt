-- ===== src/Encode/Behind.antt =====
-- The scalars of src/encode/mod.rs write the same bytes behind every buffer.
use fastproto.Common.{
  ℕ, ◌==◌, ◌≡◌, refl, sym, ap, ◌∙◌, ◌&&◌, if◌then◌else◌, Bool, true, false, List, [], ◌++◌,
  append_assoc, append-nil, ok, ok_or,
}
use fastproto.Common.Int.{ℤ, as_u32, as_u64}
use fastproto.Wire.Types.{varint, i64, i32, len, WireType}
use fastproto.Wire.Writer.{
  write_varint, write_tag, write_fixed32, write_fixed64, write_len_delimited,
}
use fastproto.Wire.Varint.{write_varint-append}
use fastproto.Wire.RoundTrip.{write_len_delimited-append}
use fastproto.Wire.ZigZag.{zigzag_encode32, zigzag_encode64}
use fastproto.Descriptor.Types.{
  ScalarType, double, float, int32, int64, uint32, uint64, sint32, sint64, fixed32, fixed64,
  sfixed32, sfixed64, bool, string, bytes,
}
use fastproto.WellKnown.Codec.{is_zero, encode_parts}
use fastproto.Python.{Python}
use fastproto.Encode.Parts.{write_parts_field-eq-chunk}
use fastproto.Encode.Scalars.{
  str_error, as_bit, is_nil, write_parts_field, varint_arm, bool_arm, fixed32_arm, fixed64_arm,
  chunk_arm, extracted, byte_slice, encode_scalar, encode_scalar_field,
}
use fastproto.Encode.Writes.{Writes, Writes-pure, Writes-bind, write_tag-behind}

-- Functions that write on every buffer, and succeed.
abbrev Behind : (List ℕ → List ℕ) → Type 0
Behind f = (buf : List ℕ) → f buf ≡ buf ++ f []

Behind-Writes : (f : List ℕ → List ℕ) → Behind f → Writes (λ buf. ok (f buf)) (ok (f []))
Behind-Writes f h = Writes-pure (λ buf. ok (f buf)) (f []) (λ buf. ap ok (h buf))

-- Behind a tag.
Behind-tag :
    (f : List ℕ → List ℕ) (number : ℕ) (w : WireType)
    → Behind f
    → Behind (λ buf. f (write_tag buf number w))
Behind-tag f number w h buf =
    h (write_tag buf number w)
    ∙ ap (λ (l : List ℕ). l ++ f []) (write_tag-behind buf number w)
    ∙ append_assoc buf (write_tag [] number w) (f [])
    ∙ ap (λ (l : List ℕ). buf ++ l) (sym (h (write_tag [] number w)))

Behind-if : (b : Bool) (f : List ℕ → List ℕ) → Behind f → Behind (λ buf. if b then buf else f buf)
Behind-if true f h = λ buf. sym (append-nil buf)
Behind-if false f h = h

pub write_varint-Behind : (v : ℕ) → Behind (λ buf. write_varint buf v)
write_varint-Behind v buf =
    write_varint-append buf v ∙ ap (λ (l : List ℕ). buf ++ l) (sym (write_varint-append [] v))

word32-Behind : (v : ℕ) → Behind (λ buf. write_fixed32 buf v)
unfolding write_fixed32
word32-Behind v buf = refl

word64-Behind : (v : ℕ) → Behind (λ buf. write_fixed64 buf v)
unfolding write_fixed64
word64-Behind v buf = refl

chunk-Behind : (p : List ℕ) → Behind (λ buf. write_len_delimited buf p)
chunk-Behind p buf =
    write_len_delimited-append buf p
    ∙ ap (λ (l : List ℕ). buf ++ l) (sym (write_len_delimited-append [] p))

varint_arm-Writes :
    (number : ℕ) (skip zero : Bool) (word : ℕ)
    → Writes
        (λ buf. ok (varint_arm buf number skip zero word))
        (ok (varint_arm [] number skip zero word))
unfolding varint_arm
varint_arm-Writes number skip zero word = Behind-Writes _ (
    Behind-if (skip && zero) _
      (Behind-tag (λ buf. write_varint buf word) number varint (write_varint-Behind word)))

bool_arm-Writes :
    (number : ℕ) (skip v : Bool)
    → Writes (λ buf. ok (bool_arm buf number skip v)) (ok (bool_arm [] number skip v))
unfolding bool_arm
bool_arm-Writes number skip true =
    Behind-Writes _ (Behind-tag (λ buf. write_varint buf 1) number varint (write_varint-Behind 1))
bool_arm-Writes number true false = Behind-Writes (λ buf. buf) (λ buf. sym (append-nil buf))
bool_arm-Writes number false false =
    Behind-Writes _ (Behind-tag (λ buf. write_varint buf 0) number varint (write_varint-Behind 0))

fixed32_arm-Writes :
    (number : ℕ) (skip : Bool) (bits : ℕ)
    → Writes (λ buf. ok (fixed32_arm buf number skip bits)) (ok (fixed32_arm [] number skip bits))
unfolding fixed32_arm
fixed32_arm-Writes number skip bits = Behind-Writes _ (
    Behind-if (skip && (bits == 0)) _
      (Behind-tag (λ buf. write_fixed32 buf bits) number i32 (word32-Behind bits)))

fixed64_arm-Writes :
    (number : ℕ) (skip : Bool) (bits : ℕ)
    → Writes (λ buf. ok (fixed64_arm buf number skip bits)) (ok (fixed64_arm [] number skip bits))
unfolding fixed64_arm
fixed64_arm-Writes number skip bits = Behind-Writes _ (
    Behind-if (skip && (bits == 0)) _
      (Behind-tag (λ buf. write_fixed64 buf bits) number i64 (word64-Behind bits)))

chunk_arm-Writes :
    (number : ℕ) (skip : Bool) (p : List ℕ)
    → Writes (λ buf. ok (chunk_arm buf number skip p)) (ok (chunk_arm [] number skip p))
unfolding chunk_arm
chunk_arm-Writes number skip p = Behind-Writes _ (
    Behind-if (skip && is_nil p) _
      (Behind-tag (λ buf. write_len_delimited buf p) number len (chunk-Behind p)))

pub write_parts_field-Writes :
    (number : ℕ) (secs nanos : ℤ)
    → Writes
        (λ buf. ok (write_parts_field buf number secs nanos))
        (ok (write_parts_field [] number secs nanos))
write_parts_field-Writes number secs nanos =
    Behind-Writes (λ buf. write_parts_field buf number secs nanos)
      (λ buf.
        write_parts_field-eq-chunk buf number secs nanos
        ∙ Behind-tag (λ b. write_len_delimited b (encode_parts [] secs nanos)) number len
            (chunk-Behind (encode_parts [] secs nanos)) buf
        ∙ ap (λ (l : List ℕ). buf ++ l) (sym (write_parts_field-eq-chunk [] number secs nanos)))

pub write_varint-Writes : (v : ℕ) → Writes (λ buf. ok (write_varint buf v)) (ok (write_varint [] v))
write_varint-Writes v = Behind-Writes _ (write_varint-Behind v)

word32-Writes : (v : ℕ) → Writes (λ buf. ok (write_fixed32 buf v)) (ok (write_fixed32 [] v))
word32-Writes v = Behind-Writes _ (word32-Behind v)

word64-Writes : (v : ℕ) → Writes (λ buf. ok (write_fixed64 buf v)) (ok (write_fixed64 [] v))
word64-Writes v = Behind-Writes _ (word64-Behind v)

chunk-Writes :
    (p : List ℕ) → Writes (λ buf. ok (write_len_delimited buf p)) (ok (write_len_delimited [] p))
chunk-Writes p = Behind-Writes _ (chunk-Behind p)

module _ (py : Python) where
  pub encode_scalar-Writes :
      (s : ScalarType) (o : py.Obj)
      → Writes (λ buf. encode_scalar py buf s o) (encode_scalar py [] s o)
  unfolding encode_scalar
  encode_scalar-Writes int32 o =
      Writes-bind (extracted py (py.extract_i32 o)) _ _ (λ v. write_varint-Writes (as_u64 v))
  encode_scalar-Writes int64 o =
      Writes-bind (extracted py (py.extract_i64 o)) _ _ (λ v. write_varint-Writes (as_u64 v))
  encode_scalar-Writes uint32 o =
      Writes-bind (extracted py (py.extract_u32 o)) _ _ (λ v. write_varint-Writes v)
  encode_scalar-Writes uint64 o =
      Writes-bind (extracted py (py.extract_u64 o)) _ _ (λ v. write_varint-Writes v)
  encode_scalar-Writes sint32 o =
      Writes-bind (extracted py (py.extract_i32 o)) _ _
        (λ v. write_varint-Writes (zigzag_encode32 v))
  encode_scalar-Writes sint64 o =
      Writes-bind (extracted py (py.extract_i64 o)) _ _
        (λ v. write_varint-Writes (zigzag_encode64 v))
  encode_scalar-Writes bool o =
      Writes-bind (extracted py (py.extract_bool o)) _ _ (λ v. write_varint-Writes (as_bit v))
  encode_scalar-Writes fixed32 o =
      Writes-bind (extracted py (py.extract_u32 o)) _ _ (λ v. word32-Writes v)
  encode_scalar-Writes sfixed32 o =
      Writes-bind (extracted py (py.extract_i32 o)) _ _ (λ v. word32-Writes (as_u32 v))
  encode_scalar-Writes float o =
      Writes-bind (extracted py (py.extract_f32 o)) _ _ (λ v. word32-Writes v)
  encode_scalar-Writes fixed64 o =
      Writes-bind (extracted py (py.extract_u64 o)) _ _ (λ v. word64-Writes v)
  encode_scalar-Writes sfixed64 o =
      Writes-bind (extracted py (py.extract_i64 o)) _ _ (λ v. word64-Writes (as_u64 v))
  encode_scalar-Writes double o =
      Writes-bind (extracted py (py.extract_f64 o)) _ _ (λ v. word64-Writes v)
  encode_scalar-Writes string o =
      Writes-bind (ok_or (py.cast_str o) (str_error py o)) _ _ (λ v. chunk-Writes v)
  encode_scalar-Writes bytes o = Writes-bind (byte_slice py o) _ _ (λ v. chunk-Writes v)

  pub encode_scalar_field-Writes :
      (number : ℕ) (s : ScalarType) (o : py.Obj) (skip : Bool)
      → Writes
          (λ buf. encode_scalar_field py buf number s o skip)
          (encode_scalar_field py [] number s o skip)
  unfolding encode_scalar_field
  encode_scalar_field-Writes number int32 o skip =
      Writes-bind (extracted py (py.extract_i32 o)) _ _
        (λ v. varint_arm-Writes number skip (is_zero v) (as_u64 v))
  encode_scalar_field-Writes number int64 o skip =
      Writes-bind (extracted py (py.extract_i64 o)) _ _
        (λ v. varint_arm-Writes number skip (is_zero v) (as_u64 v))
  encode_scalar_field-Writes number uint32 o skip =
      Writes-bind (extracted py (py.extract_u32 o)) _ _
        (λ v. varint_arm-Writes number skip (v == 0) v)
  encode_scalar_field-Writes number uint64 o skip =
      Writes-bind (extracted py (py.extract_u64 o)) _ _
        (λ v. varint_arm-Writes number skip (v == 0) v)
  encode_scalar_field-Writes number sint32 o skip =
      Writes-bind (extracted py (py.extract_i32 o)) _ _
        (λ v. varint_arm-Writes number skip (is_zero v) (zigzag_encode32 v))
  encode_scalar_field-Writes number sint64 o skip =
      Writes-bind (extracted py (py.extract_i64 o)) _ _
        (λ v. varint_arm-Writes number skip (is_zero v) (zigzag_encode64 v))
  encode_scalar_field-Writes number bool o skip =
      Writes-bind (extracted py (py.extract_bool o)) _ _ (λ v. bool_arm-Writes number skip v)
  encode_scalar_field-Writes number fixed32 o skip =
      Writes-bind (extracted py (py.extract_u32 o)) _ _ (λ v. fixed32_arm-Writes number skip v)
  encode_scalar_field-Writes number sfixed32 o skip =
      Writes-bind (extracted py (py.extract_i32 o)) _ _
        (λ v. fixed32_arm-Writes number skip (as_u32 v))
  encode_scalar_field-Writes number float o skip =
      Writes-bind (extracted py (py.extract_f32 o)) _ _ (λ v. fixed32_arm-Writes number skip v)
  encode_scalar_field-Writes number fixed64 o skip =
      Writes-bind (extracted py (py.extract_u64 o)) _ _ (λ v. fixed64_arm-Writes number skip v)
  encode_scalar_field-Writes number sfixed64 o skip =
      Writes-bind (extracted py (py.extract_i64 o)) _ _
        (λ v. fixed64_arm-Writes number skip (as_u64 v))
  encode_scalar_field-Writes number double o skip =
      Writes-bind (extracted py (py.extract_f64 o)) _ _ (λ v. fixed64_arm-Writes number skip v)
  encode_scalar_field-Writes number string o skip =
      Writes-bind (ok_or (py.cast_str o) (str_error py o)) _ _ (λ v. chunk_arm-Writes number skip v)
  encode_scalar_field-Writes number bytes o skip =
      Writes-bind (byte_slice py o) _ _ (λ v. chunk_arm-Writes number skip v)
