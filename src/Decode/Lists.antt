-- ===== src/Decode/Lists.antt =====
-- A packed field that `encode_repeated` of src/encode/mod.rs writes, read by `decode_repeated` of
-- src/decode/mod.rs.
use fastproto.Common.{
  ℕ, ◌+◌, ◌-◌, ◌^◌, ◌<◌, ◌≤◌, ◌≡◌, false, refl, ap, sym, subst, ◌∙◌, ◌==◌, ne→==, eq→==, List, [],
  ◌∷◌, ◌++◌, length, length-append, take-append, append_assoc, append-nil, All, ok, ◌>>=◌, arith,
}
use fastproto.Wire.Types.{len, max_field_number}
use fastproto.Wire.Reader.{reader_at}
use fastproto.Wire.Writer.{write_tag, write_len_delimited, begin_len_prefix}
use fastproto.Wire.Loop.{read_all, Runs, finished, round, Runs→read_while}
use fastproto.Wire.Varint.{encoding}
use fastproto.Wire.RoundTrip.{
  write_tag-append, write_len_delimited-append, read_len_delimited-write_len_delimited,
}
use fastproto.Wire.Stream.{is_empty_end, is_empty_more}
use fastproto.Wire.LenPrefix.{finish_len_prefix-begin_len_prefix}
use fastproto.Descriptor.Types.{ScalarType}
use fastproto.Python.{Python, Converts}
use fastproto.Encode.Packed.{encode_items, encode_packed}
use fastproto.Decode.RoundTrip.{IsScalar, decode_scalar-encode_scalar}
use fastproto.Decode.Packed.{packed_round, decode_chunk, decode_packed, packed_round-Advances}

module _ (py : Python) (c : Converts py) (s : ScalarType) where
  payload_of : (o : py.Obj) → IsScalar py s o → List ℕ
  payload_of o h = let t = decode_scalar-encode_scalar py c s o h in t.payload

  -- The payloads of the items, one behind the other.
  payloads : (items : List py.Obj) → All (IsScalar py s) items → List ℕ
  payloads [] h = []
  payloads (o ∷ items) (h, hs) = payload_of o h ++ payloads items hs

  encode_items-payloads :
      (buf : List ℕ) (items : List py.Obj) (h : All (IsScalar py s) items)
      → encode_items py buf s items ≡ ok (buf ++ payloads items h)
  unfolding encode_items payloads payload_of
  encode_items-payloads buf [] h = ap ok (sym (append-nil buf))
  encode_items-payloads buf (o ∷ items) (h, hs) =
      let t = decode_scalar-encode_scalar py c s o h in
      rw (t.written buf, ◌>>=◌)
        (encode_items-payloads (buf ++ t.payload) items hs
          ∙ ap ok (append_assoc buf t.payload (payloads items hs)))

  items_run :
      (front : List ℕ) (list items : List py.Obj) (h : All (IsScalar py s) items)
      → length (front ++ payloads items h) < 2 ^ 63
      → Runs (packed_round py s) list (reader_at front (payloads items h)) (list ++ items)
  unfolding payloads payload_of packed_round
  items_run front list [] h room =
      subst (λ (l : List py.Obj). Runs (packed_round py s) list (reader_at front []) l)
        (sym (append-nil list)) (finished (is_empty_end front))
  items_run front list (o ∷ items) (h, hs) room =
      let t = decode_scalar-encode_scalar py c s o h in
      let back = payloads items hs in
      round (is_empty_more front t.payload back t.nonempty)
        (rw (t.read front back room, ◌>>=◌) refl)
        (subst
          (λ (l : List py.Obj).
            Runs (packed_round py s) (list ++ (o ∷ [])) (reader_at (front ++ t.payload) back) l)
          (append_assoc list (o ∷ []) items)
          (items_run (front ++ t.payload) (list ++ (o ∷ [])) items hs (rw append_assoc room)))

  payloads-nonempty :
      (o : py.Obj) (items : List py.Obj) (h : All (IsScalar py s) (o ∷ items))
      → 0 < length (payloads (o ∷ items) h)
  unfolding payloads payload_of
  payloads-nonempty o items (h, hs) =
      let t = decode_scalar-encode_scalar py c s o h in
      omega (arith, t.nonempty, length-append t.payload (payloads items hs))

  chunk-payloads :
      (items : List py.Obj) (h : All (IsScalar py s) items) (chunk : List ℕ)
      → encode_items py [] s items ≡ ok chunk
      → payloads items h ≡ chunk
  chunk-payloads items h chunk e = cc (sym (encode_items-payloads [] items h) ∙ e)

  decode_chunk-payloads :
      (list items : List py.Obj) (h : All (IsScalar py s) items)
      → length (payloads items h) < 2 ^ 63
      → decode_chunk py s list (payloads items h) ≡ ok (list ++ items)
  unfolding decode_chunk read_all
  decode_chunk-payloads list items h room =
      Runs→read_while (packed_round py s) (packed_round-Advances py s) (length (payloads items h))
        (items_run [] list items h room) (omega arith)

  reserved_length :
      (buf bytes : List ℕ)
      → 0 < length bytes
      → (length ((begin_len_prefix buf).0 ++ bytes) == (begin_len_prefix buf).1 + 1) ≡ false
  unfolding begin_len_prefix
  reserved_length buf bytes h = ne→== _ _ (λ e.
      absurd (omega (arith, length-append (buf ++ (0 ∷ [])) bytes, length-append buf (0 ∷ []))))

  encode_packed-chunk :
      (buf : List ℕ) (number : ℕ) (items : List py.Obj) (h : All (IsScalar py s) items)
      → 0 < length (payloads items h)
      → length (payloads items h) < 2 ^ 64
      → encode_packed py buf number s items
        ≡ ok (write_len_delimited (write_tag buf number len) (payloads items h))
  unfolding encode_packed
  encode_packed-chunk buf number items h some_bytes room =
      rw (encode_items-payloads (begin_len_prefix (write_tag buf number len)).0 items h, ◌>>=◌)
        (rw (reserved_length (write_tag buf number len) (payloads items h) some_bytes) (
          ap ok (
            finish_len_prefix-begin_len_prefix (write_tag buf number len) (payloads items h) room)))

-- An empty packed field writes nothing: the tag and the slot for the length are taken back.
pub encode_packed-nil :
    (py : Python) (s : ScalarType) (buf : List ℕ) (number : ℕ)
    → number ≤ max_field_number
    → encode_packed py buf number s [] ≡ ok buf
unfolding encode_packed encode_items begin_len_prefix
encode_packed-nil py s buf number h =
    rw
      (eq→== (length (tagged ++ (0 ∷ []))) (length (tagged ++ (0 ∷ [])) - 1 + 1)
        (omega (arith, length-append tagged (0 ∷ []))))
      (ap ok (rw (write_tag-append buf number len h, append_assoc, take-append) refl))
  where
    tagged : List ℕ
    tagged = write_tag buf number len

chunk_small :
    (chunk front back : List ℕ)
    → length (front ++ (write_len_delimited [] chunk ++ back)) < 2 ^ 63
    → length chunk < 2 ^ 63
chunk_small chunk front back h = omega (
  arith,
  length-append front (write_len_delimited [] chunk ++ back),
  length-append (write_len_delimited [] chunk) back,
  ap length (write_len_delimited-append [] chunk),
  length-append (encoding (length chunk)) chunk,
)

-- A packed field with an item at least is written as its tag and the chunk of the items' payloads
-- behind its length, and the decoder appends the same items to its list and stands behind the
-- chunk: for every scalar type, where the whole buffer is shorter than 2 ^ 63.
pub decode_packed-encode_packed :
    (py : Python)
    → Converts py
    → (s : ScalarType) (buf : List ℕ) (number : ℕ) (o : py.Obj) (items : List py.Obj)
      (chunk : List ℕ)
    → All (IsScalar py s) (o ∷ items)
    → encode_items py [] s (o ∷ items) ≡ ok chunk
    → (list : List py.Obj) (front back : List ℕ)
    → length (front ++ (write_len_delimited [] chunk ++ back)) < 2 ^ 63
    → (encode_packed py buf number s (o ∷ items)
        ≡ ok (write_len_delimited (write_tag buf number len) chunk))
      × (decode_packed py s list (reader_at front (write_len_delimited [] chunk ++ back))
          ≡ ok (list ++ (o ∷ items), reader_at (front ++ write_len_delimited [] chunk) back))
unfolding decode_packed
decode_packed-encode_packed py c s buf number o items chunk h e list front back room =
    let same = chunk-payloads py c s (o ∷ items) h chunk e in
    let small : length chunk < 2 ^ 63 = chunk_small chunk front back room in
    (
      subst
          (λ (l : List ℕ).
            encode_packed py buf number s (o ∷ items)
            ≡ ok (write_len_delimited (write_tag buf number len) l))
          same
          (encode_packed-chunk py c s buf number (o ∷ items) h (payloads-nonempty py c s o items h)
            (rw same (omega arith))),
      rw (read_len_delimited-write_len_delimited chunk front back room, ◌>>=◌)
          (rw
            (subst (λ (l : List ℕ). decode_chunk py s list l ≡ ok (list ++ (o ∷ items))) same
              (decode_chunk-payloads py c s list (o ∷ items) h (rw same small)))
            refl),
    )
