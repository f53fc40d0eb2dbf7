-- ===== src/Decode/Examples.antt =====
-- The theorems on the scalars of src/encode/mod.rs and src/decode/mod.rs, with a concrete model
-- of Python's objects.
use fastproto.Common.{
  inl, ℕ, ◌≡◌, ◌≢◌, refl, true, false, none, some, List, [], ◌∷◌, ◌++◌, ok, out_of_fuel, arith, ◌⊎◌,
}
use fastproto.Common.Int.{ℤ, pos, negsuc}
use fastproto.Wire.Types.{len}
use fastproto.Wire.Reader.{reader_at}
use fastproto.Wire.Writer.{write_tag, write_groups, write_varint, write_len_delimited}
use fastproto.Descriptor.Types.{int32, sint32, string, wire_type}
use fastproto.Encode.Parts.{write_parts_field-eq-chunk}
use fastproto.WellKnown.Codec.{encode_parts}
use fastproto.Message.Link.{Members, CallError, value_error, build_linked_ref, get_item}
use fastproto.Decode.Enum.{coerce_enum}
use fastproto.Decode.EnumTable.{Distinct, from_dict, coerce_enum-from_dict}
use fastproto.Python.Values.{Value, int_object, str_object, values, values_Converts}
use fastproto.Encode.Scalars.{write_parts_field, encode_scalar, encode_scalar_field, varint_arm}
use fastproto.Encode.Presence.{
  encode_scalar_field-eq-encode_scalar, encode_scalar_field-scalar_default,
}
use fastproto.Encode.Packed.{encode_items, encode_packed}
use fastproto.Decode.Scalars.{scalar_default}
use fastproto.Decode.RoundTrip.{int32_value, Survives, decode_scalar-encode_scalar}
use fastproto.Decode.Packed.{decode_chunk, decode_packed, decode_chunk_ends}
use fastproto.Decode.Lists.{encode_packed-nil, decode_packed-encode_packed}

decode_scalar-encode_scalar_example : Survives values int32 (int_object (negsuc 0))
decode_scalar-encode_scalar_example =
    decode_scalar-encode_scalar values values_Converts int32 (int_object (negsuc 0))
      (int32_value (negsuc 0) (omega arith))

encode_scalar_field-eq-encode_scalar_example :
    encode_scalar_field values (1 ∷ []) 3 sint32 (int_object (negsuc 4)) false
    ≡ encode_scalar values (write_tag (1 ∷ []) 3 (wire_type sint32)) sint32 (int_object (negsuc 4))
encode_scalar_field-eq-encode_scalar_example =
    encode_scalar_field-eq-encode_scalar values (1 ∷ []) 3 sint32 (int_object (negsuc 4))

skipped : encode_scalar_field values (1 ∷ []) 3 int32 (int_object (pos 0)) true ≡ ok (1 ∷ [])
unfolding encode_scalar_field varint_arm
skipped = refl

encode_scalar_field-scalar_default_example :
    ((◌≡◌ {A = List ℕ} (1 ∷ []) (1 ∷ []))
      × (encode_scalar values [] int32 (int_object (pos 0))
          ≡ encode_scalar values [] int32 (scalar_default values int32)))
    ⊎ (encode_scalar_field values (1 ∷ []) 3 int32 (int_object (pos 0)) false ≡ ok (1 ∷ []))
encode_scalar_field-scalar_default_example =
    encode_scalar_field-scalar_default values values_Converts (1 ∷ []) (1 ∷ []) 3 int32
      (int_object (pos 0)) skipped

abbrev two_items : List Value
two_items = int_object (pos 3) ∷ int_object (pos 300) ∷ []

two_payloads : encode_items values [] int32 two_items ≡ ok (3 ∷ 172 ∷ 2 ∷ [])
unfolding encode_items encode_scalar write_varint write_groups
two_payloads = refl

decode_packed-encode_packed_example :
    (encode_packed values [] 4 int32 two_items
      ≡ ok (write_len_delimited (write_tag [] 4 len) (3 ∷ 172 ∷ 2 ∷ [])))
    × (decode_packed values int32 []
          (reader_at [] (write_len_delimited [] (3 ∷ 172 ∷ 2 ∷ []) ++ []))
        ≡ ok ([] ++ two_items, reader_at ([] ++ write_len_delimited [] (3 ∷ 172 ∷ 2 ∷ [])) []))
unfolding write_len_delimited write_varint
decode_packed-encode_packed_example =
    decode_packed-encode_packed values values_Converts int32 [] 4 (int_object (pos 3))
      (int_object (pos 300) ∷ []) (3 ∷ 172 ∷ 2 ∷ [])
      (int32_value (pos 3) (omega arith), (int32_value (pos 300) (omega arith), tt)) two_payloads []
      [] [] (omega arith)

encode_packed-nil_example : encode_packed values (1 ∷ []) 4 int32 [] ≡ ok (1 ∷ [])
encode_packed-nil_example = encode_packed-nil values int32 (1 ∷ []) 4 (omega arith)

decode_chunk_ends_example : decode_chunk values string [] (5 ∷ 1 ∷ []) ≢ out_of_fuel
decode_chunk_ends_example = decode_chunk_ends values string [] (5 ∷ 1 ∷ [])

write_parts_field-eq-chunk_example :
    write_parts_field (1 ∷ []) 5 (negsuc 0) (pos 500)
    ≡ write_len_delimited (write_tag (1 ∷ []) 5 len) (encode_parts [] (negsuc 0) (pos 500))
write_parts_field-eq-chunk_example = write_parts_field-eq-chunk (1 ∷ []) 5 (negsuc 0) (pos 500)

abbrev colours : Members Value
colours =
    (pos 0, str_object (114 ∷ []))
    ∷ (pos 70, str_object (103 ∷ []))
    ∷ (negsuc 0, str_object (98 ∷ []))
    ∷ []

abbrev never : ℤ → CallError ⊎ Value
never value = inl value_error

colours-Distinct : Distinct colours
unfolding get_item
colours-Distinct = (refl, (refl, (refl, tt)))

coerce_enum-from_dict_example :
    coerce_enum int_object
      (some (build_linked_ref (str_object []) never none (some colours)))
      (pos 70)
    ≡ ok (from_dict int_object colours (pos 70))
coerce_enum-from_dict_example =
    coerce_enum-from_dict int_object (str_object []) never colours (pos 70) colours-Distinct
      (omega arith)
