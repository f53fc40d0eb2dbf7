-- ===== src/Wire/Examples.antt =====
-- The theorems on src/wire/mod.rs at concrete inputs.
use fastproto.Common.{ℕ, ◌+◌, ◌≡◌, refl, List, [], ◌∷◌, ◌++◌, length, replicate, ok, err, arith}
use fastproto.Common.Int.{negsuc}
use fastproto.Wire.Types.{from_u64, varint_overflow, unexpected_eof, varint, len}
use fastproto.Wire.Reader.{
  reader_at, read_varint, read_tag, read_fixed32, read_fixed64, read_len_delimited, new,
}
use fastproto.Wire.Writer.{
  write_varint, write_tag, write_fixed32, write_fixed64, write_len_delimited, begin_len_prefix,
  finish_len_prefix, varint_len,
}
use fastproto.Wire.ZigZag.{
  zigzag_encode32, zigzag_decode32, zigzag_encode64, zigzag_decode64, zigzag, zigzag32_roundtrip,
  zigzag64_roundtrip, zigzag_encode32-zigzag_decode32,
}
use fastproto.Wire.LenPrefix.{finish_len_prefix-begin_len_prefix}
use fastproto.Wire.RoundTrip.{
  read_varint-write_varint, read_tag-write_tag, read_fixed32-write_fixed32,
  read_fixed64-write_fixed64, read_len_delimited-write_len_delimited,
}
use fastproto.Wire.VarintLen.{length-write_varint}
use fastproto.Wire.Errors.{read_varint_overflow, read_varint_eof}
use fastproto.Wire.Progress.{IsTagOf, read_tag-IsTagOf}

abbrev payload : List ℕ
payload = replicate 200 9

finish_len_prefix-begin_len_prefix_example :
    finish_len_prefix ((begin_len_prefix (10 ∷ [])).0 ++ payload) (begin_len_prefix (10 ∷ [])).1
    ≡ write_len_delimited (10 ∷ []) payload
finish_len_prefix-begin_len_prefix_example =
    finish_len_prefix-begin_len_prefix (10 ∷ []) payload (omega arith)

read_varint-write_varint_example :
    read_varint (reader_at (7 ∷ []) (write_varint [] 300 ++ (1 ∷ [])))
    ≡ ok (300, reader_at ((7 ∷ []) ++ write_varint [] 300) (1 ∷ []))
read_varint-write_varint_example = read_varint-write_varint 300 (7 ∷ []) (1 ∷ []) (omega arith)

read_tag-write_tag_example :
    read_tag (reader_at [] (write_tag [] 19 len ++ (1 ∷ [])))
    ≡ ok ((19, len), reader_at ([] ++ write_tag [] 19 len) (1 ∷ []))
read_tag-write_tag_example = read_tag-write_tag 19 len [] (1 ∷ []) (omega arith) (omega arith)

read_fixed32-write_fixed32_example :
    read_fixed32 (reader_at [] (write_fixed32 [] 305419896 ++ []))
    ≡ ok (305419896, reader_at ([] ++ write_fixed32 [] 305419896) [])
read_fixed32-write_fixed32_example = read_fixed32-write_fixed32 305419896 [] [] (omega arith)

read_fixed64-write_fixed64_example :
    read_fixed64 (reader_at [] (write_fixed64 [] 305419896 ++ []))
    ≡ ok (305419896, reader_at ([] ++ write_fixed64 [] 305419896) [])
read_fixed64-write_fixed64_example = read_fixed64-write_fixed64 305419896 [] [] (omega arith)

read_len_delimited-write_len_delimited_example :
    read_len_delimited (reader_at (1 ∷ []) (write_len_delimited [] (5 ∷ 6 ∷ []) ++ (2 ∷ [])))
    ≡ ok (5 ∷ 6 ∷ [], reader_at ((1 ∷ []) ++ write_len_delimited [] (5 ∷ 6 ∷ [])) (2 ∷ []))
unfolding write_len_delimited write_varint
read_len_delimited-write_len_delimited_example =
    read_len_delimited-write_len_delimited (5 ∷ 6 ∷ []) (1 ∷ []) (2 ∷ []) (omega arith)

zigzag32_roundtrip_example :
    (zigzag_decode32 (zigzag_encode32 (negsuc 2147483647)) ≡ negsuc 2147483647)
    × (zigzag_encode32 (negsuc 2147483647) ≡ zigzag (negsuc 2147483647))
zigzag32_roundtrip_example = zigzag32_roundtrip (negsuc 2147483647) (omega arith)

zigzag64_roundtrip_example :
    (zigzag_decode64 (zigzag_encode64 (negsuc 76)) ≡ negsuc 76)
    × (zigzag_encode64 (negsuc 76) ≡ zigzag (negsuc 76))
zigzag64_roundtrip_example = zigzag64_roundtrip (negsuc 76) (omega arith)

zigzag_encode32-zigzag_decode32_example : zigzag_encode32 (zigzag_decode32 4294967295) ≡ 4294967295
zigzag_encode32-zigzag_decode32_example = zigzag_encode32-zigzag_decode32 4294967295 (omega arith)

read_tag-IsTagOf_example : IsTagOf (new (8 ∷ 1 ∷ [])) 1 varint (reader_at (8 ∷ []) (1 ∷ []))
unfolding read_tag read_varint from_u64
read_tag-IsTagOf_example =
    read_tag-IsTagOf (new (8 ∷ 1 ∷ [])) 1 varint (reader_at (8 ∷ []) (1 ∷ [])) refl

length-write_varint_example :
    length (write_varint (1 ∷ []) 16384) ≡ length {A = ℕ} (1 ∷ []) + varint_len 16384
length-write_varint_example = length-write_varint (1 ∷ []) 16384 (omega arith)

read_varint_overflow_example :
    read_varint (reader_at [] (replicate 10 255 ++ (1 ∷ []))) ≡ err varint_overflow
read_varint_overflow_example =
    read_varint_overflow (replicate 10 255) [] (1 ∷ []) refl (ground arith)

read_varint_eof_example : read_varint (reader_at (8 ∷ []) (128 ∷ 129 ∷ [])) ≡ err unexpected_eof
read_varint_eof_example = read_varint_eof (128 ∷ 129 ∷ []) (8 ∷ []) (omega arith) (ground arith)
