-- ===== src/Wire/Writer.antt =====
-- The functions of src/wire/mod.rs that append to the output buffer. A function that takes
-- `&mut Vec<u8>` returns the buffer after the call.
use fastproto.Common.{
  ℕ, zero, suc, ◌+◌, ◌-◌, ◌*◌, ◌/◌, ◌%◌, ◌^◌, bit_and, bit_or, ltb, leb, ◌==◌, if◌then◌else◌, List,
  [], ◌∷◌, ◌++◌, length, set, take, drop, replicate,
}
use fastproto.Wire.Types.{WireType, wire_value}

-- The loop of `write_varint`; the first argument is the number of free slots of `tmp`. A `u64`
-- takes at most ten rounds, so the array is never full when the loop goes on.
unfoldable pub write_groups : ℕ → ℕ → List ℕ
write_groups zero value = []
write_groups (suc slots) value =
    let byte = bit_and value 0x7f in
    let value' = value / 2 ^ 7 in
    let rest = write_groups slots value' in
    if value' == 0 then byte ∷ [] else bit_or byte 0x80 ∷ rest

unfoldable pub write_varint : List ℕ → ℕ → List ℕ
write_varint buf value =
    if ltb value 0x80 then buf ++ (value % 256 ∷ []) else buf ++ write_groups 10 value

-- `leading_zeros` of a word of `width` bits.
unfoldable pub leading_zeros : ℕ → ℕ → ℕ
leading_zeros zero x = 0
leading_zeros (suc width) x =
    let rest = leading_zeros width x in if leb (2 ^ width) x then 0 else suc rest

-- `(64 - (value | 1).leading_zeros()).div_ceil(7)`
unfoldable pub varint_len : ℕ → ℕ
varint_len value = (64 - leading_zeros 64 (bit_or value 1) + 6) / 7

-- `((field as u64) << 3) | (wire as u64)`
unfoldable pub write_tag : List ℕ → ℕ → WireType → List ℕ
write_tag buf field wire = write_varint buf (bit_or (field * 2 ^ 3 % 2 ^ 64) (wire_value wire))

-- `to_le_bytes` of a word of so many bytes.
abbrev pub to_le_bytes : ℕ → ℕ → List ℕ
to_le_bytes zero value = []
to_le_bytes (suc n) value = value % 256 ∷ to_le_bytes n (value / 256)

unfoldable pub write_fixed32 : List ℕ → ℕ → List ℕ
write_fixed32 buf value = buf ++ to_le_bytes 4 value

unfoldable pub write_fixed64 : List ℕ → ℕ → List ℕ
write_fixed64 buf value = buf ++ to_le_bytes 8 value

unfoldable pub write_len_delimited : List ℕ → List ℕ → List ℕ
write_len_delimited buf chunk = write_varint buf (length chunk) ++ chunk

-- The buffer with the reserved slot, and the slot's position.
unfoldable pub begin_len_prefix : List ℕ → List ℕ × ℕ
begin_len_prefix buf = let buf' = buf ++ (0 ∷ []) in (buf', length buf' - 1)

-- `buf.copy_within(from..to, dest)`: the bytes are read before any is written.
abbrev pub write_at : List ℕ → ℕ → List ℕ → List ℕ
write_at buf dest [] = buf
write_at buf dest (b ∷ bs) = write_at (set buf dest b) (suc dest) bs

unfoldable pub copy_within : List ℕ → ℕ → ℕ → ℕ → List ℕ
copy_within buf from to dest = write_at buf dest (take (to - from) (drop from buf))

-- The `while v >= 0x80` loop of `finish_len_prefix` and the store behind it. The fuel counts the
-- groups of seven bits; a `u64` has at most ten.
unfoldable pub store_len : ℕ → List ℕ → ℕ → ℕ → List ℕ
store_len zero buf pos v = set buf pos (v % 256)
store_len (suc fuel) buf pos v =
    let buf' = set buf pos (bit_or (bit_and (v % 256) 0x7f) 0x80) in
    let more = store_len fuel buf' (pos + 1) (v / 2 ^ 7) in
    if leb 0x80 v then more else set buf pos (v % 256)

unfoldable pub finish_len_prefix : List ℕ → ℕ → List ℕ
finish_len_prefix buf len_pos =
    let payload_len = length buf - len_pos - 1 in
    if ltb payload_len 0x80
    then set buf len_pos (payload_len % 256)
    else (let extra = varint_len payload_len - 1 in
        let grown = buf ++ replicate extra 0 in
        let moved =
          copy_within grown (len_pos + 1) (len_pos + 1 + payload_len) (len_pos + 1 + extra) in
        store_len 9 moved len_pos payload_len)
