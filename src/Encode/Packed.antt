-- ===== src/Encode/Packed.antt =====
-- Packed repeated scalars: the first arm of `encode_repeated` in src/encode/mod.rs. The items of
-- the Python sequence are a list (`for_each_item`).
use fastproto.Common.{ℕ, ◌+◌, ◌==◌, if◌then◌else◌, List, [], ◌∷◌, length, take, Result, ok, ◌>>=◌}
use fastproto.Wire.Types.{len}
use fastproto.Wire.Writer.{write_tag, begin_len_prefix, finish_len_prefix}
use fastproto.Descriptor.Types.{ScalarType}
use fastproto.Python.{Python, CodecError}
use fastproto.Encode.Scalars.{encode_scalar}

module _ (py : Python) where
  -- `for_each_item(value, |item| encode_scalar(buf, *scalar, &item))`
  unfoldable pub encode_items : List ℕ → ScalarType → List py.Obj → Result CodecError (List ℕ)
  encode_items buf s [] = ok buf
  encode_items buf s (item ∷ items) = do
    buf' ← encode_scalar py buf s item
    encode_items buf' s items

  unfoldable pub encode_packed : List ℕ → ℕ → ScalarType → List py.Obj → Result CodecError (List ℕ)
  encode_packed buf number s items = do
    let tag_start = length buf
    let (reserved, len_pos) = begin_len_prefix (write_tag buf number len)
    written ← encode_items reserved s items
    if length written == len_pos + 1
        then ok (take tag_start written)
        else ok (finish_len_prefix written len_pos)
