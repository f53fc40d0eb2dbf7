-- ===== src/Encode/Sequence.antt =====
-- A list of packed scalars: `encode_repeated` of src/encode/mod.rs is `encode_packed` on its items.
use fastproto.Common.{
  ℕ, ◌||◌, ◌≡◌, refl, true, false, Option, some, List, [], ◌∷◌, map, ok, err, out_of_fuel, ◌>>=◌,
}
use fastproto.Wire.Types.{len}
use fastproto.Wire.Writer.{write_tag, begin_len_prefix}
use fastproto.Descriptor.Types.{ScalarType, FieldKind, is_packable}
use fastproto.Message.Link.{Refs, Handle}
use fastproto.Message.Class.{Descriptor}
use fastproto.Python.{Python, Runtime}
use fastproto.Encode.Scalars.{encode_scalar}
use fastproto.Encode.Repeated.{
  Written, is_present, drawn, for_each, items_of, for_each_item, repeated_arm, encode_repeated,
}
use fastproto.Encode.Packed.{encode_items, encode_packed}

bind_ext :
    (m : Written) (f g : List ℕ → Written) → ((b : List ℕ) → f b ≡ g b) → (m >>= f) ≡ (m >>= g)
bind_ext (ok b) f g h = h b
bind_ext (err e) f g h = refl
bind_ext out_of_fuel f g h = refl

module _ (py : Python) where
  for_each-encode_items :
      (s : ScalarType) (buf : List ℕ) (items : List py.Obj)
      → for_each (λ b item. encode_scalar py b s item) buf (map drawn items)
        ≡ encode_items py buf s items
  unfolding for_each encode_items
  for_each-encode_items s buf [] = refl
  for_each-encode_items s buf (item ∷ items) =
      bind_ext (encode_scalar py buf s item) _ _ (λ b. for_each-encode_items s b items)

  -- The first arm of `encode_repeated`, on a list.
  pub encode_repeated-list :
      (rt : Runtime py) (heap : Handle → Descriptor py.Obj)
      (nested : py.Obj → Descriptor py.Obj → List ℕ → ℕ → Written) (buf : List ℕ) (number : ℕ)
      (s : ScalarType) (value : py.Obj) (refs : Option (Refs py.Obj)) (depth : ℕ)
      (items : List py.Obj)
      → rt.cast_list value ≡ some items
      → is_packable s ≡ true
      → (py.is_str value || is_present (py.cast_bytes value)) ≡ false
      → encode_repeated py rt heap nested buf number (FieldKind.scalar s) value refs depth
        ≡ encode_packed py buf number s items
  unfolding encode_repeated repeated_arm for_each_item items_of encode_packed
  encode_repeated-list rt heap nested buf number s value refs depth items list packable plain =
      rw
        (
          plain,
          packable,
          list,
          ◌>>=◌,
          for_each-encode_items s (begin_len_prefix (write_tag buf number len)).0 items,
        )
        refl
