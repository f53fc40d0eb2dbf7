-- ===== src/Decode/Taken.antt =====
-- What `decode_repeated` of src/decode/mod.rs takes, against `skip`.
use fastproto.Common.{
  Gives, Gives-ok, Gives-bind, ◌||◌, ◌≡◌, refl, ap, subst, ◌∙◌, if◌then◌else◌, Bool, Bool-cases,
  inl, inr, true, false, Option, none, some, List, [], ◌∷◌, ◌++◌, ℕ, Result, ok, ◌>>=◌,
}
use fastproto.Wire.Types.{WireType, varint, i64, i32, len, wire_eq}
use fastproto.Wire.Reader.{Reader, read_len_delimited, skip}
use fastproto.Wire.Loop.{read_all}
use fastproto.Descriptor.Types.{
  ScalarType, double, float, int32, int64, uint32, uint64, sint32, sint64, fixed32, fixed64,
  sfixed32, sfixed64, bool, string, bytes, FieldKind, wire_type, is_packable, is_map,
}
use fastproto.Message.Link.{LinkedRef, Handle}
use fastproto.Message.Class.{Descriptor}
use fastproto.Python.{Python, Runtime, CodecError}
use fastproto.Decode.Scalars.{checked, decode_scalar}
use fastproto.Decode.Values.{enum_round, decode_message_value, decode_child, decode_repeated}
use fastproto.Decode.Skips.{
  Skips, Skips-then, chunk-Skips, decode_scalar-Skips, decode_packed-Skips, decode_datetime-Skips,
  decode_timedelta-Skips, decode_enum-Skips,
}

chunked_type : (s : ScalarType) → is_packable s ≡ false → wire_type s ≡ len
unfolding is_packable wire_type
chunked_type string h = refl
chunked_type bytes h = refl
chunked_type double h = cc
chunked_type float h = cc
chunked_type int32 h = cc
chunked_type int64 h = cc
chunked_type uint32 h = cc
chunked_type uint64 h = cc
chunked_type sint32 h = cc
chunked_type sint64 h = cc
chunked_type fixed32 h = cc
chunked_type fixed64 h = cc
chunked_type sfixed32 h = cc
chunked_type sfixed64 h = cc
chunked_type bool h = cc

-- Whether a repeated field takes a wire type.
abbrev pub accepts : FieldKind → WireType → Bool
accepts (FieldKind.scalar s) w =
    if is_packable s then wire_eq w len || wire_eq w (wire_type s) else wire_eq w len
accepts FieldKind.enum w = wire_eq w len || wire_eq w varint
accepts _ w = wire_eq w len

pub wire_eq→eq : (v w : WireType) → wire_eq v w ≡ true → v ≡ w
wire_eq→eq varint varint h = refl
wire_eq→eq varint i64 h = cc
wire_eq→eq varint len h = cc
wire_eq→eq varint i32 h = cc
wire_eq→eq i64 varint h = cc
wire_eq→eq i64 i64 h = refl
wire_eq→eq i64 len h = cc
wire_eq→eq i64 i32 h = cc
wire_eq→eq len varint h = cc
wire_eq→eq len i64 h = cc
wire_eq→eq len len h = refl
wire_eq→eq len i32 h = cc
wire_eq→eq i32 varint h = cc
wire_eq→eq i32 i64 h = cc
wire_eq→eq i32 len h = cc
wire_eq→eq i32 i32 h = refl

module _ (py : Python) (rt : Runtime py) (heap : Handle → Descriptor py.Obj)
    (nested : py.Obj → Descriptor py.Obj → List ℕ → ℕ → Result CodecError py.Obj) (depth : ℕ) where
  pub decode_child-Skips :
      (l : Option (LinkedRef py.Obj)) (r : Reader)
      → Skips len r (decode_child py rt heap nested l depth r)
  unfolding decode_child
  decode_child-Skips l r =
      Skips-then len r _ (λ sub. decode_message_value py rt heap nested l sub depth) (chunk-Skips r)

  -- What `decode_repeated` takes, and what it leaves.
  abbrev pub Handled : Bool → WireType → Reader → Option (List py.Obj × Reader) → Type 0
  Handled b w r none = b ≡ false
  Handled b w r (some (list, r')) = (b ≡ true) × (skip w r ≡ ok r')

  taken_item :
      (w v : WireType) (r : Reader) (list : List py.Obj) (m : Result CodecError (py.Obj × Reader))
      → wire_eq w v ≡ true
      → Skips v r m
      → Gives (Handled true w r) (m >>= λ p. ok (some (list ++ (p.0 ∷ []), p.1)))
  taken_item w v r list m same h =
      Gives-bind _ m _
        λ p e. Gives-ok _ _ (refl, ap (λ (x : WireType). skip x r) (wire_eq→eq w v same) ∙ h p e)

  taken_list :
      (w v : WireType) (r : Reader) (m : Result CodecError (List py.Obj × Reader))
      → wire_eq w v ≡ true
      → Skips v r m
      → Gives (Handled true w r) (m >>= λ p. ok (some (p.0, p.1)))
  taken_list w v r m same h =
      Gives-bind _ m _
        λ p e. Gives-ok _ _ (refl, ap (λ (x : WireType). skip x r) (wire_eq→eq w v same) ∙ h p e)

  -- One wire type, and two.
  one_way :
      (w v : WireType) (r : Reader) (x : Result CodecError (Option (List py.Obj × Reader)))
      → (wire_eq w v ≡ true → Gives (Handled true w r) x)
      → Gives (Handled (wire_eq w v) w r) (if wire_eq w v then x else ok none)
  one_way w v r x h = elim (Bool-cases (wire_eq w v)) [
    | inl e ↦ rw e (h e)
    | inr e ↦ rw e (Gives-ok _ none refl)
  ]

  two_ways :
      (w v : WireType) (r : Reader) (x y : Result CodecError (Option (List py.Obj × Reader)))
      → (wire_eq w len ≡ true → Gives (Handled true w r) x)
      → (wire_eq w v ≡ true → Gives (Handled true w r) y)
      → Gives
          (Handled (wire_eq w len || wire_eq w v) w r)
          (if wire_eq w len then x else if wire_eq w v then y else ok none)
  two_ways w v r x y h k = elim (Bool-cases (wire_eq w len)) [
    | inl e ↦ rw e (h e)
    | inr e ↦ rw e (one_way w v r y k)
  ]

  pub decode_repeated-Handled :
      (kind : FieldKind) (l : Option (LinkedRef py.Obj)) (w : WireType) (r : Reader)
      (list : List py.Obj)
      → is_map kind ≡ false
      → Gives
          (Handled (accepts kind w) w r)
          (decode_repeated py rt heap nested kind l w r list depth)
  unfolding decode_repeated
  decode_repeated-Handled (FieldKind.scalar s) l w r list h = elim (Bool-cases (is_packable s)) [
    | inl e ↦ rw e (
        two_ways w (wire_type s) r _ _
          (λ same. taken_list w len r _ same (decode_packed-Skips py s list r))
          (λ same. taken_item w (wire_type s) r list _ same (decode_scalar-Skips py s r)))
    | inr e ↦ rw e (
        one_way w len r _ (λ same. taken_item w len r list _ same (
          subst (λ (x : WireType). Skips x r (decode_scalar py s r)) (chunked_type s e)
            (decode_scalar-Skips py s r))))
  ]
  decode_repeated-Handled FieldKind.enum l w r list h =
      two_ways w varint r _ _
        (λ same. Gives-bind _ (checked (read_len_delimited r)) _ λ p e.
          Gives-bind _ (read_all (enum_round py rt l) list p.0) (λ x. ok (some (x, p.1)))
            λ x e'.
              Gives-ok _ _
                (refl, ap (λ (v : WireType). skip v r) (wire_eq→eq w len same) ∙ chunk-Skips r p e))
        (λ same. taken_item w varint r list _ same (decode_enum-Skips py rt l r))
  decode_repeated-Handled FieldKind.message l w r list h =
      one_way w len r _ (λ same. taken_item w len r list _ same (decode_child-Skips l r))
  decode_repeated-Handled FieldKind.timestamp l w r list h =
      one_way w len r _ (λ same. taken_item w len r list _ same (decode_datetime-Skips py rt r))
  decode_repeated-Handled FieldKind.duration l w r list h =
      one_way w len r _ (λ same. taken_item w len r list _ same (decode_timedelta-Skips py rt r))
  decode_repeated-Handled (FieldKind.map_of k v) l w r list h = cc
