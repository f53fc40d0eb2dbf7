-- ===== src/Decode/Verbatim.antt =====
-- The loop of `decode_message` in src/decode/mod.rs keeps exactly the unknown fields.
use fastproto.Common.{
  Gives, Gives-bind, ℕ, zero, suc, ◌≡◌, refl, sym, ap, subst, ◌∙◌, Bool, Bool-cases, inl, inr, true,
  false, Option, some, List, Result, ok, ◌>>=◌, >>=-eq-ok,
}
use fastproto.Wire.Types.{WireType, wire_eq}
use fastproto.Wire.Reader.{Reader, is_empty}
use fastproto.Wire.Loop.{read_while, read_while_done, read_while_short, read_while_step}
use fastproto.Descriptor.Types.{FieldKind, FieldDescriptor, is_map}
use fastproto.Parse.Fields.{IsRegular}
use fastproto.Message.Link.{LinkedRef, Handle}
use fastproto.Message.Class.{Descriptor, is_repeated}
use fastproto.Python.{Python, Runtime, CodecError}
use fastproto.Decode.Slots.{Collected, take_group}
use fastproto.Decode.Message.{expected, kind_arm, known_field}
use fastproto.Decode.Taken.{accepts}
use fastproto.Decode.Unknown.{
  recognised, Follows, keep_unknown-Follows, take_group-unknown, singular_arm-Follows,
  repeated_field-Follows, map_arm-Follows,
}

-- A loop that another loop follows: its state is a function of the first one's.
module _ {E S T : Type 0} (body : S → Reader → Result E (S × Reader))
    (body' : T → Reader → Result E (T × Reader)) (g : S → T)
    (follows : (s : S) (r : Reader) (p : S × Reader)
      → body s r ≡ ok p
      → body' (g s) r ≡ ok (g p.0, p.1)) where
  pub read_while_follows :
      (fuel : ℕ) (s : S) (r : Reader) (t : S)
      → read_while body fuel s r ≡ ok t
      → read_while body' fuel (g s) r ≡ ok (g t)
  read_while_follows zero s r t e = elim (Bool-cases (is_empty r)) [
    | inl done ↦
        read_while_done body' 0 (g s) r done
        ∙ ap (λ (x : S). ok (g x)) (cc (e, read_while_done body 0 s r done))
    | inr more ↦ cc (e, read_while_short body s r more)
  ]
  read_while_follows (suc fuel) s r t e = elim (Bool-cases (is_empty r)) [
    | inl done ↦
        read_while_done body' (suc fuel) (g s) r done
        ∙ ap (λ (x : S). ok (g x)) (cc (e, read_while_done body (suc fuel) s r done))
    | inr more ↦
        let (p, first, rest) =
          >>=-eq-ok (body s r) (λ p. read_while body fuel p.0 p.1)
            (sym (read_while_step body fuel s r more) ∙ e) in
        read_while_step body' fuel (g s) r more
        ∙ rw (follows s r p first, ◌>>=◌) (read_while_follows fuel p.0 p.1 t rest)
  ]

module _ (py : Python) (rt : Runtime py) (heap : Handle → Descriptor py.Obj)
    (nested : py.Obj → Descriptor py.Obj → List ℕ → ℕ → Result CodecError py.Obj) (depth : ℕ) where
  module _ (f : FieldDescriptor) (idx : ℕ) (l : Option (LinkedRef py.Obj)) (start : ℕ)
      (w : WireType) (s : Collected py.Obj) (r : Reader) where
    plain_kind-Follows :
        (kind : FieldKind)
        → is_repeated f.label ≡ false
        → wire_eq w (expected kind) ≡ true
        → Gives
            (Follows true w r start s.unknown)
            (kind_arm py rt heap nested f idx l depth start w kind s r)
    unfolding kind_arm expected
    plain_kind-Follows (FieldKind.map_of key value) plain e =
        map_arm-Follows py rt heap nested depth f idx l start w s r key value e
    plain_kind-Follows (FieldKind.scalar sc) plain e = rw plain (
        singular_arm-Follows py rt heap nested depth f idx l start w s r (FieldKind.scalar sc) refl
          e)
    plain_kind-Follows FieldKind.enum plain e =
        rw plain
          (singular_arm-Follows py rt heap nested depth f idx l start w s r FieldKind.enum refl e)
    plain_kind-Follows FieldKind.message plain e =
        rw plain (
          singular_arm-Follows py rt heap nested depth f idx l start w s r FieldKind.message refl e)
    plain_kind-Follows FieldKind.timestamp plain e = rw plain (
        singular_arm-Follows py rt heap nested depth f idx l start w s r FieldKind.timestamp refl e)
    plain_kind-Follows FieldKind.duration plain e =
        rw plain (
          singular_arm-Follows py rt heap nested depth f idx l start w s r FieldKind.duration refl
            e)

    list_kind-Follows :
        (kind : FieldKind)
        → is_repeated f.label ≡ true
        → is_map kind ≡ false
        → Gives
            (Follows (accepts kind w) w r start s.unknown)
            (kind_arm py rt heap nested f idx l depth start w kind s r)
    unfolding kind_arm
    list_kind-Follows (FieldKind.map_of key value) list h = cc
    list_kind-Follows (FieldKind.scalar sc) list h =
        rw list (
          repeated_field-Follows py rt heap nested depth f idx l start w s r (FieldKind.scalar sc)
            h)
    list_kind-Follows FieldKind.enum list h =
        rw list
          (repeated_field-Follows py rt heap nested depth f idx l start w s r FieldKind.enum h)
    list_kind-Follows FieldKind.message list h =
        rw list
          (repeated_field-Follows py rt heap nested depth f idx l start w s r FieldKind.message h)
    list_kind-Follows FieldKind.timestamp list h =
        rw list
          (repeated_field-Follows py rt heap nested depth f idx l start w s r FieldKind.timestamp h)
    list_kind-Follows FieldKind.duration list h =
        rw list
          (repeated_field-Follows py rt heap nested depth f idx l start w s r FieldKind.duration h)

  -- A field takes its group over first, which keeps the unknown bytes.
  behind_group :
      (b : Bool) (f : FieldDescriptor) (idx : ℕ) (l : Option (LinkedRef py.Obj)) (start : ℕ)
      (w : WireType) (s : Collected py.Obj) (r : Reader)
      → ((t : Collected py.Obj)
          → Gives
              (Follows b w r start t.unknown)
              (kind_arm py rt heap nested f idx l depth start w f.kind t r))
      → Gives (Follows b w r start s.unknown) (
          take_group f.oneof_index f.label idx s >>= λ t.
          kind_arm py rt heap nested f idx l depth start w f.kind t r)
  behind_group b f idx l start w s r h =
      Gives-bind _ (take_group f.oneof_index f.label idx s) _ λ t e.
        subst
          (λ (u : List ℕ).
            Gives (Follows b w r start u)
              (kind_arm py rt heap nested f idx l depth start w f.kind t r))
          (take_group-unknown f.oneof_index f.label idx s t e) (h t)

  list_not_map :
      (f : FieldDescriptor) → IsRegular f → is_repeated f.label ≡ true → is_map f.kind ≡ false
  list_not_map f reg list = elim (Bool-cases (is_map f.kind)) [
    | inl e ↦ cc (list, ap is_repeated (reg.map_single e).0)
    | inr e ↦ e
  ]

  pub known_field-Follows :
      (f : FieldDescriptor) (idx : ℕ) (l : Option (LinkedRef py.Obj)) (start : ℕ) (w : WireType)
      (s : Collected py.Obj) (r : Reader)
      → IsRegular f
      → Gives
          (Follows (recognised (some f) w) w r start s.unknown)
          (known_field py rt heap nested f idx l depth start w s r)
  unfolding known_field recognised
  known_field-Follows f idx l start w s r reg = elim (Bool-cases (is_repeated f.label)) [
    | inl list ↦ rw list (
        behind_group (accepts f.kind w) f idx l start w s r
          (λ t. list_kind-Follows f idx l start w t r f.kind list (list_not_map f reg list)))
    | inr plain ↦ elim (Bool-cases (wire_eq w (expected f.kind))) [
      | inl same ↦
          rw (plain, same)
            (behind_group true f idx l start w s r
              (λ t. plain_kind-Follows f idx l start w t r f.kind plain same))
      | inr other ↦ rw (plain, other) (keep_unknown-Follows s start w r)
    ]
  ]
