-- ===== src/Decode/Fields.antt =====
-- The branches of the loop of `decode_message` in src/decode/mod.rs on the kind of a field.
use fastproto.Common.{
  ℕ, ◌+◌, ◌≡◌, refl, sym, ap, subst, ◌∙◌, if◌then◌else◌, Bool-cases, inl, inr, false, Option, none,
  some, List, get_elem?, Result, ok, ◌>>=◌,
}
use fastproto.Wire.Types.{WireType}
use fastproto.Wire.Reader.{Reader}
use fastproto.Descriptor.Types.{FieldKind, FieldDescriptor, is_map}
use fastproto.Message.Link.{LinkedRef, Handle}
use fastproto.Message.Class.{Descriptor, is_repeated}
use fastproto.Python.{Python, Runtime, CodecError, raised}
use fastproto.Python.Safe.{Safe}
use fastproto.Python.Post.{Post-any, Post-bind, Post-ok_or}
use fastproto.Decode.Slots.{list_slot, dict_slot, Collected, put}
use fastproto.Decode.Message.{keep_unknown, singular_arm, repeated_field, kind_arm}
use fastproto.Decode.Safety.{chunk-Reads, decode_scalar-Reads}
use fastproto.Decode.Calm.{
  decode_datetime-Reads, decode_timedelta-Reads, decode_enum-Reads, decode_child-Reads,
  decode_repeated-Handles, TakenFrom,
}
use fastproto.Decode.Entries.{decode_map_entry-Safe}
use fastproto.Decode.Shapes.{
  Shape, dict_shape, list_shape, single_shape, shape_of, Fits, FitAll-get, dict_at-found,
  list_at-found,
}
use fastproto.Decode.Owners.{HasGroup, IsGood}
use fastproto.Decode.Rounds.{
  plain_shape, list_kind_shape, Keeps, keep_unknown-Keeps, put-Post, store-Keeps,
}

module _ (py : Python) (rt : Runtime py) (heap : Handle → Descriptor py.Obj)
    (nested : py.Obj → Descriptor py.Obj → List ℕ → ℕ → Result CodecError py.Obj) (depth : ℕ)
    (safe : (cls : py.Obj) (h : Handle) (bytes : List ℕ)
      → Safe (nested cls (heap h) bytes (depth + 1))) where
  module _ (fs : List FieldDescriptor) (idx : ℕ) (f : FieldDescriptor)
      (linked : Option (LinkedRef py.Obj)) (start : ℕ) (w : WireType) (s : Collected py.Obj)
      (good : IsGood fs s.values s.owner) (at_idx : get_elem? fs idx ≡ some f)
      (has : HasGroup fs s.owner idx f) (r : Reader) where
    singular_arm-Keeps :
        (kind : FieldKind)
        → is_map kind ≡ false
        → shape_of f.kind f.label ≡ single_shape
        → Keeps fs r (singular_arm py rt heap nested kind idx linked depth s r)
    unfolding singular_arm
    singular_arm-Keeps (FieldKind.scalar sc) h shape =
        store-Keeps fs idx f s good at_idx has r _ (decode_scalar-Reads py sc r) shape
    singular_arm-Keeps FieldKind.enum h shape =
        store-Keeps fs idx f s good at_idx has r _ (decode_enum-Reads py rt linked r) shape
    singular_arm-Keeps FieldKind.message h shape =
        store-Keeps fs idx f s good at_idx has r _
          (decode_child-Reads py rt heap nested depth safe linked r) shape
    singular_arm-Keeps FieldKind.timestamp h shape =
        store-Keeps fs idx f s good at_idx has r _ (decode_datetime-Reads py rt r) shape
    singular_arm-Keeps FieldKind.duration h shape =
        store-Keeps fs idx f s good at_idx has r _ (decode_timedelta-Reads py rt r) shape
    singular_arm-Keeps (FieldKind.map_of k v) h shape = cc

    -- What `decode_repeated` took, or left.
    handled-Keeps :
        (o : Option (List py.Obj × Reader))
        → TakenFrom py rt r o
        → shape_of f.kind f.label ≡ list_shape
        → Keeps fs r (elim o [
          | none ↦ keep_unknown s start w r
          | some (list', r') ↦ do
            values' ← put s.values idx (list_slot list')
            ok (record s { values = values' }, r')
        ])
    handled-Keeps none h shape = keep_unknown-Keeps fs s start w r good
    handled-Keeps (some (list', r')) h shape =
        put-Post fs idx f s good at_idx has r r' (list_slot list') h
          (subst (λ (x : Shape). Fits x (list_slot list')) (sym shape) tt)

    repeated_field-Keeps :
        (kind : FieldKind)
        → is_map kind ≡ false
        → shape_of f.kind f.label ≡ list_shape
        → Keeps fs r (repeated_field py rt heap nested kind idx linked depth start w s r)
    unfolding repeated_field
    repeated_field-Keeps kind h shape =
        let (v, at_v, fit) = FitAll-get fs s.values idx f good.fits at_idx in
        let (list, e) =
          list_at-found s.values idx v at_v
            (subst (λ (x : Shape). Fits {Obj = py.Obj} x v) shape fit) in
        rw (e, ◌>>=◌)
          (Post-bind _ _
            (decode_repeated-Handles py rt heap nested depth safe kind linked w r list h)
            (λ o k. handled-Keeps o k shape))

    not_map :
        (kind : FieldKind)
        → is_map kind ≡ false
        → f.kind ≡ kind
        → Keeps fs r (
            if is_repeated f.label
            then repeated_field py rt heap nested kind idx linked depth start w s r
            else singular_arm py rt heap nested kind idx linked depth s r)
    not_map kind h e = elim (Bool-cases (is_repeated f.label)) [
      | inl list ↦ rw list (
          repeated_field-Keeps kind h
            (ap (λ (x : FieldKind). shape_of x f.label) e ∙ list_kind_shape kind f.label h list))
      | inr plain ↦ rw plain (
          singular_arm-Keeps kind h
            (ap (λ (x : FieldKind). shape_of x f.label) e ∙ plain_shape kind f.label h plain))
    ]

    pub kind_arm-Keeps :
        (kind : FieldKind)
        → f.kind ≡ kind
        → Keeps fs r (kind_arm py rt heap nested f idx linked depth start w kind s r)
    unfolding kind_arm
    kind_arm-Keeps (FieldKind.scalar sc) e = not_map (FieldKind.scalar sc) refl e
    kind_arm-Keeps FieldKind.enum e = not_map FieldKind.enum refl e
    kind_arm-Keeps FieldKind.message e = not_map FieldKind.message refl e
    kind_arm-Keeps FieldKind.timestamp e = not_map FieldKind.timestamp refl e
    kind_arm-Keeps FieldKind.duration e = not_map FieldKind.duration refl e
    kind_arm-Keeps (FieldKind.map_of key value) e =
        let shape : shape_of f.kind f.label ≡ dict_shape =
          ap (λ (x : FieldKind). shape_of x f.label) e in
        let (v, at_v, fit) = FitAll-get fs s.values idx f good.fits at_idx in
        let (dict, found) =
          dict_at-found s.values idx v at_v
            (subst (λ (x : Shape). Fits {Obj = py.Obj} x v) shape fit) in
        Post-bind _ _ (chunk-Reads r) λ p mv.
          Post-bind _ _
            (Post-any (decode_map_entry-Safe py rt heap nested depth safe key value linked p.0))
            λ kv t.
              rw (found, ◌>>=◌)
                (Post-bind _ _ (Post-ok_or (rt.set_item dict kv.0 kv.1) raised refl) λ dict' e'.
                  put-Post fs idx f s good at_idx has r p.1 (dict_slot dict') mv
                    (subst (λ (x : Shape). Fits x (dict_slot dict')) (sym shape) tt))
