-- ===== src/Decode/Compiled.antt =====
-- The loop of `decode_message` in src/decode/mod.rs on a message that was compiled.
use fastproto.Common.{
  ℕ, zero, suc, ◌+◌, ◌∷◌, ◌&&◌, not, ◌≡◌, refl, sym, ap, ◌∙◌, inl, inr, true, Option, some,
  Option-cases, List, [], get_elem?, All, Result, ◌>>=◌, ok_or,
}
use fastproto.Wire.Types.{WireType, wire_eq}
use fastproto.Wire.Reader.{Reader}
use fastproto.Wire.Progress.{Moved-trans}
use fastproto.Wire.Steps.{read_tag-Steps}
use fastproto.Descriptor.Types.{FieldKind, Label, single, optional, FieldDescriptor, is_map}
use fastproto.Descriptor.Index.{get}
use fastproto.Descriptor.Index.Lookup.{get-build_inside}
use fastproto.Parse.Fields.{IsRegular}
use fastproto.Message.Link.{LinkedRef, Handle}
use fastproto.Message.Class.{Descriptor, is_repeated}
use fastproto.Message.Compiled.{IsCompiled, IsCompiled-IsWellFormed}
use fastproto.Python.{Python, Runtime, CodecError}
use fastproto.Python.Safe.{Safe}
use fastproto.Python.Post.{Post, Post-map, Post-if, Post-bind, Post-Steps, read_all-Post}
use fastproto.Encode.Repeated.{linked_of}
use fastproto.Decode.Slots.{absent, accumulator, owner_of, Collected, accumulators}
use fastproto.Decode.Message.{known_field, field_arm, field_round, collect, expected}
use fastproto.Decode.Calm.{}
use fastproto.Decode.Shapes.{accumulators-FitAll}
use fastproto.Decode.Owners.{IsGood}
use fastproto.Decode.Groups.{take_group-Took}
use fastproto.Decode.Rounds.{All-get, Keeps, keep_unknown-Keeps}
use fastproto.Decode.Fields.{kind_arm-Keeps}

accumulators-get :
    (Obj : Type 0) (fs : List FieldDescriptor) (idx : ℕ) (f : FieldDescriptor)
    → get_elem? fs idx ≡ some f
    → get_elem? (accumulators {Obj = Obj} fs) idx ≡ some (accumulator f.kind f.label)
unfolding accumulators
accumulators-get Obj [] idx f e = cc
accumulators-get Obj (g ∷ fs) zero f e =
    let same : g ≡ f = cc e in ap (λ (x : FieldDescriptor). some (accumulator x.kind x.label)) same
accumulators-get Obj (g ∷ fs) (suc idx) f e = accumulators-get Obj fs idx f e

-- The slot of a field with presence begins empty.
accumulator-optional :
    (Obj : Type 0) (kind : FieldKind) (label : Label)
    → label ≡ optional
    → (is_map kind ≡ true → label ≡ single)
    → accumulator {Obj = Obj} kind label ≡ absent
unfolding accumulator
accumulator-optional Obj (FieldKind.map_of k v) label e h = cc (e, h refl)
accumulator-optional Obj (FieldKind.scalar s) label e h = ap (accumulator (FieldKind.scalar s)) e
accumulator-optional Obj FieldKind.enum label e h = ap (accumulator FieldKind.enum) e
accumulator-optional Obj FieldKind.message label e h = ap (accumulator FieldKind.message) e
accumulator-optional Obj FieldKind.timestamp label e h = ap (accumulator FieldKind.timestamp) e
accumulator-optional Obj FieldKind.duration label e h = ap (accumulator FieldKind.duration) e

module _ (py : Python) (rt : Runtime py) (heap : Handle → Descriptor py.Obj)
    (nested : py.Obj → Descriptor py.Obj → List ℕ → ℕ → Result CodecError py.Obj) (depth : ℕ)
    (safe : (cls : py.Obj) (h : Handle) (bytes : List ℕ)
      → Safe (nested cls (heap h) bytes (depth + 1))) where
  module _ (fs : List FieldDescriptor) (regular : All IsRegular fs) where
    known_field-Keeps :
        (idx : ℕ) (f : FieldDescriptor) (linked : Option (LinkedRef py.Obj)) (start : ℕ)
        (w : WireType) (s : Collected py.Obj) (r : Reader)
        → IsGood fs s.values s.owner
        → get_elem? fs idx ≡ some f
        → Keeps fs r (known_field py rt heap nested f idx linked depth start w s r)
    unfolding known_field
    known_field-Keeps idx f linked start w s r good at_idx =
        let reg = All-get IsRegular fs idx f regular at_idx in
        let t = take_group-Took fs s idx f good at_idx (λ h. (reg.map_single h).0) in
        Post-if (not (is_repeated f.label) && not (wire_eq w (expected f.kind)))
          (keep_unknown-Keeps fs s start w r good)
          (rw (t.takes, ◌>>=◌)
            (kind_arm-Keeps py rt heap nested depth safe fs idx f linked start w t.after t.good
              at_idx t.has r f.kind refl))

  module _ (desc : Descriptor py.Obj) (made : IsCompiled desc) where
    regular : All IsRegular desc.inner.fields
    regular = let formed = IsCompiled-IsWellFormed desc made in formed.regular

    field_arm-Keeps :
        (start number : ℕ) (w : WireType) (s : Collected py.Obj) (r : Reader)
        → IsGood desc.inner.fields s.values s.owner
        → Keeps desc.inner.fields r (
            field_arm py rt heap nested desc depth start number w (get desc.field_index number) s r)
    unfolding field_arm
    field_arm-Keeps start number w s r good = elim (Option-cases (get desc.field_index number)) [
      | inl e ↦ rw (e, field_arm) (keep_unknown-Keeps desc.inner.fields s start w r good)
      | inr (idx, e) ↦
          let (f, at_idx) =
            get-build_inside desc.inner.fields number idx
              (ap (λ x. get x number) (sym made.same_index) ∙ e) in
          rw (e, field_arm)
            (rw (at_idx, ok_or)
              (known_field-Keeps desc.inner.fields regular idx f (linked_of desc.refs number) start
                w s r good at_idx))
    ]

    field_round-Keeps :
        (s : Collected py.Obj) (r : Reader)
        → IsGood desc.inner.fields s.values s.owner
        → Keeps desc.inner.fields r (field_round py rt heap nested desc depth s r)
    unfolding field_round
    field_round-Keeps s r good = Post-bind _ _ (Post-Steps (read_tag-Steps r)) λ p mv.
        Post-map (λ q k. (k.0, Moved-trans mv k.1)) (field_arm-Keeps r.pos p.0.0 p.0.1 s p.1 good)

    IsGood-start : IsGood {Obj = py.Obj} desc.inner.fields (accumulators desc.inner.fields) []
    unfolding owner_of
    IsGood-start = record {
      fits = accumulators-FitAll py.Obj desc.inner.fields;
      owned = λ idx group f v at_idx opt one at_v there.
          let reg = All-get IsRegular desc.inner.fields idx f regular at_idx in
          absurd (
            there (
              cc (
                at_v,
                accumulators-get py.Obj desc.inner.fields idx f at_idx,
                accumulator-optional py.Obj f.kind f.label opt (λ h. (reg.map_single h).0),
              )));
      single_owners = λ group idx e. cc;
    }

    pub collect-IsGood :
        (bytes : List ℕ)
        → Post
            (λ s. IsGood desc.inner.fields s.values s.owner)
            (collect py rt heap nested desc bytes depth)
    unfolding collect
    collect-IsGood bytes =
        read_all-Post (λ s. IsGood desc.inner.fields s.values s.owner) _ field_round-Keeps _ bytes
          IsGood-start
