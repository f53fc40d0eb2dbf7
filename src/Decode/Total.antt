-- ===== src/Decode/Total.antt =====
-- `decode_message` of src/decode/mod.rs on descriptors that were compiled and perhaps linked: its result
-- is always an instance or an exception, and no oneof has two members set.
use fastproto.Common.{
  ℕ, zero, suc, ◌+◌, ◌<◌, ◌≤◌, ltb, ltb→le, ◌≡◌, ◌≢◌, refl, sym, ap, subst, Bool-cases, inl, inr,
  Option, none, some, Option-cases, List, [], ◌∷◌, length, get_elem?, get_elem?-inside, ok, ok_or,
  arith,
}
use fastproto.Common.Utf8.{Text}
use fastproto.Descriptor.Types.{FieldDescriptor, optional, max_depth}
use fastproto.Message.Link.{Handle, FastInit}
use fastproto.Message.Class.{Descriptor}
use fastproto.Message.Compiled.{length-names}
use fastproto.Message.Ready.{IsReady, HasDefaults}
use fastproto.Python.{Python, Runtime, raised}
use fastproto.Python.Safe.{Safe, returns, raises, Safe-bind, Safe-if, Safe-ok_or}
use fastproto.Python.Post.{Post-Safe, Post-bind, Post-any, Post-eq}
use fastproto.Encode.Scalars.{is_nil}
use fastproto.Encode.Message.{unknown_name}
use fastproto.Decode.Slots.{Slot, absent, Collected, set_kwarg, taken}
use fastproto.Decode.Message.{
  set_unknown, or_default, fill_instance, construct_fast, keywords, construct, build_instance,
  collect, decode_message, decode,
}
use fastproto.Decode.Shapes.{FitAll-length}
use fastproto.Decode.Owners.{IsGood}
use fastproto.Decode.Compiled.{collect-IsGood}

module _ (py : Python) (rt : Runtime py) where
  set_unknown-Safe : (o : py.Obj) (unknown : List ℕ) → Safe (set_unknown py rt o unknown)
  unfolding set_unknown
  set_unknown-Safe o unknown =
      elim (Option-cases (rt.setattr o unknown_name (py.from_bytes unknown))) [
        | inr (o', e) ↦ rw (e, set_unknown) returns
        | inl e ↦ rw (e, set_unknown) (Safe-ok_or _ raised refl)
      ]

  or_default-Safe :
      (o : Option py.Obj) (defaults : List py.Obj) (idx : ℕ)
      → idx < length defaults
      → Safe (or_default py rt o defaults idx)
  or_default-Safe (some o) defaults idx h = returns
  or_default-Safe none defaults idx h =
      let (o, e) = get_elem?-inside defaults idx h in rw (e, ok_or) returns

  -- The values that are left are within the names, and within the defaults.
  fill_instance-Safe :
      (desc : Descriptor py.Obj) (defaults : List py.Obj) (idx : ℕ) (values : List (Slot py.Obj))
      (o : py.Obj)
      → idx + length values ≤ length desc.names
      → idx + length values ≤ length defaults
      → Safe (fill_instance py rt desc defaults idx values o)
  unfolding fill_instance
  fill_instance-Safe desc defaults idx [] o h k = returns
  fill_instance-Safe desc defaults idx (v ∷ values) o h k =
      let (name, e) = get_elem?-inside desc.names idx (omega arith) in
      rw (e, ok_or)
        (Safe-bind _ _ (or_default-Safe (taken py rt v) defaults idx (omega arith)) λ x e'.
          Safe-bind _ _ (Safe-ok_or (rt.setattr o name x) raised refl) λ o' e''.
            fill_instance-Safe desc defaults (suc idx) values o' (omega arith) (omega arith))

  keywords-Safe :
      (desc : Descriptor py.Obj) (idx : ℕ) (values : List (Slot py.Obj))
      (kwargs : List (Text × py.Obj))
      → idx + length values ≤ length desc.names
      → Safe (keywords py rt desc idx values kwargs)
  unfolding keywords
  keywords-Safe desc idx [] kwargs h = returns
  keywords-Safe desc idx (v ∷ values) kwargs h = elim (Option-cases (taken py rt v)) [
    | inl e ↦ rw (e, keywords) (keywords-Safe desc (suc idx) values kwargs (omega arith))
    | inr (o, e) ↦
        let (name, e') = get_elem?-inside desc.names idx (omega arith) in
        rw (e, keywords)
          (rw (e', ok_or)
            (keywords-Safe desc (suc idx) values (set_kwarg kwargs name o) (omega arith)))
  ]

  construct-Safe :
      (cls : py.Obj) (desc : Descriptor py.Obj) (s : Collected py.Obj)
      → length s.values ≤ length desc.names
      → Safe (construct py rt cls desc s)
  unfolding construct
  construct-Safe cls desc s h =
      Safe-bind _ _ (keywords-Safe desc 0 s.values [] (omega arith)) λ kwargs e.
        Safe-bind _ _ (Safe-ok_or (rt.call_class cls kwargs) raised refl)
          λ o e'. Safe-if (is_nil s.unknown) returns (set_unknown-Safe o s.unknown)

  build_instance-Safe :
      (cls : py.Obj) (desc : Descriptor py.Obj) (fast : Option (FastInit py.Obj))
      (s : Collected py.Obj)
      → length s.values ≤ length desc.names
      → HasDefaults (length s.values) fast
      → Safe (build_instance py rt cls desc fast s)
  unfolding build_instance construct_fast
  build_instance-Safe cls desc none s h k = construct-Safe cls desc s h
  build_instance-Safe cls desc (some fast) s h k =
      Safe-if (rt.same cls fast.cls)
        (Safe-bind _ _ (Safe-ok_or (rt.object_new fast.cls) raised refl) λ o e.
          Safe-bind _ _
            (fill_instance-Safe desc fast.defaults 0 s.values o (omega arith) (omega (arith, k)))
            λ o' e'. set_unknown-Safe o' s.unknown)
        (construct-Safe cls desc s h)

  module _ (heap : Handle → Descriptor py.Obj) (ready : (h : Handle) → IsReady (heap h)) where
    -- Fuel for the levels that are left.
    decode_message-Safe :
        (fuel : ℕ) (cls : py.Obj) (desc : Descriptor py.Obj) (bytes : List ℕ) (depth : ℕ)
        → IsReady desc
        → depth ≤ max_depth + 1
        → max_depth + 2 ≤ fuel + depth
        → Safe (decode_message py rt heap fuel cls desc bytes depth)
    unfolding decode_message
    decode_message-Safe zero cls desc bytes depth made shallow enough = absurd (omega arith)
    decode_message-Safe (suc fuel) cls desc bytes depth made shallow enough =
        elim (Bool-cases (ltb max_depth depth)) [
          | inl e ↦ rw (e, decode_message) (raises refl)
          | inr e ↦
              rw (e, decode_message)
                (Post-Safe (
                  Post-bind _ _
                    (collect-IsGood py rt heap (decode_message py rt heap fuel) depth
                      (λ child h b.
                        decode_message-Safe fuel child (heap h) b (depth + 1) (ready h)
                          (omega (arith, ltb→le _ _ e)) (omega arith))
                      desc made.compiled bytes)
                    λ s good.
                      let size = FitAll-length desc.inner.fields s.values good.fits in
                      Post-any (
                        build_instance-Safe cls desc desc.fast_init s
                          (omega (
                            arith,
                            size,
                            ap length made.compiled.same_names,
                            length-names desc.inner.fields,
                          ))
                          (subst (λ n. HasDefaults n desc.fast_init) (sym size) made.defaults))))
        ]

-- Decoding ends with an instance or with an exception, and never panics: for every class and all
-- bytes, where the descriptors of the process are compiled and perhaps linked.
pub decode-Safe :
    (py : Python) (rt : Runtime py) (heap : Handle → Descriptor py.Obj)
    → ((h : Handle) → IsReady (heap h))
    → (desc : Descriptor py.Obj) → IsReady desc
    → (cls : py.Obj) (bytes : List ℕ) → Safe (decode py rt heap desc cls bytes)
unfolding decode
decode-Safe py rt heap ready desc made cls bytes =
    decode_message-Safe py rt heap ready (max_depth + 2) cls desc bytes 0 made (omega arith)
      (omega arith)

-- Of the fields of a oneof that have presence, and are no lists, at most one has a value when the
-- bytes of a message are read, whichever of them the bytes set and however often: for the message
-- itself and those nested in it, at every depth that the limit allows, where the descriptors of the
-- process are compiled and perhaps linked and the fuel is as much as `decode` gives to that depth.
pub collect-one_member :
    (py : Python) (rt : Runtime py) (heap : Handle → Descriptor py.Obj)
    → ((h : Handle) → IsReady (heap h))
    → (desc : Descriptor py.Obj) → IsReady desc
    → (fuel depth : ℕ) → depth ≤ max_depth
    → max_depth + 1 ≤ fuel + depth
    → (bytes : List ℕ) (s : Collected py.Obj)
    → collect py rt heap (decode_message py rt heap fuel) desc bytes depth ≡ ok s
    → (i j group : ℕ) (f g : FieldDescriptor) (v w : Slot py.Obj)
    → get_elem? desc.inner.fields i ≡ some f
    → get_elem? desc.inner.fields j ≡ some g
    → (f.label ≡ optional) × (f.oneof_index ≡ some group)
    → (g.label ≡ optional) × (g.oneof_index ≡ some group)
    → (get_elem? s.values i ≡ some v) × (v ≢ absent)
    → (get_elem? s.values j ≡ some w) × (w ≢ absent)
    → i ≡ j
collect-one_member py rt heap ready desc made fuel depth shallow enough bytes s e i j group f g v w
      at_i at_j (f_opt, f_in) (g_opt, g_in) (v_at, v_set) (w_at, w_set) =
    let good =
      Post-eq (λ (x : Collected py.Obj). IsGood desc.inner.fields x.values x.owner) _
        (collect-IsGood py rt heap (decode_message py rt heap fuel) depth
          (λ child h b.
            decode_message-Safe py rt heap ready fuel child (heap h) b (depth + 1) (ready h)
              (omega arith) (omega arith))
          desc made.compiled bytes)
        s e in
    cc (
      good.owned i group f v at_i f_opt f_in v_at v_set,
      good.owned j group g w at_j g_opt g_in w_at w_set,
    )
