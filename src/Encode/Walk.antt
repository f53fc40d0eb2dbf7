-- ===== src/Encode/Walk.antt =====
-- The walk of `encode_message` in src/encode/mod.rs writes the bytes of the reference.
use fastproto.Common.{
  ℕ, zero, suc, refl, ltb, if◌then◌else◌, Bool, true, false, Option, none, some, List, [], ◌∷◌,
  ◌++◌, length, get_elem?, replicate, Result, ok, err, ◌>>=◌, >>=_assoc, ok_or,
}
use fastproto.Descriptor.Types.{
  FieldKind, Label, FieldDescriptor, single, optional, repeated, max_depth,
}
use fastproto.Message.Link.{Refs, Handle}
use fastproto.Message.Class.{Descriptor}
use fastproto.Python.{
  Python, Runtime, CodecError, oneof_conflict, nesting_exceeded, raised, panicked,
}
use fastproto.Encode.Scalars.{byte_slice}
use fastproto.Encode.Repeated.{Written}
use fastproto.Encode.Message.{
  unknown_name, count_member, check_counts, append_unknown, write_unknown, after_fields,
  encode_labelled, encode_kind, encode_field, encode_fields, encode_message,
}
use fastproto.Encode.Writes.{
  Writes, Writes-pure, Writes-eq, Writes-same, Writes-bind, Writes-if, Writes-then,
}
use fastproto.Encode.Reference.{
  labelled_bytes, kind_bytes, labelled_count, kind_count, fields_bytes, message_bytes,
}
use fastproto.Encode.Refines.{
  encode_single-Writes, encode_repeated-Writes, encode_map-Writes, encode_implicit-Writes,
}

check_counts-Writes :
    (counts : List ℕ) → Writes (λ buf. check_counts buf counts) (check_counts [] counts)
unfolding check_counts
check_counts-Writes [] = Writes-same (λ buf. ok buf) (λ buf. refl)
check_counts-Writes (n ∷ counts) =
    Writes-if (ltb 1 n) (λ buf. err oneof_conflict) _ _ _ (λ buf. refl) (check_counts-Writes counts)

abbrev with_counts : List ℕ → List ℕ → Result CodecError (List ℕ × List ℕ)
with_counts counts buf = ok (counts, buf)

-- The check of the depth.
Writes-deep :
    (b : Bool) (f : List ℕ → Written) (g : Written)
    → Writes f g
    → Writes
        (λ buf. elim b [ true ↦ err nesting_exceeded | false ↦ f buf ])
        (elim b [ true ↦ err nesting_exceeded | false ↦ g ])
Writes-deep true f g h = λ buf. refl
Writes-deep false f g h = h

module _ (py : Python) (rt : Runtime py) where
  append_unknown-Writes :
      (o : Option py.Obj) → Writes (λ buf. append_unknown py rt o buf) (append_unknown py rt o [])
  unfolding append_unknown
  append_unknown-Writes none = Writes-same (λ buf. ok buf) (λ buf. refl)
  append_unknown-Writes (some raw) =
      Writes-bind (byte_slice py raw) (λ b buf. ok (buf ++ b)) (λ b. ok ([] ++ b))
        (λ b. Writes-pure (λ buf. ok (buf ++ b)) b (λ buf. refl))

  module _ (heap : Handle → Descriptor py.Obj)
      (nested : py.Obj → Descriptor py.Obj → List ℕ → ℕ → Written)
      (inner : py.Obj → Descriptor py.Obj → ℕ → Written)
      (refines : (o : py.Obj) (d : Descriptor py.Obj) (depth : ℕ)
        → Writes (λ buf. nested o d buf depth) (inner o d depth)) where
    -- What stands behind a field in the walk, on the buffer and without.
    module _ (next : List ℕ → List ℕ → Written) (rest : List ℕ → Written)
        (next-rest : (counts : List ℕ) → Writes (next counts) (rest counts)) where
      -- A field whose counters stay.
      same_counts :
          (f : List ℕ → Written) (g : Written) (counts : List ℕ)
          → Writes f g
          → Writes
              (λ buf. (f buf >>= λ b. with_counts counts b) >>= λ p. next p.0 p.1)
              (g >>= λ first. rest counts >>= λ r. ok (first ++ r))
      same_counts f g counts h =
          Writes-eq (λ buf. f buf >>= next counts) _ _
            (λ buf. >>=_assoc (f buf) (with_counts counts) (λ p. next p.0 p.1))
            (Writes-then f (next counts) g (rest counts) h (next-rest counts))

      new_counts :
          (count : Result CodecError (List ℕ)) (f : List ℕ → Written) (g : Written)
          → Writes f g
          → Writes
              (λ buf. (count >>= λ c. f buf >>= λ b. with_counts c b) >>= λ p. next p.0 p.1)
              (count >>= λ c. g >>= λ first. rest c >>= λ r. ok (first ++ r))
      new_counts count f g h =
          Writes-eq (λ buf. count >>= λ c. (f buf >>= with_counts c) >>= λ p. next p.0 p.1) _ _
            (λ buf. >>=_assoc count (λ c. f buf >>= with_counts c) (λ p. next p.0 p.1))
            (Writes-bind count (λ c buf. (f buf >>= with_counts c) >>= λ p. next p.0 p.1) _
              (λ c. same_counts f g c h))

      unset :
          (b : Bool) (count : Result CodecError (List ℕ)) (f : List ℕ → Written) (g : Written)
          (counts : List ℕ)
          → Writes f g
          → Writes
              (λ buf.
                (if b
                  then with_counts counts buf
                  else (count >>= λ c. f buf >>= λ b. with_counts c b))
                >>= λ p. next p.0 p.1)
              ((if b then ok counts else count) >>= λ c.
                (if b then ok [] else g) >>= λ first. rest c >>= λ r. ok (first ++ r))
      unset true count f g counts h =
          Writes-then (λ buf. ok buf) (next counts) (ok []) (rest counts)
            (Writes-same (λ buf. ok buf) (λ buf. refl)) (next-rest counts)
      unset false count f g counts h = new_counts count f g h

      labelled-Writes :
          (label : Label) (f : FieldDescriptor) (o : py.Obj) (refs : Option (Refs py.Obj))
          (depth : ℕ) (counts : List ℕ)
          → Writes
              (λ buf. encode_labelled py rt heap nested label f o refs depth counts buf >>= λ p.
                next p.0 p.1)
              (do
                counts' ← labelled_count py rt label f o counts
                first ← labelled_bytes py rt heap inner label f o refs depth
                r ← rest counts'
                ok (first ++ r))
      unfolding encode_labelled labelled_count labelled_bytes
      labelled-Writes repeated f o refs depth counts =
          same_counts _ _ counts
            (encode_repeated-Writes py rt heap nested inner refines f.number f.kind o refs depth)
      labelled-Writes optional f o refs depth counts =
          unset (rt.is_none o) (count_member counts f.oneof_index) _ _ counts
            (encode_single-Writes py rt heap nested inner refines f.number f.kind o refs depth)
      labelled-Writes single f o refs depth counts =
          same_counts _ _ counts
            (encode_implicit-Writes py rt heap nested inner refines f.number f.kind o refs depth)

      kind-Writes :
          (kind : FieldKind) (f : FieldDescriptor) (o : py.Obj) (refs : Option (Refs py.Obj))
          (depth : ℕ) (counts : List ℕ)
          → Writes
              (λ buf.
                encode_kind py rt heap nested kind f o refs depth counts buf >>= λ p. next p.0 p.1)
              (do
                counts' ← kind_count py rt kind f o counts
                first ← kind_bytes py rt heap inner kind f o refs depth
                r ← rest counts'
                ok (first ++ r))
      unfolding encode_kind kind_count kind_bytes
      kind-Writes (FieldKind.map_of k v) f o refs depth counts =
          same_counts _ _ counts
            (encode_map-Writes py rt heap nested inner refines f.number k v o refs depth)
      kind-Writes (FieldKind.scalar s) f o refs depth counts =
          labelled-Writes f.label f o refs depth counts
      kind-Writes FieldKind.enum f o refs depth counts =
          labelled-Writes f.label f o refs depth counts
      kind-Writes FieldKind.message f o refs depth counts =
          labelled-Writes f.label f o refs depth counts
      kind-Writes FieldKind.timestamp f o refs depth counts =
          labelled-Writes f.label f o refs depth counts
      kind-Writes FieldKind.duration f o refs depth counts =
          labelled-Writes f.label f o refs depth counts

    encode_fields-Writes :
        (desc : Descriptor py.Obj) (o : py.Obj) (depth idx : ℕ) (fs : List FieldDescriptor)
        (counts : List ℕ)
        → Writes
            (encode_fields py rt heap nested desc o depth idx fs counts)
            (fields_bytes py rt heap inner desc o depth idx fs counts)
    unfolding encode_fields fields_bytes after_fields write_unknown encode_field
    encode_fields-Writes desc o depth idx [] counts =
        Writes-then (λ buf. check_counts buf counts) _ _ _ (check_counts-Writes counts)
          (append_unknown-Writes (rt.getattr o unknown_name))
    encode_fields-Writes desc o depth idx (f ∷ fs) counts =
        Writes-bind (ok_or (get_elem? desc.names idx) panicked) _ _ λ name.
          Writes-bind (ok_or (rt.getattr o name) raised) _ _ λ value.
            kind-Writes (encode_fields py rt heap nested desc o depth (suc idx) fs)
              (fields_bytes py rt heap inner desc o depth (suc idx) fs)
              (encode_fields-Writes desc o depth (suc idx) fs) f.kind f value desc.refs depth counts

  module _ (heap : Handle → Descriptor py.Obj) where
    -- Encoding an instance into a buffer appends the bytes of the reference, which has no buffer,
    -- behind what the buffer holds, where they are shorter than 2 ^ 64, and gives the same error
    -- where the reference gives one: for every instance, descriptor, depth and fuel.
    pub encode_message-Writes :
        (fuel : ℕ) (o : py.Obj) (desc : Descriptor py.Obj) (depth : ℕ)
        → Writes
            (λ buf. encode_message py rt heap fuel o desc buf depth)
            (message_bytes py rt heap fuel o desc depth)
    unfolding encode_message message_bytes
    encode_message-Writes zero o desc depth = λ buf. refl
    encode_message-Writes (suc fuel) o desc depth = Writes-deep (ltb max_depth depth) _ _ (
        encode_fields-Writes heap (encode_message py rt heap fuel) (message_bytes py rt heap fuel)
          (encode_message-Writes fuel) desc o depth 0 desc.inner.fields
          (replicate (length desc.inner.oneofs) 0))
