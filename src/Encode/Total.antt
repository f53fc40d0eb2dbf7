-- ===== src/Encode/Total.antt =====
-- `encode_message` of src/encode/mod.rs on compiled descriptors: its result is always a buffer or an
-- exception.
use fastproto.Common.{
  ℕ, zero, suc, ◌+◌, ◌≤◌, ltb, ltb→le, if◌then◌else◌, ◌≡◌, refl, sym, ap, subst, ◌∙◌, Bool,
  Bool-cases, inl, inr, true, false, Option, none, some, Option-cases, List, [], ◌∷◌, ◌++◌, map,
  All, length, length-set, length-replicate, length-append, get_elem?, get_elem?-append,
  get_elem?-inside, append_move, set, replicate, Result, ok, err, out_of_fuel, ◌>>=◌, ok_or, arith,
}
use fastproto.Common.Utf8.{Text}
use fastproto.Descriptor.Types.{
  FieldKind, Label, FieldDescriptor, single, optional, repeated, max_depth,
}
use fastproto.Parse.Formed.{InGroups}
use fastproto.Message.Link.{Handle}
use fastproto.Message.Class.{Descriptor, name_of}
use fastproto.Message.Compiled.{IsCompiled, IsCompiled-IsWellFormed}
use fastproto.Python.{Python, Runtime, CodecError, raised}
use fastproto.Python.Safe.{IteratorsEnd, Safe, returns, raises, Safe-bind, Safe-if, Safe-ok_or}
use fastproto.Encode.Repeated.{Written}
use fastproto.Encode.Message.{
  unknown_name, saturating_suc, count_member, check_counts, append_unknown, write_unknown, encode,
}
use fastproto.Encode.Writes.{Writes}
use fastproto.Encode.Walk.{encode_message-Writes}
use fastproto.Encode.Reference.{labelled_count, kind_count, fields_bytes, message_bytes}
use fastproto.Encode.Safety.{Safe-store, byte_slice-Safe}
use fastproto.Encode.Calm.{kind_bytes-Safe}

check_counts-Safe : (counts : List ℕ) → Safe (check_counts [] counts)
unfolding check_counts
check_counts-Safe [] = returns
check_counts-Safe (n ∷ counts) = Safe-if (ltb 1 n) (raises refl) (check_counts-Safe counts)

-- Counters that succeed, as many as before.
record Counted (n : ℕ) (m : Result CodecError (List ℕ)) : Type 0 where
  result : List ℕ
  counts : m ≡ ok result
  same_length : length result ≡ n

count_member-in :
    (counts : List ℕ) (o : Option ℕ)
    → InGroups (length counts) o
    → Counted (length counts) (count_member counts o)
unfolding count_member
count_member-in counts none h = record { result = counts; counts = refl; same_length = refl }
count_member-in counts (some group) h =
    let (n, e) = get_elem?-inside counts group h in
    record {
      result = set counts group (saturating_suc n);
      counts = rw (e, ok_or) refl;
      same_length = length-set counts group (saturating_suc n);
    }

Counted-if :
    (b : Bool) (n : ℕ) (x y : Result CodecError (List ℕ))
    → Counted n x
    → Counted n y
    → Counted n (if b then x else y)
Counted-if true n x y hx hy = hx
Counted-if false n x y hx hy = hy

Counted-same : (counts : List ℕ) → Counted (length counts) (ok counts)
Counted-same counts = record { result = counts; counts = refl; same_length = refl }

module _ (py : Python) (rt : Runtime py) where
  labelled_count-in :
      (label : Label) (f : FieldDescriptor) (o : py.Obj) (counts : List ℕ)
      → InGroups (length counts) f.oneof_index
      → Counted (length counts) (labelled_count py rt label f o counts)
  unfolding labelled_count
  labelled_count-in single f o counts h = Counted-same counts
  labelled_count-in repeated f o counts h = Counted-same counts
  labelled_count-in optional f o counts h =
      Counted-if (rt.is_none o) (length counts) _ _ (Counted-same counts)
        (count_member-in counts f.oneof_index h)

  kind_count-in :
      (kind : FieldKind) (f : FieldDescriptor) (o : py.Obj) (counts : List ℕ)
      → InGroups (length counts) f.oneof_index
      → Counted (length counts) (kind_count py rt kind f o counts)
  unfolding kind_count
  kind_count-in (FieldKind.map_of k v) f o counts h = Counted-same counts
  kind_count-in (FieldKind.scalar s) f o counts h = labelled_count-in f.label f o counts h
  kind_count-in FieldKind.enum f o counts h = labelled_count-in f.label f o counts h
  kind_count-in FieldKind.message f o counts h = labelled_count-in f.label f o counts h
  kind_count-in FieldKind.timestamp f o counts h = labelled_count-in f.label f o counts h
  kind_count-in FieldKind.duration f o counts h = labelled_count-in f.label f o counts h

  write_unknown-Safe : (o : py.Obj) → Safe (write_unknown py rt o [])
  unfolding write_unknown append_unknown
  write_unknown-Safe o = elim (Option-cases (rt.getattr o unknown_name)) [
    | inl e ↦ rw (e, append_unknown) returns
    | inr (raw, e) ↦ rw (e, append_unknown) (Safe-store _ _ (byte_slice-Safe py raw))
  ]

  module _ (ends : IteratorsEnd rt) (heap : Handle → Descriptor py.Obj)
      (inner : py.Obj → Descriptor py.Obj → ℕ → Written) (depth : ℕ)
      (safe : (o : py.Obj) (h : Handle) → Safe (inner o (heap h) (depth + 1))) where
    -- The names of the fields that are left stand behind those of the fields that are written.
    fields_bytes-Safe :
        (desc : Descriptor py.Obj) (o : py.Obj) (front : List Text) (fs : List FieldDescriptor)
        (counts : List ℕ)
        → desc.names ≡ front ++ map name_of fs
        → All (λ f. InGroups (length counts) f.oneof_index) fs
        → Safe (fields_bytes py rt heap inner desc o depth (length front) fs counts)
    unfolding fields_bytes
    fields_bytes-Safe desc o front [] counts names groups =
        Safe-bind _ _ (check_counts-Safe counts) (λ a e. Safe-store _ _ (write_unknown-Safe o))
    fields_bytes-Safe desc o front (f ∷ fs) counts names (g, groups) =
        let found : get_elem? desc.names (length front) ≡ some f.name =
          ap (λ (l : List Text). get_elem? l (length front)) names
          ∙ get_elem?-append front f.name (map name_of fs) in
        rw (found, ok_or)
          (Safe-bind _ _ (Safe-ok_or (rt.getattr o f.name) raised refl) λ value e.
            let c = kind_count-in f.kind f value counts g in
            rw (c.counts, ◌>>=◌)
              (Safe-bind _ _
                (kind_bytes-Safe py rt ends heap inner depth safe f.kind f value desc.refs refl)
                λ first e'. Safe-store _ _ (
                  subst (λ n. Safe (fields_bytes py rt heap inner desc o depth n fs c.result))
                    (length-append front (f.name ∷ []) ∙ omega arith)
                    (fields_bytes-Safe desc o (front ++ (f.name ∷ [])) fs c.result
                      (names ∙ sym (append_move front f.name (map name_of fs)))
                      (subst (λ n. All (λ (x : FieldDescriptor). InGroups n x.oneof_index) fs)
                        (sym c.same_length) groups)))))

  module _ (ends : IteratorsEnd rt) (heap : Handle → Descriptor py.Obj)
      (compiled : (h : Handle) → IsCompiled (heap h)) where
    -- Fuel for the levels that are left.
    message_bytes-Safe :
        (fuel : ℕ) (o : py.Obj) (desc : Descriptor py.Obj) (depth : ℕ)
        → IsCompiled desc
        → depth ≤ max_depth + 1
        → max_depth + 2 ≤ fuel + depth
        → Safe (message_bytes py rt heap fuel o desc depth)
    unfolding message_bytes
    message_bytes-Safe zero o desc depth made shallow enough = absurd (omega arith)
    message_bytes-Safe (suc fuel) o desc depth made shallow enough =
        elim (Bool-cases (ltb max_depth depth)) [
          | inl e ↦ rw (e, message_bytes) (raises refl)
          | inr e ↦
              rw (e, message_bytes)
                (fields_bytes-Safe ends heap (message_bytes py rt heap fuel) depth
                  (λ child h.
                    message_bytes-Safe fuel child (heap h) (depth + 1) (compiled h)
                      (omega (arith, ltb→le _ _ e)) (omega arith))
                  desc o [] desc.inner.fields (replicate (length desc.inner.oneofs) 0)
                  made.same_names
                  (subst
                    (λ n. All (λ (x : FieldDescriptor). InGroups n x.oneof_index) desc.inner.fields)
                    (sym (length-replicate (length desc.inner.oneofs) 0))
                    (let formed = IsCompiled-IsWellFormed desc made in formed.in_groups)))
        ]

Writes-Safe :
    (f : List ℕ → Written) (g : Written) → Writes f g → Safe g → (buf : List ℕ) → Safe (f buf)
Writes-Safe f (ok bytes) h s buf = let (out, e) = h.total buf in rw e returns
Writes-Safe f (err e) h s buf = rw (h buf) s
Writes-Safe f out_of_fuel h s buf = rw (h buf) s

-- Encoding ends with the bytes of the message or with an exception, and never panics: for every
-- instance, also one that contains itself, whatever its attributes are, where every iterator that
-- Python gives stops or raises within the calls that there is fuel for, and the descriptors of the
-- process are compiled ones.
pub encode-Safe :
    (py : Python) (rt : Runtime py)
    → IteratorsEnd rt
    → (heap : Handle → Descriptor py.Obj) → ((h : Handle) → IsCompiled (heap h))
    → (desc : Descriptor py.Obj) → IsCompiled desc
    → (obj : py.Obj) → Safe (encode py rt heap desc obj)
unfolding encode
encode-Safe py rt ends heap compiled desc made o =
    Writes-Safe _ _ (encode_message-Writes py rt heap (max_depth + 2) o desc 0)
      (message_bytes-Safe py rt ends heap compiled (max_depth + 2) o desc 0 made (omega arith)
        (omega arith))
      []
