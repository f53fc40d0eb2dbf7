-- ===== src/Encode/Members.antt =====
-- The oneof counters of `encode_message` in src/encode/mod.rs.
use fastproto.Common.{
  Gives, Gives-ok, Gives-err, Gives-if, Gives-bind, ℕ, zero, suc, ◌+◌, ◌≤◌, ltb, ltb→le, ==→eq,
  ==→ne, ◌==◌, arith, ◌≡◌, subst, if◌then◌else◌, Bool-cases, inl, inr, Option, none, some, List, [],
  ◌∷◌, get_elem?, get_elem?-set, get_elem?-set_other, set, replicate, length, ok, ◌>>=◌, ok_or,
  ok_or-eq-ok,
}
use fastproto.Common.Utf8.{Text}
use fastproto.Descriptor.Types.{
  FieldKind, Label, FieldDescriptor, single, optional, repeated, max_depth,
}
use fastproto.Message.Link.{Refs, Handle}
use fastproto.Message.Class.{Descriptor}
use fastproto.Python.{Python, Runtime, nesting_exceeded, oneof_conflict, raised, panicked}
use fastproto.Encode.Repeated.{Written, encode_single}
use fastproto.Encode.Message.{
  saturating_suc, count_member, check_counts, after_fields, encode_labelled, encode_kind,
  encode_field, encode_fields, encode_message, encode,
}

abbrev or_zero : Option ℕ → ℕ
or_zero none = 0
or_zero (some n) = n

abbrev count_at : List ℕ → ℕ → ℕ
count_at counts group = or_zero (get_elem? counts group)

abbrev in_group : Option ℕ → ℕ → ℕ
in_group none group = 0
in_group (some g) group = if g == group then 1 else 0

saturating_suc-le : (n k : ℕ) → saturating_suc n + k ≤ 1 → n + (1 + k) ≤ 1
saturating_suc-le n k h = ground arith

nothing_more : (n k : ℕ) → n + k ≤ 1 → n + (0 + k) ≤ 1
nothing_more n k h = omega arith

-- One counter of a group that passes the check behind the walk.
set_count :
    (counts : List ℕ) (g group n k : ℕ)
    → get_elem? counts g ≡ some n
    → count_at (set counts g (saturating_suc n)) group + k ≤ 1
    → count_at counts group + (in_group (some g) group + k) ≤ 1
set_count counts g group n k at h = elim (Bool-cases (g == group)) [
  | inl e ↦
      let same = ==→eq g group e in
      let there : get_elem? counts group ≡ some n =
        subst (λ i. get_elem? counts i ≡ some n) same at in
      let after : get_elem? (set counts g (saturating_suc n)) group ≡ some (saturating_suc n) =
        subst (λ i. get_elem? (set counts g (saturating_suc n)) i ≡ some (saturating_suc n)) same
          (get_elem?-set counts g (saturating_suc n) n at) in
      rw (e, there) (saturating_suc-le n k (subst (λ o. or_zero o + k ≤ 1) after h))
  | inr e ↦ rw e (
      nothing_more _ k (
        subst (λ o. or_zero o + k ≤ 1)
          (get_elem?-set_other counts g group (saturating_suc n) (==→ne g group e)) h))
]

count_member-le :
    (counts : List ℕ) (o : Option ℕ) (group k : ℕ)
    → Gives
        (λ counts'.
          count_at counts' group + k ≤ 1 → count_at counts group + (in_group o group + k) ≤ 1)
        (count_member counts o)
unfolding count_member
count_member-le counts none group k = Gives-ok _ counts (nothing_more _ k)
count_member-le counts (some g) group k =
    Gives-bind _ (ok_or (get_elem? counts g) panicked) _
      λ n found. Gives-ok _ _ (set_count counts g group n k (ok_or-eq-ok _ _ n found))

-- The counters that pass the check.
check_counts-le :
    (counts buf : List ℕ) (group : ℕ)
    → Gives (λ (b : List ℕ). count_at counts group ≤ 1) (check_counts buf counts)
unfolding check_counts
check_counts-le [] buf group = Gives-ok _ buf (omega arith)
check_counts-le (n ∷ counts) buf zero =
    Gives-if _ (ltb 1 n) _ _ (λ e. Gives-err _ oneof_conflict) (λ e b e'. ltb→le 1 n e)
check_counts-le (n ∷ counts) buf (suc group) =
    Gives-if _ (ltb 1 n) _ _ (λ e. Gives-err _ oneof_conflict)
      (λ e. check_counts-le counts buf group)

-- Where an instance has a value for a member of the group, a list, a map and a field without
-- presence being none.
module _ (py : Python) (rt : Runtime py) where
  labelled_member : Label → Option ℕ → py.Obj → ℕ → ℕ
  labelled_member optional o value group = if rt.is_none value then 0 else in_group o group
  labelled_member _ o value group = 0

  kind_member : FieldKind → FieldDescriptor → py.Obj → ℕ → ℕ
  kind_member (FieldKind.map_of k v) f value group = 0
  kind_member _ f value group = labelled_member f.label f.oneof_index value group

  set_member : FieldDescriptor → Option py.Obj → ℕ → ℕ
  set_member f none group = 0
  set_member f (some value) group = kind_member f.kind f value group

  abbrev attribute : py.Obj → Option Text → Option py.Obj
  attribute instance none = none
  attribute instance (some name) = rt.getattr instance name

  -- How many members of the group have a value, from the field at `idx` on.
  pub set_members : List Text → py.Obj → ℕ → ℕ → List FieldDescriptor → ℕ
  set_members names instance group idx [] = 0
  set_members names instance group idx (f ∷ fs) =
      set_member f (attribute instance (get_elem? names idx)) group
      + set_members names instance group (suc idx) fs

  -- What a field adds to the counter of a group, where what stands behind it passes.
  abbrev Counts : ℕ → List ℕ → ℕ → ℕ → List ℕ × List ℕ → Type 0
  Counts group counts m k (counts', buf) =
      count_at counts' group + k ≤ 1 → count_at counts group + (m + k) ≤ 1

  module _ (heap : Handle → Descriptor py.Obj)
      (nested : py.Obj → Descriptor py.Obj → List ℕ → ℕ → Written) (group k : ℕ) where
    steady-Counts :
        (counts : List ℕ) (m : Written)
        → Gives (Counts group counts 0 k) (m >>= λ b. ok (counts, b))
    steady-Counts counts m = Gives-bind _ m _ (λ b e. Gives-ok _ _ (nothing_more _ k))

    encode_labelled-Counts :
        (label : Label) (f : FieldDescriptor) (value : py.Obj) (refs : Option (Refs py.Obj))
        (depth : ℕ) (counts buf : List ℕ)
        → Gives
            (Counts group counts (labelled_member label f.oneof_index value group) k)
            (encode_labelled py rt heap nested label f value refs depth counts buf)
    unfolding encode_labelled labelled_member
    encode_labelled-Counts repeated f value refs depth counts buf = steady-Counts counts _
    encode_labelled-Counts single f value refs depth counts buf = steady-Counts counts _
    encode_labelled-Counts optional f value refs depth counts buf =
        elim (Bool-cases (rt.is_none value)) [
          | inl e ↦ rw e (Gives-ok _ _ (nothing_more _ k))
          | inr e ↦ rw e (
              Gives-bind _ (count_member counts f.oneof_index) _ λ counts' e'.
                Gives-bind _ (encode_single py rt heap nested buf f.number f.kind value refs depth)
                  _
                  λ b e''.
                    Gives-ok _ (counts', b)
                      (count_member-le counts f.oneof_index group k counts' e'))
        ]

    encode_kind-Counts :
        (kind : FieldKind) (f : FieldDescriptor) (value : py.Obj) (refs : Option (Refs py.Obj))
        (depth : ℕ) (counts buf : List ℕ)
        → Gives
            (Counts group counts (kind_member kind f value group) k)
            (encode_kind py rt heap nested kind f value refs depth counts buf)
    unfolding encode_kind kind_member
    encode_kind-Counts (FieldKind.map_of key v) f value refs depth counts buf =
        steady-Counts counts _
    encode_kind-Counts (FieldKind.scalar s) f value refs depth counts buf =
        encode_labelled-Counts f.label f value refs depth counts buf
    encode_kind-Counts FieldKind.enum f value refs depth counts buf =
        encode_labelled-Counts f.label f value refs depth counts buf
    encode_kind-Counts FieldKind.message f value refs depth counts buf =
        encode_labelled-Counts f.label f value refs depth counts buf
    encode_kind-Counts FieldKind.timestamp f value refs depth counts buf =
        encode_labelled-Counts f.label f value refs depth counts buf
    encode_kind-Counts FieldKind.duration f value refs depth counts buf =
        encode_labelled-Counts f.label f value refs depth counts buf

  module _ (heap : Handle → Descriptor py.Obj)
      (nested : py.Obj → Descriptor py.Obj → List ℕ → ℕ → Written) (desc : Descriptor py.Obj)
      (instance' : py.Obj) (depth group : ℕ) where
    encode_fields-le :
        (idx : ℕ) (fs : List FieldDescriptor) (counts buf : List ℕ)
        → Gives
            (λ (b : List ℕ).
              count_at counts group + set_members desc.names instance' group idx fs ≤ 1)
            (encode_fields py rt heap nested desc instance' depth idx fs counts buf)
    unfolding encode_fields set_members after_fields encode_field set_member
    encode_fields-le idx [] counts buf =
        Gives-bind _ (check_counts buf counts) _
          λ b e. λ b' e'. let h = check_counts-le counts buf group b e in omega (arith, h)
    encode_fields-le idx (f ∷ fs) counts buf =
        Gives-bind _ (ok_or (get_elem? desc.names idx) panicked) _ λ name found.
          Gives-bind _ (ok_or (rt.getattr instance' name) raised) _ λ value has.
            Gives-bind _ (encode_field py rt heap nested f value desc.refs depth counts buf) _
              λ p e. λ b e'.
                rw (ok_or-eq-ok _ _ name found, ok_or-eq-ok _ _ value has)
                  (encode_kind-Counts heap nested group _ f.kind f value desc.refs depth counts buf
                    p e (encode_fields-le (suc idx) fs p.0 p.1 b e'))

  module _ (heap : Handle → Descriptor py.Obj) where
    encode_message-one_member :
        (fuel : ℕ) (o : py.Obj) (desc : Descriptor py.Obj) (buf : List ℕ) (depth group : ℕ)
        → Gives
            (λ (b : List ℕ). set_members desc.names o group 0 desc.inner.fields ≤ 1)
            (encode_message py rt heap fuel o desc buf depth)
    unfolding encode_message
    encode_message-one_member zero o desc buf depth group = λ b e. cc e
    encode_message-one_member (suc fuel) o desc buf depth group =
        elim (Bool-cases (ltb max_depth depth)) [
          | inl e ↦ rw (e, encode_message) (Gives-err _ nesting_exceeded)
          | inr e ↦
              rw (e, encode_message)
                λ b e'.
                  let h =
                    encode_fields-le heap (encode_message py rt heap fuel) desc o depth group 0
                      desc.inner.fields (replicate (length desc.inner.oneofs) 0) buf b e' in
                  omega (arith, h)
        ]

    -- Where an instance is encoded, at most one field of each oneof, of those with presence that are
    -- no maps, has a value other than None, so that an instance with two is refused: for every
    -- instance and every descriptor.
    pub encode-one_member :
        (desc : Descriptor py.Obj) (o : py.Obj) (bytes : List ℕ)
        → encode py rt heap desc o ≡ ok bytes
        → (group : ℕ) → set_members desc.names o group 0 desc.inner.fields ≤ 1
    unfolding encode
    encode-one_member desc o bytes e group =
        encode_message-one_member (max_depth + 2) o desc [] 0 group bytes e
