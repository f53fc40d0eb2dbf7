-- ===== src/Descriptor/Index/Lookup.antt =====
-- `FieldIndex` answers as the linear scan over the fields, whichever form `build` chose.
use Prim.Native.Nat.{max}
use fastproto.Common.{
  ℕ, ◌+◌, ◌-◌, ◌*◌, ◌≡◌, refl, ◌∙◌, ◌==◌, if◌then◌else◌, ltb, leb, Option, none, some, List, [],
  ◌∷◌, ◌++◌, length, length-append, append_move, get_elem?-append, ap, ap₂, sym, get_elem?,
  replicate, length-replicate, Bool-cases, inl, inr, arith, ltb→lt, ltb→le,
}
use fastproto.Descriptor.Types.{FieldDescriptor}
use fastproto.Descriptor.Index.Defs.{
  FieldIndex, build, get, position, field_by_number, max_number, fill, slot_at, enumerate,
}
use fastproto.Descriptor.Index.Dense.{
  slot_of, slot_at-fill, length-fill, slot_at-replicate, get_elem?-slot_at, get_elem?-beyond,
  position_beyond,
}
use fastproto.Descriptor.Index.Sorted.{assoc-dedup-sort, Strict-dedup-sort}
use fastproto.Descriptor.Index.Bisect.{bisect_all}

slot_of_back : (o : Option ℕ) → (if slot_of o == 0 then none else some (slot_of o - 1)) ≡ o
slot_of_back none = refl
slot_of_back (some i) = ground arith

module _ (fs : List FieldDescriptor) where
  table : List ℕ
  table = fill 0 fs (replicate (max_number fs + 1) 0)

  length-table : length table ≡ max_number fs + 1
  unfolding table
  length-table = length-fill 0 fs _ ∙ length-replicate (max_number fs + 1) 0

  zeros : length {A = ℕ} (replicate (max_number fs + 1) 0) ≡ max_number fs + 1
  zeros = length-replicate (max_number fs + 1) 0

  slot_at-table : (n : ℕ) → slot_at table n ≡ slot_of (position 0 fs n)
  unfolding table
  slot_at-table n =
      slot_at-fill 0 n fs _ (omega (arith, zeros)) ∙ rw (slot_at-replicate (max_number fs + 1) n)

  get_dense : (n : ℕ) → get (FieldIndex.dense table) n ≡ position 0 fs n
  unfolding get
  get_dense n = elim (Bool-cases (ltb (max_number fs) n)) [
    | inl e ↦ rw (
      get,
      get_elem?-beyond table n (omega (arith, length-table, ltb→lt _ _ e)),
      position_beyond 0 n fs (ltb→lt _ _ e),
    )
    | inr e ↦
        rw
          (
            get,
            get_elem?-slot_at table n (omega (arith, length-table, ltb→le _ _ e)),
            slot_at-table n,
          )
          (slot_of_back (position 0 fs n))
  ]

-- The index that `build` makes gives, for every number, the place of the first field with it.
get-build : (fs : List FieldDescriptor) (n : ℕ) → get (build fs) n ≡ position 0 fs n
unfolding build table
get-build fs n = elim (Bool-cases (leb (max_number fs) (max (length fs * 4) 64))) [
  | inl e ↦ rw e (get_dense fs n)
  | inr e ↦
      rw e (
        unfold get in (bisect_all _ n (Strict-dedup-sort (enumerate 0 fs)) ∙ assoc-dedup-sort n fs))
]

abbrev pub field_at : List FieldDescriptor → Option ℕ → Option FieldDescriptor
field_at fs none = none
field_at fs (some i) = get_elem? fs i

field_at-position :
    (before fs : List FieldDescriptor) (n : ℕ)
    → field_at (before ++ fs) (position (length before) fs n) ≡ field_by_number fs n
unfolding position field_by_number
field_at-position before [] n = refl
field_at-position before (f ∷ fs) n = elim (Bool-cases (f.number == n)) [
  | inl e ↦ rw e (get_elem?-append before f fs)
  | inr e ↦ rw e (
      ap₂ (λ (l : List FieldDescriptor) (k : ℕ). field_at l (position k fs n))
        (sym (append_move before f fs)) (omega (arith, length-append before (f ∷ [])))
      ∙ field_at-position (before ++ (f ∷ [])) fs n)
]

-- For every number the precomputed index leads to the field that a linear scan of the fields
-- finds, and to none where the scan finds none: with dense and with sparse numbering, and where a
-- number is given twice.
pub get-build_scan :
    (fs : List FieldDescriptor) (n : ℕ) → field_at fs (get (build fs) n) ≡ field_by_number fs n
get-build_scan fs n = ap (field_at fs) (get-build fs n) ∙ field_at-position [] fs n

position-found :
    (i : ℕ) (fs : List FieldDescriptor) (n idx : ℕ)
    → position i fs n ≡ some idx
    → (f : FieldDescriptor) × (field_by_number fs n ≡ some f)
unfolding position field_by_number
position-found i [] n idx e = cc
position-found i (f ∷ fs) n idx e = elim (Bool-cases (f.number == n)) [
  | inl same ↦ (f, rw same refl)
  | inr other ↦ rw other (position-found (i + 1) fs n idx (rw other at e))
]

-- The place that the index gives is one of a field.
pub get-build_inside :
    (fs : List FieldDescriptor) (n idx : ℕ)
    → get (build fs) n ≡ some idx
    → (f : FieldDescriptor) × (get_elem? fs idx ≡ some f)
get-build_inside fs n idx e =
    let (f, found) = position-found 0 fs n idx (sym (get-build fs n) ∙ e) in
    (f, ap (field_at fs) (sym e) ∙ get-build_scan fs n ∙ found)
