-- ===== src/Decode/Owners.antt =====
-- What the loop of `decode_message` in src/decode/mod.rs keeps of its slots and of the owners of the
-- oneof groups.
use fastproto.Common.{
  ℕ, ◌==◌, ==→eq, ==→ne, eq→==, ◌≡◌, ◌≢◌, refl, sym, ap, subst, ◌∙◌, Bool-cases, inl, inr, false,
  some, List, ◌∷◌, get_elem?, get_elem?-set, get_elem?-set_other, set,
}
use fastproto.Descriptor.Types.{optional, FieldDescriptor}
use fastproto.Decode.Slots.{Slot, absent, owner_of}
use fastproto.Decode.Shapes.{Shape, single_shape, shape_of, Fits, FitAll, FitAll-get, FitAll-set}

pub owner_same :
    (owner : List (ℕ × ℕ)) (group idx g : ℕ)
    → group ≡ g
    → owner_of ((group, idx) ∷ owner) g ≡ some idx
unfolding owner_of
owner_same owner group idx g e = rw (eq→== group g e) refl

owner_other :
    (owner : List (ℕ × ℕ)) (group idx g : ℕ)
    → (group == g) ≡ false
    → owner_of ((group, idx) ∷ owner) g ≡ owner_of owner g
unfolding owner_of
owner_other owner group idx g e = rw e refl

module _ (fs : List FieldDescriptor) where
  -- The owners are singular fields of the message.
  abbrev pub SingleOwners : List (ℕ × ℕ) → Type 0
  SingleOwners owner =
      (group idx : ℕ)
      → owner_of owner group ≡ some idx
      → (f : FieldDescriptor) × (get_elem? fs idx ≡ some f)
        × (shape_of f.kind f.label ≡ single_shape)

  -- A member of a oneof that is about to be set has its group.
  abbrev pub HasGroup : List (ℕ × ℕ) → ℕ → FieldDescriptor → Type 0
  HasGroup owner idx f =
      (group : ℕ)
      → f.label ≡ optional
      → f.oneof_index ≡ some group
      → owner_of owner group ≡ some idx

module _ {Obj : Type 0} (fs : List FieldDescriptor) where
  -- A member that stands in a slot is the owner of its group.
  abbrev pub OwnedSlots : List (Slot Obj) → List (ℕ × ℕ) → Type 0
  OwnedSlots values owner =
      (idx group : ℕ) (f : FieldDescriptor) (v : Slot Obj)
      → get_elem? fs idx ≡ some f
      → f.label ≡ optional
      → f.oneof_index ≡ some group
      → get_elem? values idx ≡ some v
      → v ≢ absent
      → owner_of owner group ≡ some idx

  pub record IsGood (values : List (Slot Obj)) (owner : List (ℕ × ℕ)) : Type 0 where
    pub fits : FitAll fs values
    pub owned : OwnedSlots values owner
    pub single_owners : SingleOwners fs owner

  -- A slot is set.
  pub IsGood-set :
      (values : List (Slot Obj)) (owner : List (ℕ × ℕ)) (idx : ℕ) (f : FieldDescriptor)
      (v : Slot Obj)
      → IsGood values owner
      → get_elem? fs idx ≡ some f
      → Fits (shape_of f.kind f.label) v
      → HasGroup fs owner idx f
      → IsGood (set values idx v) owner
  IsGood-set values owner idx f v good at_idx fit has = record {
    fits = FitAll-set fs values idx f v good.fits at_idx fit;
    owned = λ j group g w at_j opt one at_w there. elim (Bool-cases (idx == j)) [
      | inl e ↦
          let same : idx ≡ j = ==→eq idx j e in
          let same_field : g ≡ f = cc (at_idx, at_j, same) in
          has group (ap (λ (x : FieldDescriptor). x.label) (sym same_field) ∙ opt)
            (ap (λ (x : FieldDescriptor). x.oneof_index) (sym same_field) ∙ one)
          ∙ ap some same
      | inr e ↦
          good.owned j group g w at_j opt one
            (sym (get_elem?-set_other values idx j v (==→ne idx j e)) ∙ at_w) there
    ];
    single_owners = good.single_owners;
  }

  -- A slot is cleared.
  pub IsGood-clear :
      (values : List (Slot Obj)) (owner : List (ℕ × ℕ)) (idx : ℕ) (f : FieldDescriptor)
      → IsGood values owner
      → get_elem? fs idx ≡ some f
      → shape_of f.kind f.label ≡ single_shape
      → IsGood (set values idx absent) owner
  IsGood-clear values owner idx f good at_idx shape = record {
    fits =
        FitAll-set fs values idx f absent good.fits at_idx
          (subst (λ (x : Shape). Fits {Obj = Obj} x absent) (sym shape) tt);
    owned = λ j group g w at_j opt one at_w there. elim (Bool-cases (idx == j)) [
      | inl e ↦
          let (u, at_u, fit) = FitAll-get fs values idx f good.fits at_idx in
          let cleared : get_elem? (set values idx absent) j ≡ some absent =
            ap (get_elem? (set values idx absent)) (sym (==→eq idx j e))
            ∙ get_elem?-set values idx absent u at_u in
          absurd (there (cc (cleared, at_w)))
      | inr e ↦
          good.owned j group g w at_j opt one
            (sym (get_elem?-set_other values idx j absent (==→ne idx j e)) ∙ at_w) there
    ];
    single_owners = good.single_owners;
  }

  -- A field takes its group over from an owner whose slot is empty, or that is the field itself.
  pub IsGood-take :
      (values : List (Slot Obj)) (owner : List (ℕ × ℕ)) (idx group : ℕ) (f : FieldDescriptor)
      → IsGood values owner
      → get_elem? fs idx ≡ some f
      → shape_of f.kind f.label ≡ single_shape
      → ((prev : ℕ)
          → owner_of owner group ≡ some prev
          → prev ≢ idx
          → (v : Slot Obj) → get_elem? values prev ≡ some v
          → v ≡ absent)
      → IsGood values ((group, idx) ∷ owner)
  IsGood-take values owner idx group f good at_idx shape empty = record {
    fits = good.fits;
    owned = λ j g fj w at_j opt one at_w there.
        let before = good.owned j g fj w at_j opt one at_w there in
        elim (Bool-cases (group == g)) [
          | inl e ↦ elim (Bool-cases (j == idx)) [
            | inl e' ↦
                owner_same owner group idx g (==→eq group g e) ∙ ap some (sym (==→eq j idx e'))
            | inr e' ↦ absurd (
                there (
                  empty j (ap (owner_of owner) (==→eq group g e) ∙ before) (==→ne j idx e') w at_w))
          ]
          | inr e ↦ owner_other owner group idx g e ∙ before
        ];
    single_owners = λ g j at_g. elim (Bool-cases (group == g)) [
      | inl e ↦
          let same : idx ≡ j = cc (owner_same owner group idx g (==→eq group g e), at_g) in
          (f, ap (get_elem? fs) (sym same) ∙ at_idx, shape)
      | inr e ↦ good.single_owners g j (sym (owner_other owner group idx g e) ∙ at_g)
    ];
  }
