-- ===== src/Decode/Groups.antt =====
-- What the last-wins rule of `decode_message` in src/decode/mod.rs does to the slots and the owners.
use fastproto.Common.{
  ℕ, ◌==◌, ==→eq, ◌≡◌, ◌≢◌, refl, ap, Bool-cases, inl, inr, true, Option, none, some, Option-cases,
  List, ◌∷◌, get_elem?, get_elem?-set, set, ok, ◌>>=◌,
}
use fastproto.Descriptor.Types.{
  is_map, FieldKind, Label, single, optional, repeated, FieldDescriptor,
}
use fastproto.Decode.Slots.{Slot, absent, Collected, owner_of, clear_other, take_group}
use fastproto.Decode.Shapes.{single_shape, shape_of, FitAll-get, put-inside}
use fastproto.Decode.Owners.{HasGroup, IsGood, IsGood-clear, IsGood-take, owner_same}

module _ {Obj : Type 0} (fs : List FieldDescriptor) where
  -- What `take_group` gives.
  pub record Took (s : Collected Obj) (idx : ℕ) (f : FieldDescriptor) : Type 0 where
    pub after : Collected Obj
    pub takes : take_group f.oneof_index f.label idx s ≡ ok after
    pub good : IsGood fs after.values after.owner
    pub has : HasGroup fs after.owner idx f

  -- Nothing to take over.
  Took-nothing :
      (s : Collected Obj) (idx : ℕ) (f : FieldDescriptor)
      → IsGood fs s.values s.owner
      → take_group f.oneof_index f.label idx s ≡ ok s
      → ((group : ℕ) → f.label ≡ optional → f.oneof_index ≢ some group)
      → Took s idx f
  Took-nothing s idx f good same out = record {
    after = s;
    takes = same;
    good = good;
    has = λ group opt one. absurd (out group opt one);
  }

  -- The values behind `clear_other`, and that it leaves no other owner.
  cleared :
      (s : Collected Obj) (idx group : ℕ) (f : FieldDescriptor)
      → IsGood fs s.values s.owner
      → get_elem? fs idx ≡ some f
      → shape_of f.kind f.label ≡ single_shape
      → (values : List (Slot Obj)) × (clear_other (owner_of s.owner group) idx s.values ≡ ok values)
        × IsGood fs values ((group, idx) ∷ s.owner)
  unfolding clear_other
  cleared s idx group f good at_idx shape = elim (Option-cases (owner_of s.owner group)) [
    | inl e ↦ (
      s.values,
      rw (e, clear_other) refl,
      IsGood-take fs s.values s.owner idx group f good at_idx shape (λ prev e' ne v at_v. cc),
    )
    | inr (prev, e) ↦ elim (Bool-cases (prev == idx)) [
      | inl same ↦ (
        s.values,
        rw (e, clear_other) (rw same refl),
        IsGood-take fs s.values s.owner idx group f good at_idx shape
            (λ p e' ne v at_v. absurd (ne (cc (e, e', ==→eq prev idx same)))),
      )
      | inr other ↦
          let (g, at_prev, g_shape) = good.single_owners group prev e in
          let (u, at_u, fit) = FitAll-get fs s.values prev g good.fits at_prev in
          (
            set s.values prev absent,
            rw (e, clear_other) (rw other (put-inside s.values prev absent u at_u)),
            IsGood-take fs (set s.values prev absent) s.owner idx group f
                (IsGood-clear fs s.values s.owner prev g good at_prev g_shape) at_idx shape
                (λ p e' ne v at_v.
                  let same : prev ≡ p = cc (e, e') in
                  cc (at_v, same, get_elem?-set s.values prev absent u at_u)),
          )
    ]
  ]

optional_single :
    (kind : FieldKind) (label : Label)
    → label ≡ optional
    → (is_map kind ≡ true → label ≡ single)
    → shape_of kind label ≡ single_shape
optional_single (FieldKind.map_of k v) label e h = cc (e, h refl)
optional_single (FieldKind.scalar s) label e h = ap (shape_of (FieldKind.scalar s)) e
optional_single FieldKind.enum label e h = ap (shape_of FieldKind.enum) e
optional_single FieldKind.message label e h = ap (shape_of FieldKind.message) e
optional_single FieldKind.timestamp label e h = ap (shape_of FieldKind.timestamp) e
optional_single FieldKind.duration label e h = ap (shape_of FieldKind.duration) e

module _ {Obj : Type 0} (fs : List FieldDescriptor) (s : Collected Obj) (idx : ℕ)
    (f : FieldDescriptor) (good : IsGood fs s.values s.owner) (at_idx : get_elem? fs idx ≡ some f)
    (map_single : is_map f.kind ≡ true → f.label ≡ single) where
  took : (o : Option ℕ) (label : Label) → f.oneof_index ≡ o → f.label ≡ label → Took fs s idx f
  unfolding take_group
  took none label e e' = Took-nothing fs s idx f good (rw (e, take_group) refl) (λ g opt one. cc)
  took (some group) single e e' =
      Took-nothing fs s idx f good (rw (e, e', take_group) refl) (λ g opt one. cc)
  took (some group) repeated e e' =
      Took-nothing fs s idx f good (rw (e, e', take_group) refl) (λ g opt one. cc)
  took (some group) optional e e' =
      let (values, clears, kept) =
        cleared fs s idx group f good at_idx (optional_single f.kind f.label e' map_single) in
      record {
        after = record { values = values; unknown = s.unknown; owner = (group, idx) ∷ s.owner };
        takes = rw (e, e', take_group) (rw (clears, ◌>>=◌) refl);
        good = kept;
        has = λ g opt one. owner_same s.owner group idx g (cc (e, one));
      }

  pub take_group-Took : Took fs s idx f
  take_group-Took = took f.oneof_index f.label refl refl
