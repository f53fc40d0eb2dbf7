-- ===== src/Decode/Shapes.antt =====
-- The slots of `decode_message` in src/decode/mod.rs keep the form of their field: a dict for a map, a
-- list for a repeated field, a value or nothing for the others.
use fastproto.Common.{
  ℕ, zero, suc, ◌≡◌, refl, ap, subst, lt→ltb, some, List, [], ◌∷◌, get_elem?, get_elem?-some_lt,
  length, set, ok,
}
use fastproto.Descriptor.Types.{FieldKind, Label, single, optional, repeated, FieldDescriptor}
use fastproto.Decode.Slots.{
  Slot, absent, present, list_slot, dict_slot, accumulator, accumulators, put, dict_at, list_at,
}

pub data Shape : Type 0 where
  dict_shape list_shape single_shape : Shape

abbrev pub shape_of : FieldKind → Label → Shape
shape_of (FieldKind.map_of k v) label = dict_shape
shape_of _ repeated = list_shape
shape_of _ _ = single_shape

module _ {Obj : Type 0} where
  abbrev pub Fits : Shape → Slot Obj → Type 0
  Fits dict_shape (dict_slot d) = Unit
  Fits list_shape (list_slot l) = Unit
  Fits single_shape absent = Unit
  Fits single_shape (present o) = Unit
  Fits _ _ = ⊥

  abbrev pub FitAll : List FieldDescriptor → List (Slot Obj) → Type 0
  FitAll [] [] = Unit
  FitAll (f ∷ fs) (v ∷ values) = Fits (shape_of f.kind f.label) v × FitAll fs values
  FitAll _ _ = ⊥

  pub FitAll-length :
      (fs : List FieldDescriptor) (values : List (Slot Obj))
      → FitAll fs values
      → length values ≡ length fs
  FitAll-length [] [] h = refl
  FitAll-length [] (v ∷ values) h = absurd h
  FitAll-length (f ∷ fs) [] h = absurd h
  FitAll-length (f ∷ fs) (v ∷ values) (h, hs) = ap suc (FitAll-length fs values hs)

  pub FitAll-get :
      (fs : List FieldDescriptor) (values : List (Slot Obj)) (idx : ℕ) (f : FieldDescriptor)
      → FitAll fs values
      → get_elem? fs idx ≡ some f
      → (v : Slot Obj) × (get_elem? values idx ≡ some v) × Fits (shape_of f.kind f.label) v
  FitAll-get [] values idx f h e = cc
  FitAll-get (g ∷ fs) [] idx f h e = absurd h
  FitAll-get (g ∷ fs) (v ∷ values) zero f (h, hs) e = (
    v,
    refl,
    subst (λ (x : FieldDescriptor). Fits (shape_of x.kind x.label) v) {x = g} {y = f} (cc) h,
  )
  FitAll-get (g ∷ fs) (v ∷ values) (suc idx) f (h, hs) e = FitAll-get fs values idx f hs e

  pub FitAll-set :
      (fs : List FieldDescriptor) (values : List (Slot Obj)) (idx : ℕ) (f : FieldDescriptor)
      (v : Slot Obj)
      → FitAll fs values
      → get_elem? fs idx ≡ some f
      → Fits (shape_of f.kind f.label) v
      → FitAll fs (set values idx v)
  FitAll-set [] values idx f v h e k = cc
  FitAll-set (g ∷ fs) [] idx f v h e k = absurd h
  FitAll-set (g ∷ fs) (w ∷ values) zero f v (h, hs) e k =
      (subst (λ (x : FieldDescriptor). Fits (shape_of x.kind x.label) v) {x = f} {y = g} (cc) k, hs)
  FitAll-set (g ∷ fs) (w ∷ values) (suc idx) f v (h, hs) e k =
      (h, FitAll-set fs values idx f v hs e k)

  -- Accesses that find what they unwrap.
  pub put-inside :
      (values : List (Slot Obj)) (idx : ℕ) (v w : Slot Obj)
      → get_elem? values idx ≡ some w
      → put values idx v ≡ ok (set values idx v)
  unfolding put
  put-inside values idx v w e =
      rw (lt→ltb idx (length values) (get_elem?-some_lt values idx w e)) refl

  pub dict_at-found :
      (values : List (Slot Obj)) (idx : ℕ) (v : Slot Obj)
      → get_elem? values idx ≡ some v
      → Fits dict_shape v
      → (d : List (Obj × Obj)) × (dict_at values idx ≡ ok d)
  unfolding dict_at
  dict_at-found values idx (dict_slot d) e h = (d, rw (e, dict_at) refl)
  dict_at-found values idx absent e h = absurd h
  dict_at-found values idx (present o) e h = absurd h
  dict_at-found values idx (list_slot l) e h = absurd h

  pub list_at-found :
      (values : List (Slot Obj)) (idx : ℕ) (v : Slot Obj)
      → get_elem? values idx ≡ some v
      → Fits list_shape v
      → (l : List Obj) × (list_at values idx ≡ ok l)
  unfolding list_at
  list_at-found values idx (list_slot l) e h = (l, rw (e, list_at) refl)
  list_at-found values idx absent e h = absurd h
  list_at-found values idx (present o) e h = absurd h
  list_at-found values idx (dict_slot d) e h = absurd h

accumulator-Fits :
    (Obj : Type 0) (kind : FieldKind) (label : Label)
    → Fits {Obj = Obj} (shape_of kind label) (accumulator kind label)
unfolding accumulator
accumulator-Fits Obj (FieldKind.map_of k v) label = tt
accumulator-Fits Obj (FieldKind.scalar s) repeated = tt
accumulator-Fits Obj (FieldKind.scalar s) optional = tt
accumulator-Fits Obj (FieldKind.scalar s) single = tt
accumulator-Fits Obj FieldKind.enum repeated = tt
accumulator-Fits Obj FieldKind.enum optional = tt
accumulator-Fits Obj FieldKind.enum single = tt
accumulator-Fits Obj FieldKind.message repeated = tt
accumulator-Fits Obj FieldKind.message optional = tt
accumulator-Fits Obj FieldKind.message single = tt
accumulator-Fits Obj FieldKind.timestamp repeated = tt
accumulator-Fits Obj FieldKind.timestamp optional = tt
accumulator-Fits Obj FieldKind.timestamp single = tt
accumulator-Fits Obj FieldKind.duration repeated = tt
accumulator-Fits Obj FieldKind.duration optional = tt
accumulator-Fits Obj FieldKind.duration single = tt

pub accumulators-FitAll :
    (Obj : Type 0) (fs : List FieldDescriptor) → FitAll {Obj = Obj} fs (accumulators fs)
unfolding accumulators
accumulators-FitAll Obj [] = tt
accumulators-FitAll Obj (f ∷ fs) = (accumulator-Fits Obj f.kind f.label, accumulators-FitAll Obj fs)
