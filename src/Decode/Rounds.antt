-- ===== src/Decode/Rounds.antt =====
-- The body of the loop of `decode_message` in src/decode/mod.rs keeps the slots and the owners good,
-- moves the cursor on, and never panics.
use fastproto.Common.{
  ℕ, zero, suc, ◌≡◌, refl, sym, subst, true, false, some, List, [], ◌∷◌, get_elem?, All, Result, ok,
  ◌>>=◌,
}
use fastproto.Wire.Types.{WireType}
use fastproto.Wire.Reader.{Reader}
use fastproto.Wire.Progress.{Moved}
use fastproto.Descriptor.Types.{
  FieldKind, Label, single, optional, repeated, FieldDescriptor, is_map,
}
use fastproto.Message.Class.{is_repeated}
use fastproto.Python.{CodecError}
use fastproto.Python.Post.{Post, yields, Post-bind}
use fastproto.Decode.Slots.{Slot, present, Collected, put}
use fastproto.Decode.Message.{keep_unknown, store}
use fastproto.Decode.Safety.{Reads}
use fastproto.Decode.Calm.{}
use fastproto.Decode.Entries.{skip-Post}
use fastproto.Decode.Shapes.{
  Shape, list_shape, single_shape, shape_of, Fits, FitAll-get, put-inside,
}
use fastproto.Decode.Owners.{HasGroup, IsGood, IsGood-set}

pub All-get :
    (P : FieldDescriptor → Type 0) (fs : List FieldDescriptor) (idx : ℕ) (f : FieldDescriptor)
    → All P fs
    → get_elem? fs idx ≡ some f
    → P f
All-get P [] idx f h e = cc
All-get P (g ∷ fs) zero f (h, hs) e = subst P {x = g} {y = f} (cc) h
All-get P (g ∷ fs) (suc idx) f (h, hs) e = All-get P fs idx f hs e

pub plain_shape :
    (kind : FieldKind) (label : Label)
    → is_map kind ≡ false
    → is_repeated label ≡ false
    → shape_of kind label ≡ single_shape
plain_shape (FieldKind.map_of k v) label h h' = cc
plain_shape (FieldKind.scalar s) single h h' = refl
plain_shape (FieldKind.scalar s) optional h h' = refl
plain_shape (FieldKind.scalar s) repeated h h' = cc
plain_shape FieldKind.enum single h h' = refl
plain_shape FieldKind.enum optional h h' = refl
plain_shape FieldKind.enum repeated h h' = cc
plain_shape FieldKind.message single h h' = refl
plain_shape FieldKind.message optional h h' = refl
plain_shape FieldKind.message repeated h h' = cc
plain_shape FieldKind.timestamp single h h' = refl
plain_shape FieldKind.timestamp optional h h' = refl
plain_shape FieldKind.timestamp repeated h h' = cc
plain_shape FieldKind.duration single h h' = refl
plain_shape FieldKind.duration optional h h' = refl
plain_shape FieldKind.duration repeated h h' = cc

pub list_kind_shape :
    (kind : FieldKind) (label : Label)
    → is_map kind ≡ false
    → is_repeated label ≡ true
    → shape_of kind label ≡ list_shape
list_kind_shape (FieldKind.map_of k v) label h h' = cc
list_kind_shape kind single h h' = cc
list_kind_shape kind optional h h' = cc
list_kind_shape (FieldKind.scalar s) repeated h h' = refl
list_kind_shape FieldKind.enum repeated h h' = refl
list_kind_shape FieldKind.message repeated h h' = refl
list_kind_shape FieldKind.timestamp repeated h h' = refl
list_kind_shape FieldKind.duration repeated h h' = refl

module _ {Obj : Type 0} (fs : List FieldDescriptor) where
  abbrev pub Keeps : Reader → Result CodecError (Collected Obj × Reader) → Type 0
  Keeps r m = Post (λ p. IsGood fs p.0.values p.0.owner × Moved r p.1) m

  pub keep_unknown-Keeps :
      (s : Collected Obj) (start : ℕ) (w : WireType) (r : Reader)
      → IsGood fs s.values s.owner
      → Keeps r (keep_unknown s start w r)
  unfolding keep_unknown
  keep_unknown-Keeps s start w r good = Post-bind _ _ (skip-Post w r) (λ r' mv. yields (good, mv))

  module _ (idx : ℕ) (f : FieldDescriptor) (s : Collected Obj) (good : IsGood fs s.values s.owner)
      (at_idx : get_elem? fs idx ≡ some f) (has : HasGroup fs s.owner idx f) where
    -- A slot that fits is put into its place.
    pub put-Post :
        (r r' : Reader) (v : Slot Obj)
        → Moved r r'
        → Fits (shape_of f.kind f.label) v
        → Keeps r (put s.values idx v >>= λ values. ok (record s { values = values }, r'))
    put-Post r r' v mv fit =
        let (u, at_u, fit_u) = FitAll-get fs s.values idx f good.fits at_idx in
        rw (put-inside s.values idx v u at_u, ◌>>=◌)
          (yields (IsGood-set fs s.values s.owner idx f v good at_idx fit has, mv))

    pub store-Keeps :
        (r : Reader) (read : Result CodecError (Obj × Reader))
        → Reads r read
        → shape_of f.kind f.label ≡ single_shape
        → Keeps r (store s idx read)
    unfolding store
    store-Keeps r read h shape = Post-bind read _ h (λ p mv.
        put-Post r p.1 (present p.0) mv
          (subst (λ (x : Shape). Fits x (present p.0)) (sym shape) tt))
