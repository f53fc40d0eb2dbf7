-- ===== src/Encode/Safety.antt =====
-- The scalars, the times and the items of src/encode/mod.rs, as the reference has them, end
-- without a panic.
use fastproto.Common.{
  ◌≡◌, false, zero, suc, ◌+◌, ◌≤◌, ◌<◌, ◌==◌, ==→eq, ==→ne, Bool-cases, subst, sym, ap, ◌∙◌, arith,
  map, All, Gives, Gives-ok, Gives-bind, ok_or, ok_or-eq-ok, ℕ, ◌≢◌, refl, Bool, Option, none, some,
  List, [], ◌∷◌, ◌++◌, Result, ok, out_of_fuel, ◌>>=◌, ok_ends, err_ends, if_ends, Option-cases,
  inl, inr,
}
use fastproto.Descriptor.Types.{
  ScalarType, double, float, int32, int64, uint32, uint64, sint32, sint64, fixed32, fixed64,
  sfixed32, sfixed64, bool, string, bytes,
}
use fastproto.WellKnown.Parts.{Timedelta, timedelta_to_parts}
use fastproto.Message.Link.{LinkedRef}
use fastproto.Python.{
  Python, Runtime, CodecError, extract_failed, not_bytes, not_a_message, not_in_range, raised,
}
use fastproto.Python.Safe.{
  is_panic, Stops, IteratorsEnd, Safe, returns, raises, Safe-bind, Safe-if, Safe-ok_or,
  Safe-map_err,
}
use fastproto.Encode.Scalars.{str_error, extracted, byte_slice, encode_scalar, encode_scalar_field}
use fastproto.Encode.Repeated.{
  Drawn, drawn, failed, unfinished, draw, Written, items_of, datetime_parts, timedelta_parts,
  own_descriptor, descriptor_for,
}
use fastproto.Encode.Writes.{each}
use fastproto.Encode.Reference.{enum_bytes, datetime_bytes, timedelta_bytes, items_bytes}

-- A value that is stored.
pub Safe-store :
    {A B : Type 0} (m : Result CodecError A) (g : A → B) → Safe m → Safe (m >>= λ a. ok (g a))
Safe-store m g h = Safe-bind m _ h (λ a e. returns)

abbrev pub IsFinished : {A : Type 0} → Drawn A → Type 0
IsFinished unfinished = ⊥
IsFinished _ = Unit

pub drawn-IsFinished : {A : Type 0} (items : List A) → All IsFinished (map drawn items)
drawn-IsFinished [] = tt
drawn-IsFinished (item ∷ items) = (tt, drawn-IsFinished items)

-- An iterator that stops, or raises, within the calls from `k` on that there is fuel for.
draw-IsFinished :
    {A : Type 0} (fuel : ℕ) (iterator : ℕ → Option (Option A)) (k n : ℕ)
    → k ≤ n
    → n < k + fuel
    → Stops (iterator n)
    → All IsFinished (draw fuel iterator k)
unfolding draw
draw-IsFinished zero iterator k n h h' stop = absurd (omega arith)
draw-IsFinished (suc fuel) iterator k n h h' stop = elim (Option-cases (iterator k)) [
  | inl e ↦ rw (e, draw) tt
  | inr (none, e) ↦ rw (e, draw) (tt, tt)
  | inr (some item, e) ↦
      rw (e, draw)
        (
          tt,
          draw-IsFinished fuel iterator (suc k) n
              (elim (Bool-cases (k == n)) [
                | inl same ↦ absurd (subst Stops (ap iterator (sym (==→eq k n same)) ∙ e) stop)
                | inr other ↦ omega (arith, ==→ne k n other)
              ])
              (omega arith) stop,
        )
]

pub Safe-each :
    {A : Type 0} (g : A → Written)
    → ((a : A) → Safe (g a))
    → (items : List (Drawn A)) → All IsFinished items
    → Safe (each g items)
unfolding each
Safe-each g h [] k = returns
Safe-each g h (unfinished ∷ items) k = absurd k.0
Safe-each g h (failed ∷ items) k = raises refl
Safe-each g h (drawn item ∷ items) (_, k) =
    Safe-bind (g item) _ (h item)
      (λ first e. Safe-store (each g items) (λ rest. first ++ rest) (Safe-each g h items k))

timedelta_to_parts_ends : (t : Timedelta) → timedelta_to_parts t ≢ out_of_fuel
unfolding timedelta_to_parts
timedelta_to_parts_ends t = if_ends _ _ _ (err_ends _) (ok_ends _)

module _ (py : Python) where
  pub extracted-Safe : {A : Type 0} (o : Option A) → Safe (extracted py o)
  extracted-Safe o = Safe-ok_or o extract_failed refl

  pub byte_slice-Safe : (o : py.Obj) → Safe (byte_slice py o)
  unfolding byte_slice
  byte_slice-Safe o = elim (Option-cases (py.cast_bytes o)) [
    | inr (b, e) ↦ rw (e, byte_slice) returns
    | inl e ↦ rw (e, byte_slice) (Safe-ok_or (py.cast_bytearray o) not_bytes refl)
  ]

  str_error-calm : (o : py.Obj) → is_panic (str_error py o) ≡ false
  str_error-calm o = elim (Bool-cases (py.is_str o)) [ inl e ↦ rw e refl | inr e ↦ rw e refl ]

  pub encode_scalar-Safe : (s : ScalarType) (o : py.Obj) → Safe (encode_scalar py [] s o)
  unfolding encode_scalar
  encode_scalar-Safe int32 o = Safe-store _ _ (extracted-Safe (py.extract_i32 o))
  encode_scalar-Safe int64 o = Safe-store _ _ (extracted-Safe (py.extract_i64 o))
  encode_scalar-Safe uint32 o = Safe-store _ _ (extracted-Safe (py.extract_u32 o))
  encode_scalar-Safe uint64 o = Safe-store _ _ (extracted-Safe (py.extract_u64 o))
  encode_scalar-Safe sint32 o = Safe-store _ _ (extracted-Safe (py.extract_i32 o))
  encode_scalar-Safe sint64 o = Safe-store _ _ (extracted-Safe (py.extract_i64 o))
  encode_scalar-Safe bool o = Safe-store _ _ (extracted-Safe (py.extract_bool o))
  encode_scalar-Safe fixed32 o = Safe-store _ _ (extracted-Safe (py.extract_u32 o))
  encode_scalar-Safe sfixed32 o = Safe-store _ _ (extracted-Safe (py.extract_i32 o))
  encode_scalar-Safe float o = Safe-store _ _ (extracted-Safe (py.extract_f32 o))
  encode_scalar-Safe fixed64 o = Safe-store _ _ (extracted-Safe (py.extract_u64 o))
  encode_scalar-Safe sfixed64 o = Safe-store _ _ (extracted-Safe (py.extract_i64 o))
  encode_scalar-Safe double o = Safe-store _ _ (extracted-Safe (py.extract_f64 o))
  encode_scalar-Safe string o =
      Safe-store _ _ (Safe-ok_or (py.cast_str o) (str_error py o) (str_error-calm o))
  encode_scalar-Safe bytes o = Safe-store _ _ (byte_slice-Safe o)

  pub encode_scalar_field-Safe :
      (n : ℕ) (s : ScalarType) (o : py.Obj) (skip : Bool)
      → Safe (encode_scalar_field py [] n s o skip)
  unfolding encode_scalar_field
  encode_scalar_field-Safe n int32 o skip = Safe-store _ _ (extracted-Safe (py.extract_i32 o))
  encode_scalar_field-Safe n int64 o skip = Safe-store _ _ (extracted-Safe (py.extract_i64 o))
  encode_scalar_field-Safe n uint32 o skip = Safe-store _ _ (extracted-Safe (py.extract_u32 o))
  encode_scalar_field-Safe n uint64 o skip = Safe-store _ _ (extracted-Safe (py.extract_u64 o))
  encode_scalar_field-Safe n sint32 o skip = Safe-store _ _ (extracted-Safe (py.extract_i32 o))
  encode_scalar_field-Safe n sint64 o skip = Safe-store _ _ (extracted-Safe (py.extract_i64 o))
  encode_scalar_field-Safe n bool o skip = Safe-store _ _ (extracted-Safe (py.extract_bool o))
  encode_scalar_field-Safe n fixed32 o skip = Safe-store _ _ (extracted-Safe (py.extract_u32 o))
  encode_scalar_field-Safe n sfixed32 o skip = Safe-store _ _ (extracted-Safe (py.extract_i32 o))
  encode_scalar_field-Safe n float o skip = Safe-store _ _ (extracted-Safe (py.extract_f32 o))
  encode_scalar_field-Safe n fixed64 o skip = Safe-store _ _ (extracted-Safe (py.extract_u64 o))
  encode_scalar_field-Safe n sfixed64 o skip = Safe-store _ _ (extracted-Safe (py.extract_i64 o))
  encode_scalar_field-Safe n double o skip = Safe-store _ _ (extracted-Safe (py.extract_f64 o))
  encode_scalar_field-Safe n string o skip =
      Safe-store _ _ (Safe-ok_or (py.cast_str o) (str_error py o) (str_error-calm o))
  encode_scalar_field-Safe n bytes o skip = Safe-store _ _ (byte_slice-Safe o)

module _ (py : Python) (rt : Runtime py) where
  pub enum_bytes-Safe : (o : py.Obj) → Safe (enum_bytes py rt o)
  unfolding enum_bytes
  enum_bytes-Safe o = Safe-store _ _ (extracted-Safe py (py.extract_i32 o))

  pub datetime_bytes-Safe : (n : ℕ) (o : py.Obj) → Safe (datetime_bytes py rt n o)
  unfolding datetime_bytes datetime_parts
  datetime_bytes-Safe n o =
      Safe-store _ _ (Safe-store _ _ (Safe-ok_or (rt.since_epoch o) raised refl))

  pub timedelta_bytes-Safe : (n : ℕ) (o : py.Obj) → Safe (timedelta_bytes py rt n o)
  unfolding timedelta_bytes timedelta_parts
  timedelta_bytes-Safe n o = Safe-store _ _ (
      Safe-bind _ _ (Safe-ok_or (rt.timedelta_attributes o) raised refl) (λ t e.
        Safe-map_err not_in_range (timedelta_to_parts t) (timedelta_to_parts_ends t) (λ x. refl)))

  items_of-IsFinished : IteratorsEnd rt → (o : py.Obj) → Gives (All IsFinished) (items_of py rt o)
  unfolding items_of
  items_of-IsFinished ends o = elim (Option-cases (rt.cast_list o)) [
    | inr (list, e) ↦ rw (e, items_of) (Gives-ok _ _ (drawn-IsFinished list))
    | inl e ↦ elim (Option-cases (rt.cast_tuple o)) [
      | inr (tuple, e') ↦ rw (e, e', items_of) (Gives-ok _ _ (drawn-IsFinished tuple))
      | inl e' ↦
          rw (e, e', items_of)
            (Gives-bind _ (ok_or (rt.try_iter o) raised) _ λ iterator found.
              let (n, small, stop) = ends o iterator (ok_or-eq-ok _ _ iterator found) in
              Gives-ok _ _
                (draw-IsFinished rt.patience iterator 0 n (omega arith) (omega arith) stop))
    ]
  ]

  items_of-Safe : (o : py.Obj) → Safe (items_of py rt o)
  unfolding items_of
  items_of-Safe o = elim (Option-cases (rt.cast_list o)) [
    | inr (list, e) ↦ rw (e, items_of) returns
    | inl e ↦ elim (Option-cases (rt.cast_tuple o)) [
      | inr (tuple, e') ↦ rw (e, e', items_of) returns
      | inl e' ↦ rw (e, e', items_of) (Safe-store _ _ (Safe-ok_or (rt.try_iter o) raised refl))
    ]
  ]

  pub items_bytes-Safe :
      IteratorsEnd rt
      → (g : py.Obj → Written) → ((o : py.Obj) → Safe (g o))
      → (o : py.Obj) → Safe (items_bytes py rt g o)
  unfolding items_bytes
  items_bytes-Safe ends g h o =
      Safe-bind _ _ (items_of-Safe o)
        (λ items e. Safe-each g h items (items_of-IsFinished ends o items e))

  own_descriptor-Safe : (o : py.Obj) → Safe (own_descriptor py rt o)
  unfolding own_descriptor
  own_descriptor-Safe o =
      Safe-bind _ _ (Safe-ok_or _ raised refl)
        (λ handle e. Safe-ok_or (rt.cast_descriptor handle) not_a_message refl)

  pub descriptor_for-Safe :
      (o : py.Obj) (l : Option (LinkedRef py.Obj)) → Safe (descriptor_for py rt o l)
  unfolding descriptor_for
  descriptor_for-Safe o none = own_descriptor-Safe o
  descriptor_for-Safe o (some linked) = elim (Option-cases linked.desc) [
    | inl e ↦ rw (e, descriptor_for) (own_descriptor-Safe o)
    | inr (desc, e) ↦
        rw (e, descriptor_for)
          (Safe-if (rt.same (rt.get_type o) linked.class) returns (own_descriptor-Safe o))
  ]
