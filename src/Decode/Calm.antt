-- ===== src/Decode/Calm.antt =====
-- Times, enum values, repeated fields and map entries of src/decode/mod.rs move the cursor on, and
-- end without a panic, where the messages one level deeper do.
use fastproto.Common.{
  ℕ, ◌+◌, ◌≡◌, ◌≢◌, refl, false, Option, none, some, Option-cases, inl, inr, List, [], ◌∷◌, ◌++◌,
  Result, ok, err, out_of_fuel, ◌>>=◌, map_err, if_ends, ok_ends, err_ends, get_elem?, ◌⊎◌,
}
use fastproto.Common.Int.{ℤ, as_i32, as_u64}
use fastproto.Wire.Types.{WireType, varint, len, wire_eq}
use fastproto.Wire.Reader.{Reader, read_len_delimited}
use fastproto.Wire.Progress.{Moved}
use fastproto.Descriptor.Types.{is_map, FieldKind, wire_type, is_packable}
use fastproto.WellKnown.Parts.{parts_to_datetime, parts_to_timedelta}
use fastproto.WellKnown.Codec.{decode_parts}
use fastproto.WellKnown.RoundTrip.{decode_parts_ends}
use fastproto.Message.Link.{CallError, value_error, other_error, LinkedRef, Handle, get_item}
use fastproto.Message.Class.{Descriptor}
use fastproto.Python.{Python, Runtime, CodecError, malformed, not_in_range, not_a_message, raised}
use fastproto.Python.Safe.{Safe, raises, Safe-bind, Safe-if, Safe-ok_or, Safe-map_err}
use fastproto.Python.Post.{Post, yields, Post-any, Post-if, Post-bind, read_all-Post}
use fastproto.Decode.Scalars.{checked}
use fastproto.Decode.Enum.{by_class, coerce_enum}
use fastproto.Decode.Values.{
  from_call, to_datetime, to_timedelta, decode_datetime, decode_timedelta, coerced, decode_enum,
  enum_round, decode_message_value, decode_child, decode_repeated,
}
use fastproto.Decode.Safety.{
  Reads, Reads-then, varint-Reads, chunk-Reads, decode_scalar-Reads, decode_packed-Reads,
}

by_class_ends :
    {Obj : Type 0} (from_int : ℤ → Obj) (l : LinkedRef Obj) (v : ℤ)
    → by_class from_int l v ≢ out_of_fuel
unfolding by_class
by_class_ends {Obj = Obj} from_int l v = elim (Option-cases l.enum_map) [
  | inr (members, e) ↦ elim (Option-cases (get_item members v)) [
    | inr (m, e') ↦ rw (e, e', by_class) (ok_ends m)
    | inl e' ↦ rw (e, e', by_class) (ok_ends (from_int v))
  ]
  | inl e ↦ rw (e, by_class) (called (l.class_call v))
]
  where
    called :
        (r : CallError ⊎ Obj)
        → ◌≢◌ {A = Result CallError Obj}
            (elim r [
              | inr member ↦ ok member
              | inl value_error ↦ ok (from_int v)
              | inl other_error ↦ err other_error
            ])
            out_of_fuel
    called (inr member) = ok_ends member
    called (inl value_error) = ok_ends (from_int v)
    called (inl other_error) = err_ends other_error

coerce_enum_ends :
    {Obj : Type 0} (from_int : ℤ → Obj) (l : Option (LinkedRef Obj)) (v : ℤ)
    → coerce_enum from_int l v ≢ out_of_fuel
unfolding coerce_enum
coerce_enum_ends from_int none v = ok_ends (from_int v)
coerce_enum_ends from_int (some l) v = elim (Option-cases l.enum_table) [
  | inl e ↦ rw (e, coerce_enum) (by_class_ends from_int l v)
  | inr (table, e) ↦ elim (Option-cases (get_elem? table (as_u64 v))) [
    | inl e' ↦ rw (e, e', coerce_enum) (by_class_ends from_int l v)
    | inr (none, e') ↦ rw (e, e', coerce_enum) (ok_ends (from_int v))
    | inr (some member, e') ↦ rw (e, e', coerce_enum) (ok_ends member)
  ]
]

module _ (py : Python) (rt : Runtime py) where
  pub to_datetime-Safe : (secs nanos : ℤ) → Safe (to_datetime py rt secs nanos)
  unfolding to_datetime parts_to_datetime
  to_datetime-Safe secs nanos =
      Safe-bind _ _
        (Safe-map_err not_in_range _ (if_ends _ _ _ (err_ends _) (ok_ends _)) (λ e. refl))
        (λ made e. Safe-ok_or made raised refl)

  pub to_timedelta-Safe : (secs nanos : ℤ) → Safe (to_timedelta py rt secs nanos)
  unfolding to_timedelta parts_to_timedelta
  to_timedelta-Safe secs nanos =
      Safe-bind _ _
        (Safe-map_err not_in_range _ (if_ends _ _ _ (err_ends _) (ok_ends _)) (λ e. refl))
        (λ made e. Safe-ok_or made raised refl)

  pub coerced-Safe : (l : Option (LinkedRef py.Obj)) (v : ℤ) → Safe (coerced py rt l v)
  unfolding coerced
  coerced-Safe l v =
      Safe-map_err from_call (coerce_enum py.from_int l v) (coerce_enum_ends py.from_int l v)
        (λ e. refl)

  -- A time behind its length.
  time-Reads :
      (r : Reader) (g : ℤ → ℤ → Result CodecError py.Obj)
      → ((secs nanos : ℤ) → Safe (g secs nanos))
      → Reads r (
          checked (read_len_delimited r) >>= λ p.
          map_err malformed (decode_parts p.0) >>= λ parts. g parts.0 parts.1 >>= λ o. ok (o, p.1))
  time-Reads r g h = Post-bind _ _ (chunk-Reads r) λ p mv.
      Post-bind _ _
        (Post-any (Safe-map_err malformed (decode_parts p.0) (decode_parts_ends p.0) (λ e. refl)))
        λ parts t. Post-bind _ _ (Post-any (h parts.0 parts.1)) (λ o t'. yields mv)

  pub decode_datetime-Reads : (r : Reader) → Reads r (decode_datetime py rt r)
  unfolding decode_datetime
  decode_datetime-Reads r = time-Reads r (to_datetime py rt) to_datetime-Safe

  pub decode_timedelta-Reads : (r : Reader) → Reads r (decode_timedelta py rt r)
  unfolding decode_timedelta
  decode_timedelta-Reads r = time-Reads r (to_timedelta py rt) to_timedelta-Safe

  pub decode_enum-Reads :
      (l : Option (LinkedRef py.Obj)) (r : Reader) → Reads r (decode_enum py rt l r)
  unfolding decode_enum
  decode_enum-Reads l r =
      Reads-then _ (λ raw. coerced py rt l (as_i32 raw)) (varint-Reads r)
        (λ raw. coerced-Safe l (as_i32 raw))

  enum_round-Reads :
      (l : Option (LinkedRef py.Obj)) (list : List py.Obj) (r : Reader)
      → Post (λ p. Unit {0} × Moved r p.1) (enum_round py rt l list r)
  unfolding enum_round
  enum_round-Reads l list r = Post-bind _ _ (decode_enum-Reads l r) (λ p mv. yields (tt, mv))

  -- A repeated field that was taken moved the cursor.
  abbrev pub TakenFrom : Reader → Option (List py.Obj × Reader) → Type 0
  TakenFrom r none = Unit
  TakenFrom r (some (list, r')) = Moved r r'

  abbrev pub Handles : Reader → Result CodecError (Option (List py.Obj × Reader)) → Type 0
  Handles r m = Post (TakenFrom r) m

  item-Handles :
      (r : Reader) (list : List py.Obj) (m : Result CodecError (py.Obj × Reader))
      → Reads r m
      → Handles r (m >>= λ p. ok (some (list ++ (p.0 ∷ []), p.1)))
  item-Handles r list m h = Post-bind m _ h (λ p mv. yields mv)

  module _ (heap : Handle → Descriptor py.Obj)
      (nested : py.Obj → Descriptor py.Obj → List ℕ → ℕ → Result CodecError py.Obj) (depth : ℕ)
      (safe : (cls : py.Obj) (h : Handle) (bytes : List ℕ)
        → Safe (nested cls (heap h) bytes (depth + 1))) where
    pub decode_message_value-Safe :
        (l : Option (LinkedRef py.Obj)) (bytes : List ℕ)
        → Safe (decode_message_value py rt heap nested l bytes depth)
    unfolding decode_message_value
    decode_message_value-Safe none bytes = raises refl
    decode_message_value-Safe (some l) bytes =
        Safe-if (rt.is_type l.class)
          (Safe-bind _ _ (Safe-ok_or l.desc not_a_message refl) (λ h e. safe l.class h bytes))
          (raises refl)

    pub decode_child-Reads :
        (l : Option (LinkedRef py.Obj)) (r : Reader)
        → Reads r (decode_child py rt heap nested l depth r)
    unfolding decode_child
    decode_child-Reads l r =
        Reads-then _ (λ sub. decode_message_value py rt heap nested l sub depth) (chunk-Reads r)
          (λ sub. decode_message_value-Safe l sub)

    pub decode_repeated-Handles :
        (kind : FieldKind) (l : Option (LinkedRef py.Obj)) (w : WireType) (r : Reader)
        (list : List py.Obj)
        → is_map kind ≡ false
        → Handles r (decode_repeated py rt heap nested kind l w r list depth)
    unfolding decode_repeated
    decode_repeated-Handles (FieldKind.scalar s) l w r list h =
        Post-if (is_packable s)
          (Post-if (wire_eq w len)
            (Post-bind _ _ (decode_packed-Reads py s list r) (λ p mv. yields mv))
            (Post-if (wire_eq w (wire_type s)) (item-Handles r list _ (decode_scalar-Reads py s r))
              (yields tt)))
          (Post-if (wire_eq w len) (item-Handles r list _ (decode_scalar-Reads py s r)) (yields tt))
    decode_repeated-Handles FieldKind.enum l w r list h =
        Post-if (wire_eq w len)
          (Post-bind _ _ (chunk-Reads r) λ p mv.
            Post-bind _ _
              (read_all-Post (λ x. Unit {0}) (enum_round py rt l)
                (λ x r' t. enum_round-Reads l x r') list p.0 tt)
              (λ x t. yields mv))
          (Post-if (wire_eq w varint) (item-Handles r list _ (decode_enum-Reads l r)) (yields tt))
    decode_repeated-Handles FieldKind.message l w r list h =
        Post-if (wire_eq w len) (item-Handles r list _ (decode_child-Reads l r)) (yields tt)
    decode_repeated-Handles FieldKind.timestamp l w r list h =
        Post-if (wire_eq w len) (item-Handles r list _ (decode_datetime-Reads r)) (yields tt)
    decode_repeated-Handles FieldKind.duration l w r list h =
        Post-if (wire_eq w len) (item-Handles r list _ (decode_timedelta-Reads r)) (yields tt)
    decode_repeated-Handles (FieldKind.map_of k v) l w r list h = cc
