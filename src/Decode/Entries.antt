-- ===== src/Decode/Entries.antt =====
-- Map entries of src/decode/mod.rs, on any bytes.
use fastproto.Common.{
  ℕ, ◌+◌, ◌==◌, ◌&&◌, refl, Bool, true, false, Option, none, some, List, [], Result, ok, ◌>>=◌,
  map_err, Result-cases, inl, inr,
}
use fastproto.Common.Int.{pos}
use fastproto.Wire.Types.{WireType, varint, len, wire_eq}
use fastproto.Wire.Reader.{Reader, skip}
use fastproto.Wire.Progress.{Moved, Moved-trans, skip-Moved}
use fastproto.Wire.Steps.{read_tag-Steps, skip_ends}
use fastproto.Descriptor.Types.{ScalarType, MapValue, wire_type}
use fastproto.Message.Link.{LinkedRef, Handle}
use fastproto.Message.Class.{Descriptor}
use fastproto.Python.{Python, Runtime, CodecError, malformed}
use fastproto.Python.Safe.{Safe, returns, Safe-bind}
use fastproto.Python.Post.{
  Post, yields, throws, Post-Safe, Post-map, Post-if, Post-bind, Post-Steps, read_all-Post,
}
use fastproto.Decode.Values.{
  ReadObj, guarded, decode_map_value, Entry, skip_entry, pair_arm, pair_round, default_value,
  value_or_default, decode_map_entry,
}
use fastproto.Decode.Safety.{Reads, decode_scalar-Reads}
use fastproto.Decode.Calm.{
  to_datetime-Safe, to_timedelta-Safe, coerced-Safe, decode_datetime-Reads, decode_timedelta-Reads,
  decode_enum-Reads, decode_message_value-Safe, decode_child-Reads,
}

-- The reader of a skipped field.
pub skip-Post : (w : WireType) (r : Reader) → Post (λ r'. Moved r r') (map_err malformed (skip w r))
skip-Post w r = elim (Result-cases (skip w r)) [
  | inl (r', e) ↦ rw e (yields (skip-Moved w r r' e))
  | inr (inl (x, e)) ↦ rw e (throws refl)
  | inr (inr e) ↦ absurd (skip_ends w r e)
]

-- A step of a loop that began at a reader.
pub Reads-from :
    {A : Type 0} {r r₁ : Reader} {m : Result CodecError (A × Reader)}
    → Moved r r₁
    → Reads r₁ m
    → Reads r m
Reads-from h m = Post-map (λ p mv. Moved-trans h mv) m

module _ (py : Python) (rt : Runtime py) (heap : Handle → Descriptor py.Obj)
    (nested : py.Obj → Descriptor py.Obj → List ℕ → ℕ → Result CodecError py.Obj) (depth : ℕ)
    (safe : (cls : py.Obj) (h : Handle) (bytes : List ℕ)
      → Safe (nested cls (heap h) bytes (depth + 1))) where
  abbrev AllRead : Reader → Option (ReadObj py rt) → Type 0
  AllRead r none = Unit {0}
  AllRead r (some read) = Reads r read

  guarded-Reads :
      (b : Bool) (r : Reader) (read : ReadObj py rt) → Reads r read → AllRead r (guarded b read)
  guarded-Reads true r read h = h
  guarded-Reads false r read h = tt

  decode_map_value-AllRead :
      (kind : MapValue) (l : Option (LinkedRef py.Obj)) (w : WireType) (r : Reader)
      → AllRead r (decode_map_value py rt heap nested kind l depth w r)
  unfolding decode_map_value
  decode_map_value-AllRead (MapValue.scalar s) l w r =
      guarded-Reads (wire_eq w (wire_type s)) r _ (decode_scalar-Reads py s r)
  decode_map_value-AllRead MapValue.enum l w r =
      guarded-Reads (wire_eq w varint) r _ (decode_enum-Reads py rt l r)
  decode_map_value-AllRead MapValue.message l w r =
      guarded-Reads (wire_eq w len) r _ (decode_child-Reads py rt heap nested depth safe l r)
  decode_map_value-AllRead MapValue.timestamp l w r =
      guarded-Reads (wire_eq w len) r _ (decode_datetime-Reads py rt r)
  decode_map_value-AllRead MapValue.duration l w r =
      guarded-Reads (wire_eq w len) r _ (decode_timedelta-Reads py rt r)

  skip_entry-Reads :
      (entry : Entry py rt heap nested) (w : WireType) (r : Reader)
      → Reads r (skip_entry py rt heap nested entry w r)
  unfolding skip_entry
  skip_entry-Reads entry w r = Post-bind _ _ (skip-Post w r) (λ r' mv. yields mv)

  value_arm :
      (entry : Entry py rt heap nested) (w : WireType) (r : Reader) (o : Option (ReadObj py rt))
      → AllRead r o
      → Reads r (elim o [
        | some read ↦ read >>= λ p. ok ((entry.0, some p.0), p.1)
        | none ↦ skip_entry py rt heap nested entry w r
      ])
  value_arm entry w r (some read) h = Post-bind read _ h (λ p mv. yields mv)
  value_arm entry w r none h = skip_entry-Reads entry w r

  pair_arm-Reads :
      (key : ScalarType) (kind : MapValue) (l : Option (LinkedRef py.Obj))
      (entry : Entry py rt heap nested) (number : ℕ) (w : WireType) (r : Reader)
      → Reads r (pair_arm py rt heap nested key kind l depth entry number w r)
  unfolding pair_arm
  pair_arm-Reads key kind l (k, v) number w r =
      Post-if ((number == 1) && wire_eq w (wire_type key))
        (Post-bind _ _ (decode_scalar-Reads py key r) (λ p mv. yields mv))
        (Post-if (number == 2)
          (value_arm (k, v) w r (decode_map_value py rt heap nested kind l depth w r)
            (decode_map_value-AllRead kind l w r))
          (skip_entry-Reads (k, v) w r))

  pair_round-Reads :
      (key : ScalarType) (kind : MapValue) (l : Option (LinkedRef py.Obj))
      (entry : Entry py rt heap nested) (r : Reader)
      → Reads r (pair_round py rt heap nested key kind l depth entry r)
  unfolding pair_round
  pair_round-Reads key kind l entry r =
      Post-bind _ _ (Post-Steps (read_tag-Steps r))
        (λ p mv. Reads-from mv (pair_arm-Reads key kind l entry p.0.0 p.0.1 p.1))

  value_or_default-Safe :
      (kind : MapValue) (l : Option (LinkedRef py.Obj)) (o : Option py.Obj)
      → Safe (value_or_default py rt heap nested kind l depth o)
  unfolding value_or_default default_value
  value_or_default-Safe kind l (some v) = returns
  value_or_default-Safe (MapValue.scalar s) l none = returns
  value_or_default-Safe MapValue.enum l none = coerced-Safe py rt l (pos 0)
  value_or_default-Safe MapValue.message l none =
      decode_message_value-Safe py rt heap nested depth safe l []
  value_or_default-Safe MapValue.timestamp l none = to_datetime-Safe py rt (pos 0) (pos 0)
  value_or_default-Safe MapValue.duration l none = to_timedelta-Safe py rt (pos 0) (pos 0)

  pub decode_map_entry-Safe :
      (key : ScalarType) (kind : MapValue) (l : Option (LinkedRef py.Obj)) (entry : List ℕ)
      → Safe (decode_map_entry py rt heap nested key kind l entry depth)
  unfolding decode_map_entry
  decode_map_entry-Safe key kind l entry =
      Safe-bind _ _
        (Post-Safe (
          read_all-Post (λ e. Unit {0}) (pair_round py rt heap nested key kind l depth)
            (λ e r t. Post-map (λ p mv. (tt, mv)) (pair_round-Reads key kind l e r)) (none, none)
            entry tt))
        (λ kv e. Safe-bind _ _ (value_or_default-Safe kind l kv.1) (λ v e'. returns))
