-- ===== src/Decode/Enum.antt =====
-- `coerce_enum` of src/decode/mod.rs.
use fastproto.Common.{Option, none, some, Result, ok, err, inl, inr, get_elem?}
use fastproto.Common.Int.{ℤ, as_u64}
use fastproto.Message.Link.{CallError, value_error, other_error, LinkedRef, get_item}

module _ {Obj : Type 0} (from_int : ℤ → Obj) where
  -- The dict, or the call of the class where there is none.
  unfoldable pub by_class : LinkedRef Obj → ℤ → Result CallError Obj
  by_class linked value = elim linked.enum_map [
    | some members ↦ elim (get_item members value) [
      | some member ↦ ok member
      | none ↦ ok (from_int value)
    ]
    | none ↦ elim (linked.class_call value) [
      | inr member ↦ ok member
      | inl value_error ↦ ok (from_int value)
      | inl other_error ↦ err other_error
    ]
  ]

  -- `table.get(value as usize)` comes first: a negative number is past every table.
  unfoldable pub coerce_enum : Option (LinkedRef Obj) → ℤ → Result CallError Obj
  coerce_enum none value = ok (from_int value)
  coerce_enum (some linked) value = elim linked.enum_table [
    | none ↦ by_class linked value
    | some table ↦ elim (get_elem? table (as_u64 value)) [
      | some (some member) ↦ ok member
      | some none ↦ ok (from_int value)
      | none ↦ by_class linked value
    ]
  ]
