-- ===== src/Decode/EnumTable.antt =====
-- The member table of an enum (src/message/mod.rs) gives what its dict gives.
use fastproto.Common.{
  ◌⊎◌, ℕ, zero, suc, ◌<◌, ◌≤◌, ◌≡◌, refl, ap, sym, ◌∙◌, ltb, ltb→lt, ltb→le, ◌==◌, ==→eq, true,
  Option-cases, Bool-cases, inl, inr, if◌then◌else◌, Option, none, some, [], ◌∷◌, get_elem?, set,
  length, length-set, length-replicate, ne→==, replicate, ok, arith,
}
use fastproto.Common.Int.{ℤ, pos, negsuc, as_u64, IsI32}
use fastproto.Parse.Types.{int_eq}
use fastproto.Message.Link.{
  Members, Table, CallError, enum_table_size, store_member, fill_table, build_linked_ref, get_item,
}
use fastproto.Decode.Enum.{by_class, coerce_enum}

int_eq→eq : (a b : ℤ) → int_eq a b ≡ true → a ≡ b
int_eq→eq (pos a) (pos b) h = ap pos (==→eq a b h)
int_eq→eq (pos a) (negsuc b) h = cc
int_eq→eq (negsuc a) (pos b) h = cc
int_eq→eq (negsuc a) (negsuc b) h = ap negsuc (==→eq a b h)

module _ {Obj : Type 0} where
  -- A dict has a value once.
  abbrev pub Distinct : Members Obj → Type 0
  Distinct [] = Unit
  Distinct ((value, member) ∷ members) = (get_item members value ≡ none) × Distinct members

  -- What the dict alone gives: the member, or the bare number.
  abbrev pub from_dict : (ℤ → Obj) → Members Obj → ℤ → Obj
  from_dict from_int members value = elim (get_item members value) [
    | some member ↦ member
    | none ↦ from_int value
  ]

  abbrev or_else : Option Obj → Option Obj → Option Obj
  or_else (some x) y = some x
  or_else none y = y

  abbrev slot : Table Obj → ℕ → Option Obj
  slot [] n = none
  slot (e ∷ table) zero = e
  slot (e ∷ table) (suc n) = slot table n

  get_elem?-slot :
      (table : Table Obj) (n : ℕ) → n < length table → get_elem? table n ≡ some (slot table n)
  get_elem?-slot [] n h = absurd (omega arith)
  get_elem?-slot (e ∷ table) zero h = refl
  get_elem?-slot (e ∷ table) (suc n) h = get_elem?-slot table n (omega arith)

  get_elem?-past : (table : Table Obj) (n : ℕ) → length table ≤ n → get_elem? table n ≡ none
  get_elem?-past [] n h = refl
  get_elem?-past (e ∷ table) zero h = absurd (omega arith)
  get_elem?-past (e ∷ table) (suc n) h = get_elem?-past table n (omega arith)

  slot-set :
      (table : Table Obj) (i n : ℕ) (x : Option Obj)
      → i < length table
      → slot (set table i x) n ≡ (if i == n then x else slot table n)
  slot-set [] i n x h = absurd (omega arith)
  slot-set (e ∷ table) zero zero x h = refl
  slot-set (e ∷ table) zero (suc n) x h = ground arith
  slot-set (e ∷ table) (suc i) zero x h = ground arith
  slot-set (e ∷ table) (suc i) (suc n) x h = ground (arith, slot-set table i n x)

  length-store_member :
      (table : Table Obj) (value : ℤ) (x : Obj) → length (store_member table value x) ≡ length table
  unfolding store_member
  length-store_member table (pos i) x = elim (Bool-cases (ltb i enum_table_size)) [
    | inl e ↦ rw e (length-set table i (some x))
    | inr e ↦ rw e refl
  ]
  length-store_member table (negsuc i) x = refl

  -- The slot of a small number behind one round of the loop.
  slot-store_member :
      (table : Table Obj) (value : ℤ) (x : Obj) (n : ℕ)
      → length table ≡ enum_table_size
      → n < enum_table_size
      → slot (store_member table value x) n
        ≡ (if int_eq value (pos n) then some x else slot table n)
  unfolding store_member
  slot-store_member table (negsuc i) x n size small = refl
  slot-store_member table (pos i) x n size small = elim (Bool-cases (ltb i enum_table_size)) [
    | inl e ↦ rw e (slot-set table i n (some x) (omega (arith, ltb→lt i enum_table_size e)))
    | inr e ↦ rw (e, ne→== i n (λ same. absurd (omega (arith, ltb→le i enum_table_size e)))) refl
  ]

  slot-fill_table :
      (table : Table Obj) (members : Members Obj) (n : ℕ)
      → Distinct members
      → length table ≡ enum_table_size
      → n < enum_table_size
      → slot (fill_table table members) n ≡ or_else (get_item members (pos n)) (slot table n)
  unfolding fill_table get_item
  slot-fill_table table [] n distinct size small = refl
  slot-fill_table table ((value, x) ∷ members) n (once, distinct) size small =
      slot-fill_table (store_member table value x) members n distinct
        (length-store_member table value x ∙ size) small
      ∙ rw (slot-store_member table value x n size small)
          (elim (Bool-cases (int_eq value (pos n))) [
            | inl e ↦
                let none_later : get_item members (pos n) ≡ none =
                  rw (sym (int_eq→eq value (pos n) e)) once in
                rw (e, none_later, get_item) refl
            | inr e ↦ rw (e, get_item) refl
          ])

  length-fill_table :
      (table : Table Obj) (members : Members Obj) → length (fill_table table members) ≡ length table
  unfolding fill_table
  length-fill_table table [] = refl
  length-fill_table table ((value, x) ∷ members) =
      length-fill_table (store_member table value x) members ∙ length-store_member table value x

  slot-replicate : (k n : ℕ) → slot (replicate k none) n ≡ none
  slot-replicate zero n = refl
  slot-replicate (suc k) zero = refl
  slot-replicate (suc k) (suc n) = slot-replicate k n

  or_else-none : (o : Option Obj) → or_else o none ≡ o
  or_else-none none = refl
  or_else-none (some x) = refl

  -- The table that is built for a dict.
  abbrev built : Members Obj → Table Obj
  built members = fill_table (replicate enum_table_size none) members

  length-built : (members : Members Obj) → length (built members) ≡ enum_table_size
  length-built members =
      length-fill_table (replicate enum_table_size none) members
      ∙ length-replicate {A = Option Obj} enum_table_size none

  get_elem?-built :
      (members : Members Obj) (n : ℕ)
      → Distinct members
      → n < enum_table_size
      → get_elem? (built members) n ≡ some (get_item members (pos n))
  get_elem?-built members n distinct small =
      get_elem?-slot (built members) n (omega (arith, length-built members))
      ∙ ap some (
          slot-fill_table (replicate enum_table_size none) members n distinct
            (length-replicate {A = Option Obj} enum_table_size none) small
          ∙ rw (slot-replicate enum_table_size n) (or_else-none (get_item members (pos n))))

module _ {Obj : Type 0} (from_int : ℤ → Obj) (class : Obj) (call : ℤ → CallError ⊎ Obj)
    (members : Members Obj) where
  by_class-dict :
      (value : ℤ)
      → by_class from_int (build_linked_ref class call none (some members)) value
        ≡ ok (from_dict from_int members value)
  unfolding by_class build_linked_ref
  by_class-dict value = elim (Option-cases (get_item members value)) [
    | inl e ↦ rw (e, by_class, from_dict) refl
    | inr (x, e) ↦ rw (e, by_class, from_dict) refl
  ]

  by_table :
      (value : ℤ)
      → get_elem? (built members) (as_u64 value) ≡ some (get_item members value)
      → coerce_enum from_int (some (build_linked_ref class call none (some members))) value
        ≡ ok (from_dict from_int members value)
  unfolding coerce_enum build_linked_ref
  by_table value h = elim (Option-cases (get_item members value)) [
    | inl e ↦ rw (h, e, coerce_enum, from_dict) refl
    | inr (x, e) ↦ rw (h, e, coerce_enum, from_dict) refl
  ]

  past_table :
      (value : ℤ)
      → enum_table_size ≤ as_u64 value
      → coerce_enum from_int (some (build_linked_ref class call none (some members))) value
        ≡ ok (from_dict from_int members value)
  unfolding coerce_enum build_linked_ref
  past_table value h =
      rw
        (
          get_elem?-past (built members) (as_u64 value) (omega (arith, length-built members)),
          coerce_enum,
        )
        (by_class-dict value)

-- With the member table in front, an enum value is coerced to what the dict of the members alone
-- gives, the member or the bare number: for every i32, negative ones too, and every dict, which
-- has no value twice.
pub coerce_enum-from_dict :
    {Obj : Type 0} (from_int : ℤ → Obj) (class : Obj) (call : ℤ → CallError ⊎ Obj)
    (members : Members Obj) (value : ℤ)
    → Distinct members
    → IsI32 value
    → coerce_enum from_int (some (build_linked_ref class call none (some members))) value
      ≡ ok (from_dict from_int members value)
coerce_enum-from_dict from_int class call members (negsuc n) distinct h =
    past_table from_int class call members (negsuc n) (omega arith)
coerce_enum-from_dict from_int class call members (pos n) distinct h =
    elim (Bool-cases (ltb n enum_table_size)) [
      | inl e ↦
          let same : as_u64 (pos n) ≡ n = omega arith in
          by_table from_int class call members (pos n)
            (rw same (get_elem?-built members n distinct (ltb→lt n enum_table_size e)))
      | inr e ↦
          past_table from_int class call members (pos n) (omega (arith, ltb→le n enum_table_size e))
    ]
