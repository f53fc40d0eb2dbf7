-- ===== src/Decode/Slots.antt =====
-- The values that `decode_message` of src/decode/mod.rs collects per field. The list of a repeated
-- field and the dict of a map stand in their slot while they grow.
use fastproto.Common.{
  ℕ, ltb, ◌==◌, if◌then◌else◌, Option, none, some, List, [], ◌∷◌, get_elem?, length, set, Result,
  ok, err, ◌>>=◌,
}
use fastproto.Common.Utf8.{Text}
use fastproto.Common.Text.{text_eq}
use fastproto.Descriptor.Types.{FieldKind, Label, optional, repeated, FieldDescriptor}
use fastproto.Python.{Python, Runtime, CodecError, panicked}

pub data Slot (Obj : Type 0) : Type 0 where
  absent : Slot Obj
  present : Obj → Slot Obj
  list_slot : List Obj → Slot Obj
  dict_slot : List (Obj × Obj) → Slot Obj

-- `values`, `unknown` and `oneof_owner`; the entry inserted last stands first.
pub record Collected (Obj : Type 0) : Type 0 where
  pub values : List (Slot Obj)
  pub unknown : List ℕ
  pub owner : List (ℕ × ℕ)

module _ {Obj : Type 0} where
  unfoldable pub accumulator : FieldKind → Label → Slot Obj
  accumulator (FieldKind.map_of k v) label = dict_slot []
  accumulator _ repeated = list_slot []
  accumulator _ _ = absent

  unfoldable pub accumulators : List FieldDescriptor → List (Slot Obj)
  accumulators [] = []
  accumulators (f ∷ fs) = accumulator f.kind f.label ∷ accumulators fs

  -- `values[idx] = slot`: a panic out of bounds.
  unfoldable pub put : List (Slot Obj) → ℕ → Slot Obj → Result CodecError (List (Slot Obj))
  put values idx slot = if ltb idx (length values) then ok (set values idx slot) else err panicked

  -- `values[idx].as_ref().unwrap().cast().unwrap()`, for a dict and for a list.
  unfoldable pub dict_at : List (Slot Obj) → ℕ → Result CodecError (List (Obj × Obj))
  dict_at values idx = elim (get_elem? values idx) [
    | some (dict_slot pairs) ↦ ok pairs
    | _ ↦ err panicked
  ]

  unfoldable pub list_at : List (Slot Obj) → ℕ → Result CodecError (List Obj)
  list_at values idx = elim (get_elem? values idx) [
    | some (list_slot items) ↦ ok items
    | _ ↦ err panicked
  ]

-- `get` of the map of the owners.
unfoldable pub owner_of : List (ℕ × ℕ) → ℕ → Option ℕ
owner_of [] group = none
owner_of ((g, idx) ∷ owner) group = if g == group then some idx else owner_of owner group

module _ {Obj : Type 0} where
  -- `if prev != idx { values[prev] = None }`
  unfoldable pub clear_other : Option ℕ → ℕ → List (Slot Obj) → Result CodecError (List (Slot Obj))
  clear_other none idx values = ok values
  clear_other (some prev) idx values = if prev == idx then ok values else put values prev absent

  -- A oneof member about to be set takes its group over.
  unfoldable pub take_group :
      Option ℕ → Label → ℕ → Collected Obj → Result CodecError (Collected Obj)
  take_group (some group) optional idx s = do
    values' ← clear_other (owner_of s.owner group) idx s.values
    ok (record { values = values'; unknown = s.unknown; owner = (group, idx) ∷ s.owner })
  take_group _ _ idx s = ok s

-- `kwargs.set_item(name, value)`: a name that is there already gets the new value.
unfoldable pub set_kwarg : {Obj : Type 0} → List (Text × Obj) → Text → Obj → List (Text × Obj)
set_kwarg [] name value = (name, value) ∷ []
set_kwarg ((n, v) ∷ kwargs) name value =
    let rest = set_kwarg kwargs name value in
    if text_eq n name then (n, value) ∷ kwargs else (n, v) ∷ rest

module _ (py : Python) (rt : Runtime py) where
  -- `value.take()`
  unfoldable pub taken : Slot py.Obj → Option py.Obj
  taken absent = none
  taken (present o) = some o
  taken (list_slot items) = some (rt.from_list items)
  taken (dict_slot pairs) = some (rt.from_dict pairs)
