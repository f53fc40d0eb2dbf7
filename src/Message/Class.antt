-- ===== src/Message/Class.antt =====
-- `Descriptor` of src/message/mod.rs: `compile`, and what the Python side asks of a compiled
-- message when it links classes. `names` is the field `field_names`; `last_size`, which only
-- sizes buffers, is left out.
use fastproto.Common.{
  ℕ, zero, suc, ◌+◌, ◌||◌, if◌then◌else◌, Bool, true, false, Option, none, some, List, [], ◌∷◌,
  ◌++◌, map, Result, ok, ◌>>=◌,
}
use fastproto.Common.Utf8.{Text}
use fastproto.Descriptor.Types.{
  FieldKind, MapValue, Label, repeated, FieldDescriptor, MessageDescriptor, is_map,
}
use fastproto.Descriptor.Index.{FieldIndex, build}
use fastproto.Parse.Types.{ParseError}
use fastproto.Parse.Message.{parse_message}
use fastproto.Message.Link.{Refs, FastInit}

pub record Descriptor (Obj : Type 0) : Type 0 where
  pub inner : MessageDescriptor
  pub names : List Text
  pub field_index : FieldIndex
  pub refs : Option (Refs Obj)
  pub linked : Bool
  pub fast_init : Option (FastInit Obj)

abbrev pub name_of : FieldDescriptor → Text
name_of f = f.name

unfoldable pub compile : {Obj : Type 0} → List ℕ → Result ParseError (Descriptor Obj)
compile bytes = do
  inner ← parse_message bytes
  ok (record {
    inner = inner;
    names = map name_of inner.fields;
    field_index = build inner.fields;
    refs = none;
    linked = false;
    fast_init = none;
  })

abbrev pub is_linked : {Obj : Type 0} → Descriptor Obj → Bool
is_linked d = d.linked

unfoldable pub field_names : {Obj : Type 0} → Descriptor Obj → List Text
field_names d = map name_of d.inner.fields

abbrev pub is_repeated : Label → Bool
is_repeated repeated = true
is_repeated _ = false

-- The indices of the repeated fields and the maps, from index `i` on.
unfoldable pub collections_from : ℕ → List FieldDescriptor → List ℕ
collections_from i [] = []
collections_from i (f ∷ fs) =
    let rest = collections_from (i + 1) fs in
    if is_map f.kind || is_repeated f.label then i ∷ rest else rest

unfoldable pub collection_fields : {Obj : Type 0} → Descriptor Obj → List ℕ
collection_fields d = collections_from 0 d.inner.fields

-- Whether a field refers to a class.
unfoldable pub needs_class : FieldKind → Bool
needs_class FieldKind.enum = true
needs_class FieldKind.message = true
needs_class (FieldKind.map_of k MapValue.enum) = true
needs_class (FieldKind.map_of k MapValue.message) = true
needs_class _ = false

unfoldable pub refs_of : FieldDescriptor → List (ℕ × Text)
refs_of f = elim f.type_name [
  | none ↦ []
  | some name ↦ if needs_class f.kind then (f.number, name) ∷ [] else []
]

unfoldable pub collect_refs : List FieldDescriptor → List (ℕ × Text)
collect_refs [] = []
collect_refs (f ∷ fs) = refs_of f ++ collect_refs fs

unfoldable pub ref_fields : {Obj : Type 0} → Descriptor Obj → List (ℕ × Text)
ref_fields d = collect_refs d.inner.fields

abbrev pub Groups : Type 0
Groups = List (Text × List Text)

abbrev pub no_members : Text → Text × List Text
no_members name = (name, [])

-- `groups[idx as usize].1.push(f.name.clone())`: none where the index is out of bounds, where the
-- program panics.
unfoldable pub push_member : Groups → ℕ → Text → Option Groups
push_member [] idx name = none
push_member ((group, members) ∷ groups) zero name = some ((group, members ++ (name ∷ [])) ∷ groups)
push_member (g ∷ groups) (suc idx) name = elim (push_member groups idx name) [
  | none ↦ none
  | some groups' ↦ some (g ∷ groups')
]

-- The loop of `oneofs` over the fields.
unfoldable pub fill_groups : Groups → List FieldDescriptor → Option Groups
fill_groups groups [] = some groups
fill_groups groups (f ∷ fs) = elim f.oneof_index [
  | none ↦ fill_groups groups fs
  | some idx ↦ elim (push_member groups idx f.name) [
    | none ↦ none
    | some groups' ↦ fill_groups groups' fs
  ]
]

unfoldable pub oneofs : {Obj : Type 0} → Descriptor Obj → Option Groups
oneofs d = fill_groups (map no_members d.inner.oneofs) d.inner.fields
