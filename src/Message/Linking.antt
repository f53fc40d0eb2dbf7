-- ===== src/Message/Linking.antt =====
-- `link` of src/message/mod.rs, with what `build_linked_ref` asks of a class. A `OnceLock` that is set
-- keeps its value. The keys of the dict of an enum that are no integers are equal to none.
use fastproto.Common.{
  ◌==◌, if◌then◌else◌, true, Option, none, some, List, [], ◌∷◌, length, Result, ok, err, ◌>>=◌,
  ok_or,
}
use fastproto.Common.Utf8.{Text, codes}
use fastproto.Message.Link.{Members, LinkedRef, Refs, FastInit, Handle, build_linked_ref}
use fastproto.Message.Class.{Descriptor}
use fastproto.Python.{Python, Runtime, CodecError, extract_failed, raised, bad_defaults}

-- `set` of a `OnceLock`.
abbrev pub set_once : {A : Type 0} → Option A → A → Option A
set_once none new = some new
set_once (some old) new = some old

module _ (py : Python) (rt : Runtime py) where
  abbrev pub attribute_of : Option py.Obj → Text → Option py.Obj
  attribute_of none name = none
  attribute_of (some o) name = rt.getattr o name

  -- `class.__fastproto__`, if it is a descriptor.
  unfoldable pub descriptor_of : py.Obj → Option Handle
  descriptor_of class = elim (rt.getattr class (codes "__fastproto__")) [
    | none ↦ none
    | some handle ↦ rt.cast_descriptor handle
  ]

  unfoldable pub int_members : List (py.Obj × py.Obj) → Members py.Obj
  int_members [] = []
  int_members ((key, member) ∷ pairs) = elim (py.extract_i64 key) [
    | none ↦ int_members pairs
    | some value ↦ (value, member) ∷ int_members pairs
  ]

  abbrev pub member_pairs : Option py.Obj → Option (List (py.Obj × py.Obj))
  member_pairs none = none
  member_pairs (some map) = rt.cast_dict map

  -- The members of an enum class that keeps the default `_missing_`.
  unfoldable pub default_members :
      List (py.Obj × py.Obj) → py.Obj → py.Obj → Option (Members py.Obj)
  default_members pairs missing default_missing = elim (rt.getattr missing (codes "__func__")) [
    | none ↦ none
    | some f ↦ if rt.same f default_missing then some (int_members pairs) else none
  ]

  unfoldable pub enum_members : py.Obj → Result CodecError (Option (Members py.Obj))
  enum_members class = elim (member_pairs (rt.getattr class (codes "_value2member_map_"))) [
    | none ↦ ok none
    | some pairs ↦ elim (rt.getattr class (codes "_missing_")) [
      | none ↦ ok none
      | some missing ↦ do
        default_missing ← ok_or rt.enum_default_missing raised
        ok (default_members pairs missing default_missing)
    ]
  ]

  unfoldable pub inspect_class : py.Obj → Result CodecError (LinkedRef py.Obj)
  inspect_class class = elim (descriptor_of class) [
    | some handle ↦ ok (build_linked_ref class (rt.call_int class) (some handle) none)
    | none ↦ do
      members ← enum_members class
      ok (build_linked_ref class (rt.call_int class) none members)
  ]

  -- The loop over the mapping.
  unfoldable pub collect_linked :
      Refs py.Obj → List (py.Obj × py.Obj) → Result CodecError (Refs py.Obj)
  collect_linked refs [] = ok refs
  collect_linked refs ((key, class) ∷ mapping) = do
    number ← ok_or (py.extract_u32 key) extract_failed
    linked ← inspect_class class
    collect_linked ((number, linked) ∷ refs) mapping

  -- The class of the fast path, where the Python side gives one.
  unfoldable pub set_fast_init :
      Descriptor py.Obj → Option (FastInit py.Obj) → Result CodecError (Option (FastInit py.Obj))
  set_fast_init d none = ok d.fast_init
  set_fast_init d (some fast) =
      if length fast.defaults == length d.inner.fields
      then ok (set_once d.fast_init fast)
      else err bad_defaults

  unfoldable pub link :
      Descriptor py.Obj
      → List (py.Obj × py.Obj)
      → Option (FastInit py.Obj)
      → Result CodecError (Descriptor py.Obj)
  link d mapping fast = do
    refs ← collect_linked [] mapping
    fast_init ← set_fast_init d fast
    ok (record d { refs = set_once d.refs refs; linked = true; fast_init = fast_init })
