-- ===== src/Message/Link.antt =====
-- `LinkedRef`, `FastInit` and `build_linked_ref` of src/message/mod.rs. A `Py<Descriptor>` is a
-- number, the place of the descriptor among those of the process. The values of an enum are
-- integers; its dict is the list of its pairs, in their order. `class_call` is what a call of the
-- class on an integer gives.
use fastproto.Common.{
  ℕ, ltb, ◌==◌, if◌then◌else◌, Option, none, some, List, [], ◌∷◌, set, replicate, ◌⊎◌,
}
use fastproto.Common.Int.{ℤ, pos, negsuc}
use fastproto.Parse.Types.{int_eq}

abbrev pub enum_table_size : ℕ
enum_table_size = 64

-- What the call of an enum class raises: `ValueError`, or anything else.
pub data CallError : Type 0 where
  value_error other_error : CallError

module _ (Obj : Type 0) where
  abbrev pub Members : Type 0
  Members = List (ℤ × Obj)

  abbrev pub Table : Type 0
  Table = List (Option Obj)

abbrev pub Handle : Type 0
Handle = ℕ

pub record LinkedRef (Obj : Type 0) : Type 0 where
  pub class : Obj
  pub class_call : ℤ → CallError ⊎ Obj
  pub enum_map : Option (Members Obj)
  pub enum_table : Option (Table Obj)
  pub desc : Option Handle

-- `new_args` is the tuple of the class alone.
pub record FastInit (Obj : Type 0) : Type 0 where
  pub cls : Obj
  pub defaults : List Obj

-- `HashMap<u32, LinkedRef>`: the entry inserted last stands first.
abbrev pub Refs : Type 0 → Type 0
Refs Obj = List (ℕ × LinkedRef Obj)

module _ {Obj : Type 0} where
  -- The body of the loop over the dict: only a value below the size takes a slot.
  unfoldable pub store_member : Table Obj → ℤ → Obj → Table Obj
  store_member table (pos slot) member =
      if ltb slot enum_table_size then set table slot (some member) else table
  store_member table (negsuc n) member = table

  unfoldable pub fill_table : Table Obj → Members Obj → Table Obj
  fill_table table [] = table
  fill_table table ((value, member) ∷ members) =
      fill_table (store_member table value member) members

  -- `build_linked_ref`: the descriptor that the class carries under `__fastproto__`, or else the
  -- dict of its members, which is there where the class keeps the default `_missing_`.
  unfoldable pub build_linked_ref :
      Obj → (ℤ → CallError ⊎ Obj) → Option Handle → Option (Members Obj) → LinkedRef Obj
  build_linked_ref class call (some handle) found = record {
    class = class;
    class_call = call;
    enum_map = none;
    enum_table = none;
    desc = some handle;
  }
  build_linked_ref class call none none = record {
    class = class;
    class_call = call;
    enum_map = none;
    enum_table = none;
    desc = none;
  }
  build_linked_ref class call none (some members) = record {
    class = class;
    class_call = call;
    enum_map = some members;
    enum_table = some (fill_table (replicate enum_table_size none) members);
    desc = none;
  }

  -- `get_item` of the dict.
  unfoldable pub get_item : Members Obj → ℤ → Option Obj
  get_item [] value = none
  get_item ((key, member) ∷ members) value =
      if int_eq key value then some member else get_item members value

  -- `r.get(&number)`
  unfoldable pub get_ref : Refs Obj → ℕ → Option (LinkedRef Obj)
  get_ref [] number = none
  get_ref ((key, linked) ∷ refs) number = if key == number then some linked else get_ref refs number
