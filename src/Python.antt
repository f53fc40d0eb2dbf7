-- ===== src/Python.antt =====
-- What the codec asks of Python objects through PyO3: extraction of Rust values from an object
-- (`value.extract`, `value.cast`), which fails where PyO3 raises, and objects for Rust values
-- (`into_pyobject`, `PyBytes::new`). A float stands as its IEEE 754 bits.
pub mod Safe
pub mod Post
pub mod Values
use fastproto.Common.{ℕ, ◌%◌, ◌^◌, ◌≤◌, ◌<◌, ◌≡◌, ◌⊎◌, Bool, true, Option, some, List}
use fastproto.Common.Int.{ℤ, pos, IsI32, IsI64}
use fastproto.Common.Utf8.{Text, is_utf8}
use fastproto.Wire.Types.{WireError}
use fastproto.WellKnown.Parts.{Timedelta, RangeError}
use fastproto.Message.Link.{CallError}

pub record Python : Type 1 where
  pub Obj : Type 0
  pub extract_i32 : Obj → Option ℤ
  pub extract_i64 : Obj → Option ℤ
  pub extract_u32 : Obj → Option ℕ
  pub extract_u64 : Obj → Option ℕ
  pub extract_bool : Obj → Option Bool
  pub extract_f32 : Obj → Option ℕ
  pub extract_f64 : Obj → Option ℕ
  -- Whether an object is a `str`, and its UTF-8 bytes, which one with a lone surrogate has not.
  pub is_str : Obj → Bool
  pub cast_str : Obj → Option Text
  pub cast_bytes : Obj → Option (List ℕ)
  pub cast_bytearray : Obj → Option (List ℕ)
  pub from_int : ℤ → Obj
  pub from_bool : Bool → Obj
  pub from_f32 : ℕ → Obj
  pub from_f64 : ℕ → Obj
  pub from_str : Text → Obj
  pub from_bytes : List ℕ → Obj

-- The bits of a number, not of a NaN.
abbrev pub IsF32 : ℕ → Type 0
IsF32 b = (b < 2 ^ 32) × (b % 2 ^ 31 ≤ 0x7f800000)

abbrev pub IsF64 : ℕ → Type 0
IsF64 b = (b < 2 ^ 64) × (b % 2 ^ 63 ≤ 0x7ff0000000000000)

-- What PyO3 documents: an object that was made of a value gives the value back, where it fits the
-- type that is asked for; an `f32` is exact as a Python float.
pub record Converts (py : Python) : Type 0 where
  pub i32_int : (i : ℤ) → IsI32 i → py.extract_i32 (py.from_int i) ≡ some i
  pub i64_int : (i : ℤ) → IsI64 i → py.extract_i64 (py.from_int i) ≡ some i
  pub u32_int : (n : ℕ) → n < 2 ^ 32 → py.extract_u32 (py.from_int (pos n)) ≡ some n
  pub u64_int : (n : ℕ) → n < 2 ^ 64 → py.extract_u64 (py.from_int (pos n)) ≡ some n
  pub bool_bool : (b : Bool) → py.extract_bool (py.from_bool b) ≡ some b
  pub f32_f32 : (b : ℕ) → IsF32 b → py.extract_f32 (py.from_f32 b) ≡ some b
  pub f64_f64 : (b : ℕ) → IsF64 b → py.extract_f64 (py.from_f64 b) ≡ some b
  pub f32_zero : py.extract_f32 (py.from_f64 0) ≡ some 0
  pub str_str : (t : Text) → is_utf8 t ≡ true → py.cast_str (py.from_str t) ≡ some t
  pub bytes_bytes : (b : List ℕ) → py.cast_bytes (py.from_bytes b) ≡ some b

-- What a message needs of Python beyond its scalars. A call that raises gives none. The calls run
-- while no other code changes the objects, so each is a function of its arguments; a descriptor
-- that an object is stands as its place among those of the process.
pub record Runtime (py : Python) : Type 0 where
  pub getattr : py.Obj → Text → Option py.Obj
  pub is_none : py.Obj → Bool
  pub get_type : py.Obj → py.Obj
  -- `is`
  pub same : py.Obj → py.Obj → Bool
  pub is_type : py.Obj → Bool
  -- A class called with an integer, and `enum.Enum._missing_.__func__`.
  pub call_int : py.Obj → ℤ → CallError ⊎ py.Obj
  pub enum_default_missing : Option py.Obj
  pub cast_descriptor : py.Obj → Option ℕ
  pub cast_list : py.Obj → Option (List py.Obj)
  pub cast_tuple : py.Obj → Option (List py.Obj)
  -- What the calls of `next` on an iterator give, the first one at 0: an item or an exception, and
  -- none where it stops. An iterator need not stop; `patience` is the number of calls that the
  -- loop over one has for its fuel.
  pub try_iter : py.Obj → Option (ℕ → Option (Option py.Obj))
  pub patience : ℕ
  pub cast_dict : py.Obj → Option (List (py.Obj × py.Obj))
  -- The attributes of `aware - epoch`, where a naive `datetime` is read as UTC.
  pub since_epoch : py.Obj → Option Timedelta
  pub timedelta_attributes : py.Obj → Option Timedelta
  pub timedelta : ℤ → ℤ → Option py.Obj
  pub epoch_add : py.Obj → Option py.Obj
  pub from_list : List py.Obj → py.Obj
  pub from_dict : List (py.Obj × py.Obj) → py.Obj
  -- `set_item` of a dict; it raises for a key that has no hash.
  pub set_item : List (py.Obj × py.Obj) → py.Obj → py.Obj → Option (List (py.Obj × py.Obj))
  -- The class called with keyword arguments, and `object.__new__` of it.
  pub call_class : py.Obj → List (Text × py.Obj) → Option py.Obj
  pub object_new : py.Obj → Option py.Obj
  -- The instance after an assignment, and after `object.__setattr__`.
  pub setattr : py.Obj → Text → py.Obj → Option py.Obj
  pub object_setattr : py.Obj → Text → py.Obj → Option py.Obj

-- The exceptions that the codec raises; `raised` is one that Python raised in a call, and
-- `panicked` stands for a panic of the Rust code.
pub data CodecError : Type 0 where
  extract_failed not_a_string not_bytes invalid_utf8 : CodecError
  malformed : WireError → CodecError
  nesting_exceeded not_a_message not_a_sequence not_a_dict not_linked oneof_conflict bad_defaults :
      CodecError
  not_in_range : RangeError → CodecError
  raised : CodecError
  panicked : CodecError
