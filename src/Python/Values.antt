-- ===== src/Python/Values.antt =====
-- A concrete Python for the tests: an instance is the function of its attributes.
use fastproto.Common.{
  ◌<◌, subst, arith, ℕ, ◌^◌, ◌≡◌, refl, lt→ltb, ltb, ◌==◌, inl, if◌then◌else◌, Bool, true, false,
  Option, none, some, List, [], ◌∷◌,
}
use fastproto.Common.Int.{ℤ, pos, negsuc, IsI32, IsI64, fits_i32, fits_i64}
use fastproto.Common.Utf8.{Text}
use fastproto.Common.Text.{text_eq}
use fastproto.Message.Link.{value_error}
use fastproto.Python.Safe.{Stops, IteratorsEnd}
use fastproto.Python.{Python, Converts, Runtime}

pub data Value : Type 0 where
  int_object : ℤ → Value
  bool_object : Bool → Value
  f32_object f64_object : ℕ → Value
  str_object : Text → Value
  bytes_object : List ℕ → Value
  instance_object : (Text → Value) → Value
  class_object : ℕ → Value
  generator_object none_object missing : Value

abbrev to_i32 : Value → Option ℤ
to_i32 (int_object i) = if fits_i32 i then some i else none
to_i32 _ = none

abbrev to_i64 : Value → Option ℤ
to_i64 (int_object i) = if fits_i64 i then some i else none
to_i64 _ = none

abbrev to_unsigned : ℕ → Value → Option ℕ
to_unsigned width (int_object (pos n)) = if ltb n (2 ^ width) then some n else none
to_unsigned width _ = none

abbrev to_bool : Value → Option Bool
to_bool (bool_object b) = some b
to_bool _ = none

abbrev to_f32 : Value → Option ℕ
to_f32 (f32_object b) = some b
to_f32 (f64_object b) = if b == 0 then some 0 else none
to_f32 _ = none

abbrev to_f64 : Value → Option ℕ
to_f64 (f64_object b) = some b
to_f64 _ = none

abbrev textual : Value → Bool
textual (str_object t) = true
textual _ = false

abbrev to_str : Value → Option Text
to_str (str_object t) = some t
to_str _ = none

abbrev to_bytes : Value → Option (List ℕ)
to_bytes (bytes_object b) = some b
to_bytes _ = none

abbrev no_bytearray : Value → Option (List ℕ)
no_bytearray _ = none

abbrev pub values : Python
values = record {
  Obj = Value;
  extract_i32 = to_i32;
  extract_i64 = to_i64;
  extract_u32 = to_unsigned 32;
  extract_u64 = to_unsigned 64;
  extract_bool = to_bool;
  extract_f32 = to_f32;
  extract_f64 = to_f64;
  is_str = textual;
  cast_str = to_str;
  cast_bytes = to_bytes;
  cast_bytearray = no_bytearray;
  from_int = int_object;
  from_bool = bool_object;
  from_f32 = f32_object;
  from_f64 = f64_object;
  from_str = str_object;
  from_bytes = bytes_object;
}

values_i32 : (i : ℤ) → IsI32 i → to_i32 (int_object i) ≡ some i
values_i32 (pos n) h = rw (lt→ltb n (2 ^ 31) h) refl
values_i32 (negsuc n) h = rw (lt→ltb n (2 ^ 31) h) refl

values_i64 : (i : ℤ) → IsI64 i → to_i64 (int_object i) ≡ some i
values_i64 (pos n) h = rw (lt→ltb n (2 ^ 63) h) refl
values_i64 (negsuc n) h = rw (lt→ltb n (2 ^ 63) h) refl

pub values_Converts : Converts values
values_Converts = record {
  i32_int = values_i32;
  i64_int = values_i64;
  u32_int = λ n h. rw (lt→ltb n (2 ^ 32) h) refl;
  u64_int = λ n h. rw (lt→ltb n (2 ^ 64) h) refl;
  bool_bool = λ b. refl;
  f32_f32 = λ b h. refl;
  f64_f64 = λ b h. refl;
  f32_zero = refl;
  str_str = λ t h. refl;
  bytes_bytes = λ b. refl;
}

abbrev existing : Value → Option Value
existing missing = none
existing o = some o

abbrev attribute : Value → Text → Option Value
attribute (instance_object f) name = existing (f name)
attribute _ name = none

abbrev null : Value → Bool
null none_object = true
null _ = false

abbrev class_of : Value → Value
class_of o = class_object 0

abbrev one_class : Value → Value → Bool
one_class (class_object m) (class_object n) = m == n
one_class _ _ = false

abbrev a_class : Value → Bool
a_class (class_object n) = true
a_class _ = false

abbrev with_attribute : Value → Text → Value → Option Value
with_attribute (instance_object f) name o =
    some (instance_object (λ n. if text_eq n name then o else f n))
with_attribute _ name o = none

abbrev keyword : List (Text × Value) → Text → Value
keyword [] name = missing
keyword ((n, o) ∷ kwargs) name = if text_eq n name then o else keyword kwargs name

-- A generator of two numbers.
abbrev two_numbers : ℕ → Option (Option Value)
two_numbers k =
    if k == 0
    then some (some (int_object (pos 1)))
    else if k == 1
    then some (some (int_object (pos 2)))
    else none

abbrev iterate : Value → Option (ℕ → Option (Option Value))
iterate generator_object = some two_numbers
iterate _ = none

-- Lists and times play no part in the tests.
abbrev pub runtime : Runtime values
runtime = record {
  getattr = attribute;
  is_none = null;
  get_type = class_of;
  same = one_class;
  is_type = a_class;
  call_int = λ class i. inl value_error;
  enum_default_missing = none;
  cast_descriptor = λ o. some 0;
  cast_list = λ o. none;
  cast_tuple = λ o. none;
  try_iter = iterate;
  patience = 3;
  cast_dict = λ o. none;
  since_epoch = λ o. none;
  timedelta_attributes = λ o. none;
  timedelta = λ secs micros. none;
  epoch_add = λ o. none;
  from_list = λ items. missing;
  from_dict = λ pairs. missing;
  set_item = λ pairs key o. some ((key, o) ∷ pairs);
  call_class = λ class kwargs. some (instance_object (keyword kwargs));
  object_new = λ class. some (instance_object (keyword []));
  setattr = with_attribute;
  object_setattr = with_attribute;
}

iterate-ends :
    (o : Value) (iterator : ℕ → Option (Option Value))
    → iterate o ≡ some iterator
    → (n : ℕ) × (n < 3) × Stops (iterator n)
iterate-ends generator_object iterator h = (
  2,
  omega arith,
  subst (λ (i : ℕ → Option (Option Value)). Stops (i 2)) {x = two_numbers} {y = iterator} (cc h) tt,
)
iterate-ends (int_object i) iterator h = cc
iterate-ends (bool_object b) iterator h = cc
iterate-ends (f32_object b) iterator h = cc
iterate-ends (f64_object b) iterator h = cc
iterate-ends (str_object t) iterator h = cc
iterate-ends (bytes_object b) iterator h = cc
iterate-ends (instance_object f) iterator h = cc
iterate-ends (class_object n) iterator h = cc
iterate-ends none_object iterator h = cc
iterate-ends missing iterator h = cc

pub runtime-IteratorsEnd : IteratorsEnd runtime
runtime-IteratorsEnd = iterate-ends
