-- ===== src/Descriptor/Examples.antt =====
-- The theorems on src/descriptor/mod.rs at concrete inputs: a sparse message whose second and
-- third fields share a number.
use fastproto.Common.{ℕ, ◌≡◌, List, [], ◌∷◌, none}
use fastproto.Descriptor.Types.{FieldDescriptor, FieldKind, int32, single}
use fastproto.Descriptor.Index.{build, get, field_by_number}
use fastproto.Descriptor.Index.Lookup.{field_at, get-build_scan}

abbrev field : ℕ → FieldDescriptor
field n = record {
  number = n;
  name = [];
  kind = FieldKind.scalar int32;
  label = single;
  type_name = none;
  oneof_index = none;
}

abbrev fields : List FieldDescriptor
fields = field 7 ∷ field 1000000 ∷ field 1000000 ∷ []

get-build_scan_example :
    field_at fields (get (build fields) 1000000) ≡ field_by_number fields 1000000
get-build_scan_example = get-build_scan fields 1000000
