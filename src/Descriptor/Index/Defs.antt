-- ===== src/Descriptor/Index/Defs.antt =====
-- `FieldIndex::build` and `FieldIndex::get` (src/descriptor/mod.rs). A message has fewer than
-- 2 ^ 32 - 1 fields, so the casts of indices to `u32` keep them.
use Prim.Native.Nat.{max}
use fastproto.Common.{
  ℕ, zero, suc, ◌+◌, ◌-◌, ◌*◌, ◌/◌, ltb, leb, ◌==◌, if◌then◌else◌, ◌&&◌, ◌||◌, Bool, true, false,
  Option, none, some, List, [], ◌∷◌, length, get_elem?, set, replicate,
}
use fastproto.Descriptor.Types.{FieldDescriptor}

pub data FieldIndex : Type 0 where
  dense : List ℕ → FieldIndex
  sparse : List (ℕ × ℕ) → FieldIndex

-- `iter().map(|f| f.number).max().unwrap_or(0)`
unfoldable pub max_number : List FieldDescriptor → ℕ
max_number [] = 0
max_number (f ∷ fs) = max f.number (max_number fs)

abbrev pub slot_at : List ℕ → ℕ → ℕ
slot_at [] i = 0
slot_at (s ∷ slots) zero = s
slot_at (s ∷ slots) (suc i) = slot_at slots i

-- The loop over `fields.iter().enumerate()`, from index `i` on.
unfoldable pub fill : ℕ → List FieldDescriptor → List ℕ → List ℕ
fill i [] table = table
fill i (f ∷ fs) table =
    fill (i + 1) fs (if slot_at table f.number == 0 then set table f.number (i + 1) else table)

-- `enumerate().map(|(i, f)| (f.number, i as u32))`, from index `i` on.
unfoldable pub enumerate : ℕ → List FieldDescriptor → List (ℕ × ℕ)
enumerate i [] = []
enumerate i (f ∷ fs) = (f.number, i) ∷ enumerate (i + 1) fs

-- The order of pairs that `sort_unstable` sorts by.
abbrev pub pair_le : ℕ × ℕ → ℕ × ℕ → Bool
pair_le (a, i) (b, j) = ltb a b || (a == b && leb i j)

unfoldable pub insert : ℕ × ℕ → List (ℕ × ℕ) → List (ℕ × ℕ)
insert p [] = p ∷ []
insert p (q ∷ qs) = let rest = insert p qs in if pair_le p q then p ∷ q ∷ qs else q ∷ rest

unfoldable pub sort : List (ℕ × ℕ) → List (ℕ × ℕ)
sort [] = []
sort (p ∷ ps) = insert p (sort ps)

-- `dedup_by_key(|&mut (number, _)| number)`: of neighbours with one key the first stays.
unfoldable pub dedup_from : ℕ × ℕ → List (ℕ × ℕ) → List (ℕ × ℕ)
dedup_from p [] = p ∷ []
dedup_from p (q ∷ qs) = if p.0 == q.0 then dedup_from p qs else p ∷ dedup_from q qs

unfoldable pub dedup : List (ℕ × ℕ) → List (ℕ × ℕ)
dedup [] = []
dedup (p ∷ ps) = dedup_from p ps

unfoldable pub build : List FieldDescriptor → FieldIndex
build fields =
    let top = max_number fields in
    if leb top (max (length fields * 4) 64)
    then dense (fill 0 fields (replicate (top + 1) 0))
    else sparse (dedup (sort (enumerate 0 fields)))

-- `binary_search_by_key`: the index range `lo..hi` is halved until the key is found or the range
-- is empty.
unfoldable pub bisect : ℕ → List (ℕ × ℕ) → ℕ → ℕ → ℕ → Option ℕ
bisect zero pairs number lo hi = none
bisect (suc fuel) pairs number lo hi =
    let mid = lo + (hi - lo) / 2 in
    elim (ltb lo hi) [
      | false ↦ none
      | true ↦ elim (get_elem? pairs mid) [
        | none ↦ none
        | some (key, index) ↦ elim (key == number) [
          | true ↦ some index
          | false ↦ elim (ltb key number) [
            | true ↦ bisect fuel pairs number (mid + 1) hi
            | false ↦ bisect fuel pairs number lo mid
          ]
        ]
      ]
    ]

unfoldable pub get : FieldIndex → ℕ → Option ℕ
get (dense table) number = elim (get_elem? table number) [
  | none ↦ none
  | some slot ↦ if slot == 0 then none else some (slot - 1)
]
get (sparse pairs) number = bisect (length pairs) pairs number 0 (length pairs)

-- The linear scan that the index replaces: the first field with the number, and its place.
unfoldable pub field_by_number : List FieldDescriptor → ℕ → Option FieldDescriptor
field_by_number [] number = none
field_by_number (f ∷ fs) number = if f.number == number then some f else field_by_number fs number

unfoldable pub position : ℕ → List FieldDescriptor → ℕ → Option ℕ
position i [] number = none
position i (f ∷ fs) number = if f.number == number then some i else position (i + 1) fs number
