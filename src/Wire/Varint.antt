-- ===== src/Wire/Varint.antt =====
-- Varints: `write_varint` and `read_varint` of src/wire/mod.rs against plain arithmetic.
use fastproto.Common.{
  ℕ, zero, suc, ◌+◌, ◌*◌, ◌/◌, ◌%◌, ◌^◌, ◌≤◌, ◌<◌, ◌≡◌, refl, ap, ◌∙◌, bit_and, bit_or, ltb,
  if◌then◌else◌, List, [], ◌∷◌, ◌++◌, length, length-append, get_elem?-append, append_move,
  append_assoc, All, arith, ok, ◌>>=◌, Bool-cases, inl, inr, ltb→lt, ltb→le, lt→ltb, le→ltb,
}
use fastproto.Common.Bits.{bit_and_x7f, bit_and_x80, bit_or_x80, bit_or_fields}
use fastproto.Wire.Types.{IsByte}
use fastproto.Wire.Reader.{Reader, reader_at, next_byte, read_groups, read_varint}
use fastproto.Wire.Writer.{write_groups, write_varint}
use native.Mathlib.Nat.{mod-eq_of_lt, pow-suc, div-add-mod}
use native.Mathlib.Numerals.{towards_suc}

-- The groups of seven bits of a number, lowest first, all but the last with the top bit set.
unfoldable pub groups : ℕ → ℕ → List ℕ
groups zero v = []
groups (suc n) v =
    let rest = groups n (v / 128) in if ltb v 128 then v ∷ [] else (v % 128 + 128) ∷ rest

-- The varint of a `u64`.
abbrev pub encoding : ℕ → List ℕ
encoding v = groups 10 v

write_groups-eq-groups : (n v : ℕ) → write_groups n v ≡ groups n v
unfolding write_groups groups
write_groups-eq-groups zero v = refl
write_groups-eq-groups (suc n) v =
    ground (arith, bit_and_x7f v, bit_or_x80 (v % 128), write_groups-eq-groups n (v / 128))

-- `write_varint` appends the groups, its fast path too.
pub write_varint-append : (buf : List ℕ) (v : ℕ) → write_varint buf v ≡ buf ++ encoding v
unfolding write_varint groups
write_varint-append buf v = ground (arith, write_groups-eq-groups 10 v)

pub groups-IsByte : (n v : ℕ) → All IsByte (groups n v)
unfolding groups
groups-IsByte zero v = tt
groups-IsByte (suc n) v = ground (arith, groups-IsByte n (v / 128))

-- The reader behind `mid`.
pub advance_at :
    (front mid back : List ℕ)
    → record { buf = front ++ (mid ++ back); pos = length front + length mid }
      ≡ reader_at (front ++ mid) back
advance_at front mid back = rw (length-append, append_assoc)

-- One byte off the buffer.
pub next_byte_at :
    (front : List ℕ) (b : ℕ) (back : List ℕ)
    → next_byte (reader_at front (b ∷ back)) ≡ ok (b, reader_at (front ++ (b ∷ [])) back)
unfolding next_byte
next_byte_at front b back =
    rw get_elem?-append (ap (λ (r : Reader). ok (b, r)) (advance_at front (b ∷ []) back))

add_group :
    (acc g s : ℕ)
    → acc < 2 ^ s
    → g * 2 ^ s < 2 ^ 64
    → bit_or acc (g * 2 ^ s % 2 ^ 64) ≡ acc + g * 2 ^ s
add_group acc g s h fits = rw (mod-eq_of_lt fits) (bit_or_fields s g acc h)

-- One round of the loop on a last byte, and on a byte with the top bit set.
last_round :
    (left s acc g : ℕ) (front back : List ℕ)
    → g < 128
    → acc < 2 ^ s
    → g * 2 ^ s < 2 ^ 64
    → read_groups (suc left) s acc (reader_at front (g ∷ back))
      ≡ ok (acc + g * 2 ^ s, reader_at (front ++ (g ∷ [])) back)
unfolding read_groups
last_round left s acc g front back small h fits =
    rw (next_byte_at, ◌>>=◌) (rw (clear, low, add_group acc g s h fits))
  where
    clear : bit_and g 0x80 ≡ 0
    clear = omega (arith, bit_and_x80 g)

    low : bit_and g 0x7f ≡ g
    low = omega (arith, bit_and_x7f g)

inner_round :
    (left s acc g : ℕ) (front back : List ℕ)
    → g < 128
    → acc < 2 ^ s
    → g * 2 ^ s < 2 ^ 64
    → read_groups (suc left) s acc (reader_at front ((g + 128) ∷ back))
      ≡ read_groups left (s + 7) (acc + g * 2 ^ s) (reader_at (front ++ ((g + 128) ∷ [])) back)
unfolding read_groups
inner_round left s acc g front back small h fits =
    rw (next_byte_at, ◌>>=◌) (rw (marked, low, add_group acc g s h fits))
  where
    marked : bit_and (g + 128) 0x80 ≡ 128
    marked = omega (arith, bit_and_x80 (g + 128))

    low : bit_and (g + 128) 0x7f ≡ g
    low = omega (arith, bit_and_x7f (g + 128))

pub pow_seven : (s : ℕ) → 2 ^ (s + 7) ≡ 128 * 2 ^ s
pow_seven s = simp towards_suc (omega arith)

-- The lowest group of a number and the rest, both shifted.
split_group : (v s : ℕ) → v * 2 ^ s ≡ v % 128 * 2 ^ s + v / 128 * 2 ^ (s + 7)
split_group v s = rw pow_seven (omega (arith, ap (λ (t : ℕ). t * 2 ^ s) (div-add-mod v 128)))

group_room : (g acc s : ℕ) → g < 128 → acc < 2 ^ s → acc + g * 2 ^ s < 2 ^ (s + 7)
group_room g acc s small h = rw pow_seven (grind arith)

-- The loop reads what is left of a number, which counts from bit `s` on.
read_groups-groups :
    (n s acc v : ℕ) (front back : List ℕ)
    → v < 128 ^ n
    → 0 < v
    → acc < 2 ^ s
    → v * 2 ^ s < 2 ^ 64
    → read_groups n s acc (reader_at front (groups n v ++ back))
      ≡ ok (acc + v * 2 ^ s, reader_at (front ++ groups n v) back)
unfolding groups
read_groups-groups zero s acc v front back fits pos small total = absurd (omega arith)
read_groups-groups (suc n) s acc v front back fits pos small total = elim (Bool-cases (ltb v 128)) [
  | inl last ↦ rw last (last_round n s acc v front back (ltb→lt _ _ last) small total)
  | inr more ↦ rw more (
      inner_round n s acc (v % 128) front (groups n (v / 128) ++ back) (omega arith) small
        (omega (arith, split_group v s))
      ∙ read_groups-groups n (s + 7) (acc + v % 128 * 2 ^ s) (v / 128)
          (front ++ ((v % 128 + 128) ∷ [])) back (omega (arith, pow-suc 128 n))
          (omega (arith, ltb→le v 128 more)) (group_room (v % 128) acc s (omega arith) small)
          (omega (arith, split_group v s))
      ∙ rw (regroup, append_move))
]
  where
    regroup : acc + v % 128 * 2 ^ s + v / 128 * 2 ^ (s + 7) ≡ acc + v * 2 ^ s
    regroup = omega (arith, split_group v s)

pub encoding_small : (v : ℕ) → v < 128 → encoding v ≡ v ∷ []
unfolding groups
encoding_small v h = rw (lt→ltb v 128 h)

pub encoding_large : (v : ℕ) → 128 ≤ v → encoding v ≡ (v % 128 + 128) ∷ groups 9 (v / 128)
unfolding groups
encoding_large v h = rw (le→ltb v 128 h)

read_varint_one :
    (v : ℕ) (front back : List ℕ)
    → v < 128
    → read_varint (reader_at front (v ∷ back)) ≡ ok (v, reader_at (front ++ (v ∷ [])) back)
unfolding read_varint
read_varint_one v front back h =
    rw (get_elem?-append, clear) (ap (λ (r : Reader). ok (v, r)) (advance_at front (v ∷ []) back))
  where
    clear : bit_and v 0x80 ≡ 0
    clear = omega (arith, bit_and_x80 v)

read_varint_more :
    (g : ℕ) (front back : List ℕ)
    → g < 128
    → read_varint (reader_at front ((g + 128) ∷ back))
      ≡ read_groups 9 7 g (reader_at (front ++ ((g + 128) ∷ [])) back)
unfolding read_varint
read_varint_more g front back h =
    rw (get_elem?-append, marked, low)
      (ap (λ (r : Reader). read_groups 9 7 g r) (advance_at front ((g + 128) ∷ []) back))
  where
    marked : bit_and (g + 128) 0x80 ≡ 128
    marked = omega (arith, bit_and_x80 (g + 128))

    low : bit_and (g + 128) 0x7f ≡ g
    low = omega (arith, bit_and_x7f (g + 128))

-- `read_varint` reads a varint back, and leaves what follows it.
pub read_varint-encoding :
    (v : ℕ) (front back : List ℕ)
    → v < 2 ^ 64
    → read_varint (reader_at front (encoding v ++ back))
      ≡ ok (v, reader_at (front ++ encoding v) back)
read_varint-encoding v front back h = elim (Bool-cases (ltb v 128)) [
  | inl one ↦ rw (encoding_small v (ltb→lt _ _ one)) (read_varint_one v front back (ltb→lt _ _ one))
  | inr more ↦ rw (encoding_large v (ltb→le _ _ more)) (
      read_varint_more (v % 128) front (groups 9 (v / 128) ++ back) (omega arith)
      ∙ read_groups-groups 9 7 (v % 128) (v / 128) (front ++ ((v % 128 + 128) ∷ [])) back
          (omega arith) (omega (arith, ltb→le v 128 more)) (omega arith) (omega arith)
      ∙ rw (whole, append_move))
]
  where
    whole : v % 128 + v / 128 * 2 ^ 7 ≡ v
    whole = omega arith

-- A varint has one byte at least.
pub encoding-nonempty : (v : ℕ) → 0 < length (encoding v)
encoding-nonempty v = elim (Bool-cases (ltb v 128)) [
  | inl one ↦ rw (encoding_small v (ltb→lt _ _ one)) (omega arith)
  | inr more ↦ rw (encoding_large v (ltb→le _ _ more)) (omega arith)
]

-- A varint has ten bytes at most.
pub length-groups-le : (n v : ℕ) → length (groups n v) ≤ n
unfolding groups
length-groups-le zero v = omega arith
length-groups-le (suc n) v = ground (arith, length-groups-le n (v / 128))
