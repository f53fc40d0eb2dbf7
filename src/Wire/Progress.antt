-- ===== src/Wire/Progress.antt =====
-- What a successful read of the cursor of src/wire/mod.rs does to the cursor, on any buffer.
use fastproto.Common.{
  ◌^◌, ◌/◌, ◌%◌, ◌||◌, ltb, some, sym, guard-eq-ok, ok_or-eq-ok, ℕ, zero, suc, ◌+◌, ◌≤◌, ◌<◌, ◌≡◌,
  ◌≢◌, refl, ap, subst, ◌∙◌, ok_or, bit_and, none, List, [], ◌∷◌, length, get_elem?, ok, >>=-eq-ok,
  arith, ◌==◌, Bool-cases, inl, inr,
}
use fastproto.Common.Bits.{bit_and_seven}
use fastproto.Wire.Types.{
  from_u64, unexpected_eof, WireType, varint, i64, len, i32, max_field_number,
}
use fastproto.Wire.Reader.{
  Reader, next_byte, read_groups, read_varint, read_tag, read_fixed32, read_fixed64,
  read_len_delimited, skip,
}

-- The reader went on in the same buffer, by a byte at least, and not past its end.
pub record Moved (r r' : Reader) : Type 0 where
  pub same_buf : r'.buf ≡ r.buf
  pub forward : r.pos < r'.pos
  pub inside : r'.pos ≤ length r.buf

get_elem?-lt : (xs : List ℕ) (i : ℕ) → get_elem? xs i ≢ none → i < length xs
get_elem?-lt [] i h = absurd (h refl)
get_elem?-lt (x ∷ xs) zero h = omega arith
get_elem?-lt (x ∷ xs) (suc i) h = omega (arith, get_elem?-lt xs i h)

pub Moved-trans : {r s t : Reader} → Moved r s → Moved s t → Moved r t
Moved-trans h k = record {
  same_buf = k.same_buf ∙ h.same_buf;
  forward = omega (arith, h.forward, k.forward);
  inside = omega (arith, k.inside, ap length h.same_buf);
}

pub next_byte-Moved : (r : Reader) (b : ℕ) (r' : Reader) → next_byte r ≡ ok (b, r') → Moved r r'
unfolding next_byte
next_byte-Moved r b r' h = ground (arith, get_elem?-lt r.buf r.pos)

read_groups-Moved :
    (left shift result : ℕ) (r : Reader) (v : ℕ) (r' : Reader)
    → read_groups left shift result r ≡ ok (v, r')
    → Moved r r'
unfolding read_groups
read_groups-Moved zero shift result r v r' h = cc
read_groups-Moved (suc left) shift result r v r' h =
    let ((b, r₁), first, rest) = >>=-eq-ok (next_byte r) _ h in
    let step = next_byte-Moved r b r₁ first in
    elim (Bool-cases (bit_and b 0x80 == 0)) [
      | inl e ↦ subst (Moved r) (cc (rw e at rest)) step
      | inr e ↦ Moved-trans step (read_groups-Moved left (shift + 7) _ r₁ v r' (rw e at rest))
    ]

-- A read that succeeds has moved the cursor.
pub read_varint-Moved : (r : Reader) (v : ℕ) (r' : Reader) → read_varint r ≡ ok (v, r') → Moved r r'
unfolding read_varint
read_varint-Moved r v r' h =
    let (first, got, rest) = >>=-eq-ok (ok_or (get_elem? r.buf r.pos) unexpected_eof) _ h in
    let step : Moved r (record r { pos = r.pos + 1 }) = ground (arith, get_elem?-lt r.buf r.pos) in
    elim (Bool-cases (bit_and first 0x80 == 0)) [
      | inl e ↦ subst (Moved r) (cc (rw e at rest)) step
      | inr e ↦ Moved-trans step (read_groups-Moved 9 7 _ _ v r' (rw e at rest))
    ]

pub read_fixed32-Moved :
    (r : Reader) (v : ℕ) (r' : Reader) → read_fixed32 r ≡ ok (v, r') → Moved r r'
unfolding read_fixed32
read_fixed32-Moved r v r' h = ground arith

pub read_fixed64-Moved :
    (r : Reader) (v : ℕ) (r' : Reader) → read_fixed64 r ≡ ok (v, r') → Moved r r'
unfolding read_fixed64
read_fixed64-Moved r v r' h = ground arith

pub read_tag-Moved :
    (r : Reader) (field : ℕ) (wire : WireType) (r' : Reader)
    → read_tag r ≡ ok ((field, wire), r')
    → Moved r r'
unfolding read_tag
read_tag-Moved r field wire r' h =
    let ((key, r₁), first, rest) = >>=-eq-ok (read_varint r) _ h in
    let moved = read_varint-Moved r key r₁ first in ground (arith, moved)

pub read_len_delimited-Moved :
    (r : Reader) (chunk : List ℕ) (r' : Reader) → read_len_delimited r ≡ ok (chunk, r') → Moved r r'
unfolding read_len_delimited
read_len_delimited-Moved r chunk r' h =
    let ((n, r₁), first, rest) = >>=-eq-ok (read_varint r) _ h in
    let moved = read_varint-Moved r n r₁ first in
    let same : length r₁.buf ≡ length r.buf = ap length moved.same_buf in
    ground (arith, moved, same)

pub skip-Moved : (wire : WireType) (r : Reader) (r' : Reader) → skip wire r ≡ ok r' → Moved r r'
unfolding skip
skip-Moved varint r r' h =
    let ((v, r₁), first, rest) = >>=-eq-ok (read_varint r) _ h in
    subst (Moved r) (cc rest) (read_varint-Moved r v r₁ first)
skip-Moved i64 r r' h =
    let ((v, r₁), first, rest) = >>=-eq-ok (read_fixed64 r) _ h in
    subst (Moved r) (cc rest) (read_fixed64-Moved r v r₁ first)
skip-Moved i32 r r' h =
    let ((v, r₁), first, rest) = >>=-eq-ok (read_fixed32 r) _ h in
    subst (Moved r) (cc rest) (read_fixed32-Moved r v r₁ first)
skip-Moved len r r' h =
    let ((v, r₁), first, rest) = >>=-eq-ok (read_len_delimited r) _ h in
    subst (Moved r) (cc rest) (read_len_delimited-Moved r v r₁ first)

-- The field number of a tag: the key without its three low bits, cut to 32 bits only where that
-- loses nothing.
pub record IsTagOf (r : Reader) (field : ℕ) (wire : WireType) (r' : Reader) : Type 0 where
  pub key : ℕ
  pub read : read_varint r ≡ ok (key, r')
  pub whole_number : field ≡ key / 8
  pub low_bits : from_u64 (key % 8) ≡ some wire
  pub positive : 0 < field
  pub field-le : field ≤ 536870911

-- Every tag that is read is the varint at the cursor, of which the field number is all the bits
-- above the low three and the wire type the low three, and the number is between 1 and
-- 536870911: the cast to 32 bits loses nothing, so that no larger number passes for a legal one.
pub read_tag-IsTagOf :
    (r : Reader) (field : ℕ) (wire : WireType) (r' : Reader)
    → read_tag r ≡ ok ((field, wire), r')
    → IsTagOf r field wire r'
unfolding read_tag
read_tag-IsTagOf r field wire r' h =
    let ((key, r₁), first, rest) = >>=-eq-ok (read_varint r) _ h in
    let (w, found, rest') = >>=-eq-ok (ok_or (from_u64 (bit_and key 7)) _) _ rest in
    let number = key / 2 ^ 3 in
    let (legal, same) = guard-eq-ok (number == 0 || ltb max_field_number number) _ rest' in
    let low : from_u64 (key % 8) ≡ some w =
      ap from_u64 (sym (bit_and_seven key)) ∙ ok_or-eq-ok _ _ w found in
    subst (λ (p : (ℕ × WireType) × Reader). IsTagOf r p.0.0 p.0.1 p.1) same
      (record {
        key = key;
        read = first;
        whole_number = ground arith;
        low_bits = low;
        positive = ground arith;
        field-le = ground arith;
      })
