-- ===== src/WellKnown/RoundTrip.antt =====
-- `decode_parts` reads what `encode_parts` writes, and ends on every input
-- (src/wellknown/mod.rs).
use fastproto.Common.{
  ℕ, ◌<◌, ◌^◌, ◌≡◌, ◌≢◌, refl, sym, ap, ◌∙◌, ◌==◌, if◌then◌else◌, List, [], ◌++◌, length,
  length-append, append_assoc, append-nil, ok, out_of_fuel, ◌&&◌, arith, ◌≤◌, ==→eq, ◌⊎◌,
  Bool-cases, inl, inr,
}
use fastproto.Common.Int.{
  ℤ, pos, negsuc, as_u64, as_i64, as_i32, IsI32, IsI64, as_i64-as_u64, as_i32-as_u64, as_u64-lt,
}
use fastproto.Wire.Types.{WireType, varint, wire_eq, max_field_number}
use fastproto.Wire.Reader.{Reader, reader_at, read_tag}
use fastproto.Wire.Writer.{write_tag, write_varint}
use fastproto.Wire.RoundTrip.{read_varint-write_varint}
use fastproto.Wire.Varint.{encoding, write_varint-append, length-groups-le}
use fastproto.Wire.RoundTrip.{write_tag-append, tag_key}
use fastproto.Wire.Loop.{Runs, Advances}
use fastproto.Wire.Steps.{
  Steps, Steps-Moved, Steps-bind, Steps-from, Steps-if, Steps-store, Steps-skip_wire,
  read_tag-Steps, read_varint-Steps, read_all_ends,
}
use fastproto.Wire.Stream.{take_field, take_end, read_all_fields, varint_field, varint_field-append}
use fastproto.WellKnown.Codec.{is_zero, encode_parts, parts_arm, parts_round, decode_parts}

parts_arm-Steps : (p : ℤ × ℤ) (n : ℕ) (w : WireType) (r : Reader) → Steps r (parts_arm p n w r)
unfolding parts_arm
parts_arm-Steps (secs, nanos) n w r =
    Steps-if (n == 1 && wire_eq w varint) (Steps-store _ _ (read_varint-Steps r)) (
      Steps-if (n == 2 && wire_eq w varint) (Steps-store _ _ (read_varint-Steps r))
        (Steps-skip_wire w r (secs, nanos)))

parts_round-Steps : (p : ℤ × ℤ) (r : Reader) → Steps r (parts_round p r)
unfolding parts_round
parts_round-Steps p r =
    Steps-bind _ _ (read_tag-Steps r) (λ t r' mv. Steps-from mv (parts_arm-Steps p t.0 t.1 r'))

-- The decoder of timestamps and durations ends on every input.
pub decode_parts_ends : (bytes : List ℕ) → decode_parts bytes ≢ out_of_fuel
unfolding decode_parts
decode_parts_ends bytes = read_all_ends parts_round parts_round-Steps _ bytes

parts_round-Advances : Advances parts_round
parts_round-Advances p r p' r' e = Steps-Moved p' r' (parts_round-Steps p r) e

tagged :
    (p : ℤ × ℤ) (r : Reader) (n : ℕ) (w : WireType) (r' : Reader)
    → read_tag r ≡ ok ((n, w), r')
    → parts_round p r ≡ parts_arm p n w r'
unfolding parts_round
tagged p r n w r' e = rw e refl

-- The bytes of a field of the message, none for a zero.
abbrev part_field : ℕ → ℤ → List ℕ
part_field number i = if is_zero i then [] else varint_field number (as_u64 i)

part-append :
    (buf : List ℕ) (number : ℕ) (i : ℤ)
    → number ≤ max_field_number
    → (if is_zero i then buf else write_varint (write_tag buf number varint) (as_u64 i))
      ≡ buf ++ part_field number i
part-append buf number i h = elim (Bool-cases (is_zero i)) [
  | inl e ↦ rw e (sym (append-nil buf))
  | inr e ↦ rw e (varint_field-append buf number (as_u64 i) h)
]

encode_parts-append :
    (buf : List ℕ) (secs nanos : ℤ)
    → encode_parts buf secs nanos ≡ buf ++ (part_field 1 secs ++ part_field 2 nanos)
unfolding encode_parts
encode_parts-append buf secs nanos =
    part-append _ 2 nanos (omega arith)
    ∙ ap (λ (l : List ℕ). l ++ part_field 2 nanos) (part-append buf 1 secs (omega arith))
    ∙ append_assoc buf (part_field 1 secs) (part_field 2 nanos)

seconds_field_run :
    (v : ℕ) (parts t : ℤ × ℤ) (front back : List ℕ)
    → v < 2 ^ 64
    → Runs parts_round (as_i64 v, parts.1) (reader_at (front ++ varint_field 1 v) back) t
    → Runs parts_round parts (reader_at front (varint_field 1 v ++ back)) t
unfolding parts_arm
seconds_field_run v parts t front back h rest =
    take_field parts_round parts_arm tagged 1 varint front (write_varint [] v) back
      (omega arith, omega arith)
      (rw (read_varint-write_varint v (front ++ write_tag [] 1 varint) back h) refl) rest

nanos_field_run :
    (v : ℕ) (parts t : ℤ × ℤ) (front back : List ℕ)
    → v < 2 ^ 64
    → Runs parts_round (parts.0, as_i32 v) (reader_at (front ++ varint_field 2 v) back) t
    → Runs parts_round parts (reader_at front (varint_field 2 v ++ back)) t
unfolding parts_arm
nanos_field_run v parts t front back h rest =
    take_field parts_round parts_arm tagged 2 varint front (write_varint [] v) back
      (omega arith, omega arith)
      (rw (read_varint-write_varint v (front ++ write_tag [] 2 varint) back h) refl) rest

part_cases :
    (number : ℕ) (i : ℤ)
    → ((part_field number i ≡ []) × (i ≡ pos 0))
      ⊎ (part_field number i ≡ varint_field number (as_u64 i))
part_cases number (pos n) = elim (Bool-cases (n == 0)) [
  | inl e ↦ inl (rw e refl, ap pos (==→eq n 0 e))
  | inr e ↦ inr (rw e refl)
]
part_cases number (negsuc n) = inr refl

-- The loop takes the field of a part, or nothing for a zero.
part_run :
    (number : ℕ) (i : ℤ) (s s' t : ℤ × ℤ) (front back : List ℕ)
    → (i ≡ pos 0 → s ≡ s')
    → (Runs parts_round s' (reader_at (front ++ varint_field number (as_u64 i)) back) t
        → Runs parts_round s (reader_at front (varint_field number (as_u64 i) ++ back)) t)
    → Runs parts_round s' (reader_at (front ++ part_field number i) back) t
    → Runs parts_round s (reader_at front (part_field number i ++ back)) t
part_run number i s s' t front back same step = elim (part_cases number i) [
  | inl (empty, zero_part) ↦ rw (empty, append-nil, same zero_part) (λ run. run)
  | inr full ↦ rw full step
]

-- The parts of a timestamp or a duration survive the wire, also where a part is zero and is not
-- written.
pub decode_parts-encode_parts :
    (secs nanos : ℤ)
    → IsI64 secs
    → IsI32 nanos
    → decode_parts (encode_parts [] secs nanos) ≡ ok (secs, nanos)
unfolding decode_parts
decode_parts-encode_parts secs nanos in64 in32 =
    ap decode_parts (encode_parts-append [] secs nanos)
    ∙ ap (λ (l : List ℕ). decode_parts (part_field 1 secs ++ l))
        (sym (append-nil (part_field 2 nanos)))
    ∙ read_all_fields parts_round parts_arm tagged parts_round-Advances _ seconds_run
  where
    nanos_run :
        Runs parts_round
          (secs, pos 0)
          (reader_at (part_field 1 secs) (part_field 2 nanos ++ []))
          (secs, nanos)
    nanos_run =
        part_run 2 nanos (secs, pos 0) (secs, nanos) (secs, nanos) (part_field 1 secs) []
          (λ e. ap (λ (i : ℤ). (secs, i)) (sym e))
          (λ run.
            nanos_field_run (as_u64 nanos) (secs, pos 0) (secs, nanos) (part_field 1 secs) []
              (as_u64-lt nanos) (rw (as_i32-as_u64 nanos in32) run))
          (take_end parts_round parts_arm tagged (part_field 1 secs ++ part_field 2 nanos))

    seconds_run :
        Runs parts_round
          (pos 0, pos 0)
          (reader_at [] (part_field 1 secs ++ (part_field 2 nanos ++ [])))
          (secs, nanos)
    seconds_run =
        part_run 1 secs (pos 0, pos 0) (secs, pos 0) (secs, nanos) [] (part_field 2 nanos ++ [])
          (λ e. ap (λ (i : ℤ). (i, pos 0)) (sym e))
          (λ run.
            seconds_field_run (as_u64 secs) (pos 0, pos 0) (secs, nanos) []
              (part_field 2 nanos ++ []) (as_u64-lt secs) (rw (as_i64-as_u64 secs in64) run))
          nanos_run

part_field-le : (number : ℕ) (i : ℤ) → number ≤ max_field_number → length (part_field number i) ≤ 20
part_field-le number i h = elim (part_cases number i) [
  | inl (empty, zero_part) ↦ rw empty (omega arith)
  | inr full ↦
      rw (full, write_tag-append [] number varint h, write_varint-append [] (as_u64 i))
        (omega (
          arith,
          length-append (encoding (tag_key number varint)) (encoding (as_u64 i)),
          length-groups-le 10 (tag_key number varint),
          length-groups-le 10 (as_u64 i),
        ))
]

-- The parts behind what a buffer holds, and their length.
pub encode_parts-behind :
    (buf : List ℕ) (secs nanos : ℤ)
    → encode_parts buf secs nanos ≡ buf ++ encode_parts [] secs nanos
encode_parts-behind buf secs nanos =
    encode_parts-append buf secs nanos
    ∙ ap (λ (l : List ℕ). buf ++ l) (sym (encode_parts-append [] secs nanos))

pub encode_parts-le : (secs nanos : ℤ) → length (encode_parts [] secs nanos) ≤ 40
encode_parts-le secs nanos = omega (
  arith,
  ap length (encode_parts-append [] secs nanos),
  length-append (part_field 1 secs) (part_field 2 nanos),
  part_field-le 1 secs (omega arith),
  part_field-le 2 nanos (omega arith),
)
