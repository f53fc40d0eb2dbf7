-- ===== src/Wire/Errors.antt =====
-- Varints that `read_varint` of src/wire/mod.rs refuses.
use fastproto.Common.{
  ℕ, zero, suc, ◌+◌, ◌≤◌, ◌<◌, ◌≡◌, refl, ap, ◌∙◌, bit_and, List, [], ◌∷◌, ◌++◌, length,
  get_elem?-append, get_elem?-end, append-nil, All, arith, err, ◌>>=◌,
}
use fastproto.Common.Bits.{bit_and_x80}
use fastproto.Wire.Types.{varint_overflow, unexpected_eof}
use fastproto.Wire.Reader.{Reader, reader_at, next_byte, read_groups, read_varint}
use fastproto.Wire.Varint.{advance_at, next_byte_at}

-- A byte with the top bit set: the varint goes on.
abbrev pub IsContinuation : ℕ → Type 0
IsContinuation b = (128 ≤ b) × (b < 256)

marked : (b : ℕ) → IsContinuation b → bit_and b 0x80 ≡ 128
marked b (lo, hi) = omega (arith, bit_and_x80 b)

next_byte_end : (front : List ℕ) → next_byte (reader_at front []) ≡ err unexpected_eof
unfolding next_byte
next_byte_end front = rw (append-nil, get_elem?-end) refl

loop_overflow :
    (n s acc : ℕ) (bytes front back : List ℕ)
    → length bytes ≡ n
    → All IsContinuation bytes
    → read_groups n s acc (reader_at front (bytes ++ back)) ≡ err varint_overflow
unfolding read_groups
loop_overflow zero s acc bytes front back size all = refl
loop_overflow (suc n) s acc [] front back size all = absurd (omega arith)
loop_overflow (suc n) s acc (b ∷ bytes) front back size (h, all) =
    rw (next_byte_at, ◌>>=◌)
      (rw (marked b h) (loop_overflow n (s + 7) _ bytes (front ++ (b ∷ [])) back (omega arith) all))

loop_eof :
    (n s acc : ℕ) (bytes front : List ℕ)
    → length bytes < n
    → All IsContinuation bytes
    → read_groups n s acc (reader_at front bytes) ≡ err unexpected_eof
unfolding read_groups
loop_eof zero s acc bytes front size all = absurd (omega arith)
loop_eof (suc n) s acc [] front size all = rw (next_byte_end front) refl
loop_eof (suc n) s acc (b ∷ bytes) front size (h, all) =
    rw (next_byte_at, ◌>>=◌)
      (rw (marked b h) (loop_eof n (s + 7) _ bytes (front ++ (b ∷ [])) (omega arith) all))

first_marked :
    (b : ℕ) (front back : List ℕ)
    → IsContinuation b
    → read_varint (reader_at front (b ∷ back))
      ≡ read_groups 9 7 (bit_and b 0x7f) (reader_at (front ++ (b ∷ [])) back)
unfolding read_varint
first_marked b front back h =
    rw (get_elem?-append, marked b h)
      (ap (λ (r : Reader). read_groups 9 7 (bit_and b 0x7f) r) (advance_at front (b ∷ []) back))

-- Ten bytes that all go on are an overflow, whatever follows them.
pub read_varint_overflow :
    (bytes front back : List ℕ)
    → length bytes ≡ 10
    → All IsContinuation bytes
    → read_varint (reader_at front (bytes ++ back)) ≡ err varint_overflow
read_varint_overflow [] front back size all = absurd (omega arith)
read_varint_overflow (b ∷ bytes) front back size (h, all) =
    first_marked b front (bytes ++ back) h
    ∙ loop_overflow 9 7 _ bytes (front ++ (b ∷ [])) back (omega arith) all

-- A buffer that ends inside a varint, after fewer than ten bytes that all go on, is cut short.
pub read_varint_eof :
    (bytes front : List ℕ)
    → length bytes < 10
    → All IsContinuation bytes
    → read_varint (reader_at front bytes) ≡ err unexpected_eof
unfolding read_varint
read_varint_eof [] front size all = rw (append-nil, get_elem?-end) refl
read_varint_eof (b ∷ bytes) front size (h, all) =
    first_marked b front bytes h ∙ loop_eof 9 7 _ bytes (front ++ (b ∷ [])) (omega arith) all
