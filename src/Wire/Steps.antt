-- ===== src/Wire/Steps.antt =====
-- Parts of a loop's body: each succeeds at a reader that has moved on, or fails, and none runs out
-- of fuel. One rule for each way in which the decoders of the crate put such parts together.
use fastproto.Common.{
  ℕ, zero, suc, ◌+◌, ◌^◌, ◌==◌, ◌≡◌, ◌≢◌, refl, subst, Bool, true, false, Bool-cases, inl, inr,
  if◌then◌else◌, List, bit_and, get_elem?, Result, ok, err, out_of_fuel, ◌>>=◌, map_err, ok_or,
  Result-cases, arith, length, bind_ends, ok_or_ends, if_ends, ok_ends, err_ends, ltb, leb, ◌||◌,
  ◌/◌,
}
use fastproto.Wire.Types.{
  WireError, WireType, varint, i64, len, i32, unexpected_eof, from_u64, invalid_wire_type,
  max_field_number,
}
use fastproto.Wire.Reader.{
  get_range, Reader, new, next_byte, read_groups, read_varint, read_tag, read_fixed32, read_fixed64,
  read_len_delimited, skip,
}
use fastproto.Wire.Progress.{
  Moved, Moved-trans, read_varint-Moved, read_tag-Moved, read_fixed32-Moved, read_fixed64-Moved,
  read_len_delimited-Moved, skip-Moved,
}
use fastproto.Wire.Loop.{read_all, read_while_ends}

pub data Steps {E S : Type 0} (r : Reader) : Result E (S × Reader) → Type 0 where
  moves : {s : S} {r' : Reader} → Moved r r' → Steps r (ok (s, r'))
  fails : {e : E} → Steps r (err e)

module _ {E S : Type 0} {r : Reader} where
  pub Steps-Moved :
      {m : Result E (S × Reader)} (s : S) (r' : Reader) → Steps r m → m ≡ ok (s, r') → Moved r r'
  Steps-Moved s r' (moves h) e = subst (Moved r) (cc) h
  Steps-Moved s r' fails e = cc

  pub Steps-ends : {m : Result E (S × Reader)} → Steps r m → m ≢ out_of_fuel
  Steps-ends (moves h) = λ e. cc
  Steps-ends fails = λ e. cc

  Steps-intro :
      (m : Result E (S × Reader))
      → m ≢ out_of_fuel
      → ((s : S) (r' : Reader) → m ≡ ok (s, r') → Moved r r')
      → Steps r m
  Steps-intro (ok (s, r')) ends h = moves (h s r' refl)
  Steps-intro (err e) ends h = fails
  Steps-intro out_of_fuel ends h = absurd (ends refl)

  pub Steps-if :
      (b : Bool) {x y : Result E (S × Reader)}
      → Steps r x
      → Steps r y
      → Steps r (if b then x else y)
  Steps-if true hx hy = hx
  Steps-if false hx hy = hy

  pub Steps-from : {r₀ : Reader} {m : Result E (S × Reader)} → Moved r₀ r → Steps r m → Steps r₀ m
  Steps-from h (moves k) = moves (Moved-trans h k)
  Steps-from h fails = fails

module _ {E A S : Type 0} {r : Reader} where
  pub Steps-bind :
      (m : Result E (A × Reader)) (f : A × Reader → Result E (S × Reader))
      → Steps r m
      → ((a : A) (r' : Reader) → Moved r r' → Steps r (f (a, r')))
      → Steps r (m >>= f)
  Steps-bind m f (moves {s} {r'} h) k = k s r' h
  Steps-bind m f fails k = fails

  -- A step that touches no reader.
  pub Steps-pure :
      (m : Result E A) (f : A → Result E (S × Reader))
      → m ≢ out_of_fuel
      → ((a : A) → Steps r (f a))
      → Steps r (m >>= f)
  Steps-pure (ok a) f ends k = k a
  Steps-pure (err e) f ends k = fails
  Steps-pure out_of_fuel f ends k = absurd (ends refl)

  -- A read whose value is stored.
  pub Steps-store :
      (m : Result E (A × Reader)) (g : A → S) → Steps r m → Steps r (m >>= λ p. ok (g p.0, p.1))
  Steps-store m g h = Steps-bind m _ h (λ a r' mv. moves mv)

pub Steps-map_err :
    {E F A : Type 0} {r : Reader} {m : Result E (A × Reader)} (g : E → F)
    → Steps r m
    → Steps r (map_err g m)
Steps-map_err g (moves h) = moves h
Steps-map_err g fails = fails

next_byte_ends : (r : Reader) → next_byte r ≢ out_of_fuel
unfolding next_byte
next_byte_ends r =
    bind_ends (ok_or (get_elem? r.buf r.pos) unexpected_eof) _ (ok_or_ends _ _) (λ b. ok_ends _)

read_groups_ends :
    (left shift result : ℕ) (r : Reader) → read_groups left shift result r ≢ out_of_fuel
unfolding read_groups
read_groups_ends zero shift result r = err_ends _
read_groups_ends (suc left) shift result r = bind_ends (next_byte r) _ (next_byte_ends r) λ p.
    elim (Bool-cases (bit_and p.0 0x80 == 0)) [
      | inl e ↦ rw e (ok_ends _)
      | inr e ↦ rw e (read_groups_ends left (shift + 7) _ p.1)
    ]

read_varint_ends : (r : Reader) → read_varint r ≢ out_of_fuel
unfolding read_varint
read_varint_ends r =
    bind_ends (ok_or (get_elem? r.buf r.pos) unexpected_eof) _ (ok_or_ends _ _)
      λ first. if_ends (bit_and first 0x80 == 0) _ _ (ok_ends _) (read_groups_ends 9 7 _ _)

read_tag_ends : (r : Reader) → read_tag r ≢ out_of_fuel
unfolding read_tag
read_tag_ends r = bind_ends (read_varint r) _ (read_varint_ends r) λ p.
    bind_ends (ok_or (from_u64 (bit_and p.0 7)) (invalid_wire_type (bit_and p.0 7))) _
      (ok_or_ends _ _)
      λ w.
        if_ends (p.0 / 2 ^ 3 == 0 || ltb max_field_number (p.0 / 2 ^ 3)) _ _ (err_ends _)
          (ok_ends _)

read_fixed32_ends : (r : Reader) → read_fixed32 r ≢ out_of_fuel
unfolding read_fixed32
read_fixed32_ends r =
    bind_ends (ok_or (get_range r.buf r.pos (r.pos + 4)) unexpected_eof) _ (ok_or_ends _ _)
      (λ b. ok_ends _)

read_fixed64_ends : (r : Reader) → read_fixed64 r ≢ out_of_fuel
unfolding read_fixed64
read_fixed64_ends r =
    bind_ends (ok_or (get_range r.buf r.pos (r.pos + 8)) unexpected_eof) _ (ok_or_ends _ _)
      (λ b. ok_ends _)

read_len_delimited_ends : (r : Reader) → read_len_delimited r ≢ out_of_fuel
unfolding read_len_delimited
read_len_delimited_ends r = bind_ends (read_varint r) _ (read_varint_ends r) λ p.
    if_ends (leb (2 ^ 64) (p.1.pos + p.0)) _ _ (err_ends _)
      (if_ends (ltb (length p.1.buf) (p.1.pos + p.0)) _ _ (err_ends _) (ok_ends _))

pub skip_ends : (w : WireType) (r : Reader) → skip w r ≢ out_of_fuel
unfolding skip
skip_ends varint r = bind_ends (read_varint r) _ (read_varint_ends r) (λ p. ok_ends _)
skip_ends i64 r = bind_ends (read_fixed64 r) _ (read_fixed64_ends r) (λ p. ok_ends _)
skip_ends i32 r = bind_ends (read_fixed32 r) _ (read_fixed32_ends r) (λ p. ok_ends _)
skip_ends len r = bind_ends (read_len_delimited r) _ (read_len_delimited_ends r) (λ p. ok_ends _)

pub read_varint-Steps : (r : Reader) → Steps r (read_varint r)
read_varint-Steps r = Steps-intro (read_varint r) (read_varint_ends r) (read_varint-Moved r)

pub read_fixed32-Steps : (r : Reader) → Steps r (read_fixed32 r)
read_fixed32-Steps r = Steps-intro (read_fixed32 r) (read_fixed32_ends r) (read_fixed32-Moved r)

pub read_fixed64-Steps : (r : Reader) → Steps r (read_fixed64 r)
read_fixed64-Steps r = Steps-intro (read_fixed64 r) (read_fixed64_ends r) (read_fixed64-Moved r)

pub read_tag-Steps : (r : Reader) → Steps r (read_tag r)
read_tag-Steps r = Steps-intro (read_tag r) (read_tag_ends r) (λ t r'. read_tag-Moved r t.0 t.1 r')

pub read_len_delimited-Steps : (r : Reader) → Steps r (read_len_delimited r)
read_len_delimited-Steps r =
    Steps-intro (read_len_delimited r) (read_len_delimited_ends r) (read_len_delimited-Moved r)

-- The arm of a `match` that skips an unknown field.
pub Steps-skip :
    {E S : Type 0} (g : WireError → E) (w : WireType) (r : Reader) (s : S)
    → Steps r (map_err g (skip w r) >>= λ r'. ok (s, r'))
Steps-skip g w r s = elim (Result-cases (skip w r)) [
  | inl (r', e) ↦ rw e (moves (skip-Moved w r r' e))
  | inr (inl (x, e)) ↦ rw e fails
  | inr (inr e) ↦ absurd (skip_ends w r e)
]

-- The same where errors stay errors of the wire.
pub Steps-skip_wire :
    {S : Type 0} (w : WireType) (r : Reader) (s : S) → Steps r (skip w r >>= λ r'. ok (s, r'))
Steps-skip_wire w r s = elim (Result-cases (skip w r)) [
  | inl (r', e) ↦ rw e (moves (skip-Moved w r r' e))
  | inr (inl (x, e)) ↦ rw e fails
  | inr (inr e) ↦ absurd (skip_ends w r e)
]

-- A loop whose body takes steps ends within its fuel on every input.
pub read_all_ends :
    {E S : Type 0} (body : S → Reader → Result E (S × Reader))
    → ((s : S) (r : Reader) → Steps r (body s r))
    → (s : S) (bytes : List ℕ) → read_all body s bytes ≢ out_of_fuel
unfolding read_all
read_all_ends body steps s bytes =
    read_while_ends body (λ s r s' r' e. Steps-Moved s' r' (steps s r) e)
      (λ s r. Steps-ends (steps s r)) (length bytes) s (new bytes) (omega arith)
