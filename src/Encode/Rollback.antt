-- ===== src/Encode/Rollback.antt =====
-- The packed field whose tag is taken back if it stays empty, in `encode_repeated` of
-- src/encode/mod.rs.
use fastproto.Common.{
  ℕ, ◌+◌, ◌==◌, ◌≡◌, refl, sym, ap, ◌∙◌, if◌then◌else◌, eq→==, ne→==, Bool, true, false, List, [],
  ◌∷◌, ◌++◌, length, length-append, take, take-append, append_assoc, append-nil, ok, err,
  out_of_fuel, ◌>>=◌, arith,
}
use fastproto.Wire.Types.{len}
use fastproto.Wire.Writer.{write_tag, begin_len_prefix, finish_len_prefix}
use fastproto.Encode.Repeated.{Written, framed, framed_or_nothing}
use fastproto.Encode.Writes.{
  Appends, Writes, Writes-framed, chunked, chunked_or_nothing, chunked-length, write_tag-behind,
}

-- The branch behind the payload.
rollback_total :
    (b : Bool) (x y : List ℕ)
    → (out : List ℕ) × (◌≡◌ {A = Written} (if b then ok x else ok y) (ok out))
rollback_total true x y = (x, refl)
rollback_total false x y = (y, refl)

slot_length :
    (buf : List ℕ) → length ((begin_len_prefix buf).0 ++ []) ≡ (begin_len_prefix buf).1 + 1
unfolding begin_len_prefix
slot_length buf = omega (arith, length-append (buf ++ (0 ∷ [])) [], length-append buf (0 ∷ []))

slot_filled :
    (buf : List ℕ) (b : ℕ) (p : List ℕ)
    → (length ((begin_len_prefix buf).0 ++ (b ∷ p)) == (begin_len_prefix buf).1 + 1) ≡ false
unfolding begin_len_prefix
slot_filled buf b p = ne→== _ _ (λ e.
    absurd (omega (arith, length-append (buf ++ (0 ∷ [])) (b ∷ p), length-append buf (0 ∷ []))))

taken_back :
    (buf : List ℕ) (number : ℕ)
    → take (length buf) ((begin_len_prefix (write_tag buf number len)).0 ++ []) ≡ buf
unfolding begin_len_prefix
taken_back buf number =
    rw
      (
        append-nil (write_tag buf number len ++ (0 ∷ [])),
        write_tag-behind buf number len,
        append_assoc buf (write_tag [] number len) (0 ∷ []),
      )
      (take-append buf (write_tag [] number len ++ (0 ∷ [])))

rollback_empty :
    (f : List ℕ → Written) (number : ℕ)
    → Appends f []
    → (buf : List ℕ) → framed_or_nothing f number buf ≡ ok (buf ++ [])
rollback_empty f number h buf =
    rw (h.exact (omega arith) (begin_len_prefix (write_tag buf number len)).0, ◌>>=◌)
      (rw (eq→== _ _ (slot_length (write_tag buf number len)))
        (ap ok (taken_back buf number ∙ sym (append-nil buf))))

kept :
    (f : List ℕ → Written) (number b : ℕ) (p buf : List ℕ)
    → f (begin_len_prefix (write_tag buf number len)).0
      ≡ ok ((begin_len_prefix (write_tag buf number len)).0 ++ (b ∷ p))
    → framed_or_nothing f number buf ≡ framed f number buf
kept f number b p buf h = rw (h, ◌>>=◌) (rw (slot_filled (write_tag buf number len) b p) refl)

rollback_total_buf :
    (f : List ℕ → Written) (number : ℕ)
    → ((buf : List ℕ) → (out : List ℕ) × (f buf ≡ ok out))
    → (buf : List ℕ) → (out : List ℕ) × (framed_or_nothing f number buf ≡ ok out)
rollback_total_buf f number h buf =
    let tag_start = length buf in
    let (reserved, len_pos) = begin_len_prefix (write_tag buf number len) in
    let (written, e) = h reserved in
    let (out, e') =
      rollback_total (length written == len_pos + 1) (take tag_start written)
        (finish_len_prefix written len_pos) in
    (out, rw (e, ◌>>=◌) e')

pub Writes-framed_or_nothing :
    (f : List ℕ → Written) (g : Written) (number : ℕ)
    → Writes f g
    → Writes (framed_or_nothing f number) (g >>= λ p. ok (chunked_or_nothing number p))
Writes-framed_or_nothing f (ok []) number h = record {
  total = rollback_total_buf f number h.total;
  exact = λ room. rollback_empty f number h;
}
Writes-framed_or_nothing f (ok (b ∷ p)) number h =
    let whole : Appends (framed f number) (chunked number (b ∷ p)) =
      Writes-framed f (ok (b ∷ p)) number h in
    record {
      total = rollback_total_buf f number h.total;
      exact = λ room buf.
          kept f number b p buf (
            h.exact (chunked-length number (b ∷ p) room)
              (begin_len_prefix (write_tag buf number len)).0)
          ∙ whole.exact room buf;
    }
Writes-framed_or_nothing f (err e) number h =
    λ buf. rw (h (begin_len_prefix (write_tag buf number len)).0, ◌>>=◌) refl
Writes-framed_or_nothing f out_of_fuel number h =
    λ buf. rw (h (begin_len_prefix (write_tag buf number len)).0, ◌>>=◌) refl
