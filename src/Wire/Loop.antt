-- ===== src/Wire/Loop.antt =====
-- The loop `while !reader.is_empty() { ... }` that every decoder of the crate is built on. Its
-- body takes the loop's variables and the reader. A body that takes a byte at least leaves the
-- loop at most as many rounds as there are bytes, so that number is the fuel.
use fastproto.Common.{
  ℕ, zero, suc, ◌-◌, ◌≤◌, ◌<◌, ◌≡◌, ◌≢◌, true, false, Bool-cases, inl, inr, length, List, Result,
  ok, out_of_fuel, ◌>>=◌, >>=-eq-ok, le→leb, leb→lt, arith, ap, sym, subst, ◌∙◌, Result-cases,
}
use fastproto.Wire.Reader.{Reader, new, is_empty}
use fastproto.Wire.Progress.{Moved}

abbrev pub remaining : Reader → ℕ
remaining r = length r.buf - r.pos

module _ {E S : Type 0} (body : S → Reader → Result E (S × Reader)) where
  unfoldable pub read_while : ℕ → S → Reader → Result E S
  read_while zero s r = elim (is_empty r) [ true ↦ ok s | false ↦ out_of_fuel ]
  read_while (suc fuel) s r = elim (is_empty r) [
    | true ↦ ok s
    | false ↦ do (s', r') ← body s r; read_while fuel s' r'
  ]

  unfoldable pub read_all : S → List ℕ → Result E S
  read_all s bytes = read_while (length bytes) s (new bytes)

  -- A round that succeeds has moved the reader.
  abbrev pub Advances : Type 0
  Advances = (s : S) (r : Reader) (s' : S) (r' : Reader) → body s r ≡ ok (s', r') → Moved r r'

  -- No round runs out of the fuel of a loop inside it.
  abbrev pub Ends : Type 0
  Ends = (s : S) (r : Reader) → body s r ≢ out_of_fuel

  pub read_while_done :
      (fuel : ℕ) (s : S) (r : Reader) → is_empty r ≡ true → read_while fuel s r ≡ ok s
  unfolding read_while
  read_while_done zero s r e = rw (e, read_while)
  read_while_done (suc fuel) s r e = rw (e, read_while)

  pub read_while_short :
      (s : S) (r : Reader) → is_empty r ≡ false → read_while zero s r ≡ out_of_fuel
  unfolding read_while
  read_while_short s r e = rw (e, read_while)

  pub read_while_step :
      (fuel : ℕ) (s : S) (r : Reader)
      → is_empty r ≡ false
      → read_while (suc fuel) s r ≡ (body s r >>= λ p. read_while fuel p.0 p.1)
  unfolding read_while
  read_while_step fuel s r e = rw (e, read_while)

  pub is_empty→le : (r : Reader) → is_empty r ≡ false → r.pos < length r.buf
  unfolding is_empty
  is_empty→le r e = leb→lt _ _ e

  le→is_empty : (r : Reader) → length r.buf ≤ r.pos → is_empty r ≡ true
  unfolding is_empty
  le→is_empty r h = le→leb _ _ h

  pub fuel_left :
      (r r' : Reader) (fuel : ℕ) → Moved r r' → remaining r ≤ suc fuel → remaining r' ≤ fuel
  fuel_left r r' fuel m h = omega (arith, m.forward, m.inside, ap length m.same_buf)

  pub read_while_ends :
      Advances
      → Ends
      → (fuel : ℕ) (s : S) (r : Reader) → remaining r ≤ fuel
      → read_while fuel s r ≢ out_of_fuel
  read_while_ends adv ends zero s r h =
      λ e. cc (e, read_while_done 0 s r (le→is_empty r (omega arith)))
  read_while_ends adv ends (suc fuel) s r h = elim (Bool-cases (is_empty r)) [
    | inl done ↦ λ e. cc (e, read_while_done (suc fuel) s r done)
    | inr more ↦ rw (read_while_step fuel s r more) (elim (Result-cases (body s r)) [
      | inl ((s', r'), e) ↦
          rw e (read_while_ends adv ends fuel s' r' (fuel_left r r' fuel (adv s r s' r' e) h))
      | inr (inl (x, e)) ↦ rw e (λ p. cc)
      | inr (inr e) ↦ absurd (ends s r e)
    ])
  ]

  -- What a round keeps, the loop keeps.
  pub read_while_inv :
      (P : S → Type 0)
      → ((s : S) (r : Reader) (s' : S) (r' : Reader) → P s → body s r ≡ ok (s', r') → P s')
      → (fuel : ℕ) (s : S) (r : Reader) (t : S) → P s
      → read_while fuel s r ≡ ok t
      → P t
  read_while_inv P keep zero s r t h e = elim (Bool-cases (is_empty r)) [
    | inl done ↦ subst P (cc (e, read_while_done 0 s r done)) h
    | inr more ↦ cc (e, read_while_short s r more)
  ]
  read_while_inv P keep (suc fuel) s r t h e = elim (Bool-cases (is_empty r)) [
    | inl done ↦ subst P (cc (e, read_while_done (suc fuel) s r done)) h
    | inr more ↦
        let ((s', r'), first, rest) =
          >>=-eq-ok (body s r) (λ p. read_while fuel p.0 p.1)
            (sym (read_while_step fuel s r more) ∙ e) in
        read_while_inv P keep fuel s' r' t (keep s r s' r' h first) rest
  ]

  -- The run of the loop, with no fuel.
  pub data Runs : S → Reader → S → Type 0 where
    finished : {s : S} {r : Reader} → is_empty r ≡ true → Runs s r s
    round :
        {s s' t : S} {r r' : Reader}
        → is_empty r ≡ false
        → body s r ≡ ok (s', r')
        → Runs s' r' t
        → Runs s r t

  pub Runs→read_while :
      Advances
      → {s t : S} {r : Reader} (fuel : ℕ) → Runs s r t
      → remaining r ≤ fuel
      → read_while fuel s r ≡ ok t
  Runs→read_while adv {s = s} {r = r} fuel (finished done) h = read_while_done fuel s r done
  Runs→read_while adv {r = r} zero (round more e rest) h =
      absurd (omega (arith, is_empty→le r more))
  Runs→read_while adv {s = s} {r = r} (suc fuel) (round {s' = s'} {r' = r'} more e rest) h =
      rw (read_while_step fuel s r more, e)
        (Runs→read_while adv fuel rest (fuel_left r r' fuel (adv s r s' r' e) h))
