-- ===== src/Python/Post.antt =====
-- What holds of a value that is returned, where nothing panics and everything ends.
use fastproto.Common.{
  ℕ, zero, suc, ◌≤◌, ◌≡◌, refl, subst, if◌then◌else◌, Bool, Bool-cases, inl, inr, true, false,
  Option, none, some, List, length, Result, ok, err, ◌>>=◌, ok_or, map_err, arith,
}
use fastproto.Wire.Reader.{Reader, Read, new, is_empty}
use fastproto.Wire.Progress.{Moved}
use fastproto.Wire.Steps.{Steps, moves, fails}
use fastproto.Wire.Loop.{
  read_while, read_all, read_while_done, read_while_step, remaining, is_empty→le, fuel_left,
}
use fastproto.Python.{CodecError, malformed}
use fastproto.Python.Safe.{Safe, is_panic, returns, raises}

pub data Post {A : Type 0} (P : A → Type 0) : Result CodecError A → Type 0 where
  yields : {a : A} → P a → Post P (ok a)
  throws : {e : CodecError} → is_panic e ≡ false → Post P (err e)

module _ {A : Type 0} where
  pub Post-Safe : {P : A → Type 0} {m : Result CodecError A} → Post P m → Safe m
  Post-Safe (yields h) = returns
  Post-Safe (throws h) = raises h

  pub Post-any : {m : Result CodecError A} → Safe m → Post (λ a. Unit {0}) m
  Post-any (returns) = yields tt
  Post-any (raises h) = throws h

  pub Post-map :
      {P Q : A → Type 0} {m : Result CodecError A} → ((a : A) → P a → Q a) → Post P m → Post Q m
  Post-map k (yields {a} h) = yields (k a h)
  Post-map k (throws h) = throws h

  pub Post-if :
      {P : A → Type 0} (b : Bool) {x y : Result CodecError A}
      → Post P x
      → Post P y
      → Post P (if b then x else y)
  Post-if true hx hy = hx
  Post-if false hx hy = hy

  pub Post-ok_or :
      (o : Option A) (e : CodecError) → is_panic e ≡ false → Post (λ a. o ≡ some a) (ok_or o e)
  Post-ok_or none e h = throws h
  Post-ok_or (some a) e h = yields refl

  -- What holds of a result that was returned.
  pub Post-eq : (P : A → Type 0) (m : Result CodecError A) → Post P m → (a : A) → m ≡ ok a → P a
  Post-eq P m (yields h) a e = subst P (cc) h
  Post-eq P m (throws h) a e = cc

module _ {A B : Type 0} where
  pub Post-bind :
      {P : A → Type 0} {Q : B → Type 0} (m : Result CodecError A) (f : A → Result CodecError B)
      → Post P m
      → ((a : A) → P a → Post Q (f a))
      → Post Q (m >>= f)
  Post-bind m f (yields {a} h) k = k a h
  Post-bind m f (throws h) k = throws h

-- A read of the cursor of the wire.
pub Post-Steps :
    {A : Type 0} {r : Reader} {m : Read A}
    → Steps r m
    → Post (λ p. Moved r p.1) (map_err malformed m)
Post-Steps (moves h) = yields h
Post-Steps fails = throws refl

-- A loop keeps what its body keeps.
module _ {S : Type 0} (P : S → Type 0) (body : S → Reader → Result CodecError (S × Reader))
    (step : (s : S) (r : Reader) → P s → Post (λ p. P p.0 × Moved r p.1) (body s r)) where
  read_while-Post :
      (fuel : ℕ) (s : S) (r : Reader) → P s → remaining r ≤ fuel → Post P (read_while body fuel s r)
  read_while-Post zero s r h room = elim (Bool-cases (is_empty r)) [
    | inl e ↦ rw (read_while_done body 0 s r e) (yields h)
    | inr e ↦ absurd (omega (arith, is_empty→le body r e))
  ]
  read_while-Post (suc fuel) s r h room = elim (Bool-cases (is_empty r)) [
    | inl e ↦ rw (read_while_done body (suc fuel) s r e) (yields h)
    | inr e ↦ rw (read_while_step body fuel s r e) (
        Post-bind (body s r) _ (step s r h)
          (λ p q. read_while-Post fuel p.0 p.1 q.0 (fuel_left body r p.1 fuel q.1 room)))
  ]

  pub read_all-Post : (s : S) (bytes : List ℕ) → P s → Post P (read_all body s bytes)
  unfolding read_all
  read_all-Post s bytes h = read_while-Post (length bytes) s (new bytes) h (omega arith)
