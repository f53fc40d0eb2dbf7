-- ===== src/Python/Safe.antt =====
-- What ends, and without a panic: it returns a value or raises an exception.
use fastproto.Common.{
  ℕ, ◌<◌, ◌≡◌, ◌≢◌, refl, if◌then◌else◌, Bool, true, false, Option, none, some, Result, ok, err,
  out_of_fuel, ◌>>=◌, ok_or, map_err,
}
use fastproto.Python.{Python, Runtime, CodecError, panicked}

abbrev pub is_panic : CodecError → Bool
is_panic panicked = true
is_panic _ = false

-- No item: the iterator stops or raises.
abbrev pub Stops : {A : Type 0} → Option (Option A) → Type 0
Stops none = Unit
Stops (some none) = Unit
Stops (some (some item)) = ⊥

-- Every iterator ends, within the calls that there is fuel for.
abbrev pub IteratorsEnd : {py : Python} → Runtime py → Type 0
IteratorsEnd {py} rt =
    (o : py.Obj) (iterator : ℕ → Option (Option py.Obj))
    → rt.try_iter o ≡ some iterator
    → (n : ℕ) × (n < rt.patience) × Stops (iterator n)

pub data Safe {A : Type 0} : Result CodecError A → Type 0 where
  returns : {a : A} → Safe (ok a)
  raises : {e : CodecError} → is_panic e ≡ false → Safe (err e)

module _ {A : Type 0} where
  pub Safe-ends : (m : Result CodecError A) → Safe m → m ≢ out_of_fuel
  Safe-ends m (returns) = λ e. cc
  Safe-ends m (raises h) = λ e. cc

  pub Safe-calm : (m : Result CodecError A) → Safe m → m ≢ err panicked
  Safe-calm m (returns) = λ e. cc
  Safe-calm m (raises {e} h) = λ p. absurd (calm e h p)
    where
      calm :
          (e : CodecError)
          → is_panic e ≡ false
          → ◌≢◌ {A = Result CodecError A} (err e) (err panicked)
      calm e h p = cc (h, p)

  pub Safe-if : (b : Bool) {x y : Result CodecError A} → Safe x → Safe y → Safe (if b then x else y)
  Safe-if true hx hy = hx
  Safe-if false hx hy = hy

  pub Safe-ok_or : (o : Option A) (e : CodecError) → is_panic e ≡ false → Safe (ok_or o e)
  Safe-ok_or none e h = raises h
  Safe-ok_or (some a) e h = returns

  pub Safe-map_err :
      {E : Type 0} (g : E → CodecError) (m : Result E A)
      → m ≢ out_of_fuel
      → ((e : E) → is_panic (g e) ≡ false)
      → Safe (map_err g m)
  Safe-map_err g (ok a) ends h = returns
  Safe-map_err g (err e) ends h = raises (h e)
  Safe-map_err g out_of_fuel ends h = absurd (ends refl)

module _ {A B : Type 0} where
  pub Safe-bind :
      (m : Result CodecError A) (f : A → Result CodecError B)
      → Safe m
      → ((a : A) → m ≡ ok a → Safe (f a))
      → Safe (m >>= f)
  Safe-bind m f (returns {a}) k = k a refl
  Safe-bind m f (raises h) k = raises h
