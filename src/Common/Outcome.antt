-- ===== src/Common/Outcome.antt =====
-- Rust's `Result` as a data type, with `?` as bind. `out_of_fuel` is no value of the program: a
-- loop of the model stopped before the program's loop would.
use mathlib.Core.Path.{◌≡◌, refl, subst}
use mathlib.Core.Option.{Option, none, some}
use mathlib.Core.Logic.{◌≢◌, ◌⊎◌, inl, inr}
use mathlib.Core.Bool.{Bool, true, false}
use fastproto.Common.Tests.{if◌then◌else◌}

pub data Result {ℓ} (E : Type 0) (A : Type ℓ) : Type ℓ where
  ok : A → Result E A
  err : E → Result E A
  out_of_fuel : Result E A

infixl 5 ◌>>=◌
abbrev pub ◌>>=◌ {ℓ κ} :
    {E : Type 0} {A : Type ℓ} {B : Type κ} → Result E A → (A → Result E B) → Result E B
out_of_fuel >>= next = out_of_fuel
err e >>= next = err e
ok a >>= next = next a

-- `map_err`, and the `From` conversion that `?` makes.
abbrev pub map_err {ℓ} : {E F : Type 0} {A : Type ℓ} → (E → F) → Result E A → Result F A
map_err g (ok a) = ok a
map_err g (err e) = err (g e)
map_err g out_of_fuel = out_of_fuel

-- `ok_or`
abbrev pub ok_or {ℓ} : {E : Type 0} {A : Type ℓ} → Option A → E → Result E A
ok_or (some a) e = ok a
ok_or none e = err e

-- Inversion of a successful bind.
pub >>=-eq-ok {ℓ κ} :
    {E : Type 0} {A : Type ℓ} {B : Type κ} (first : Result E A) (next : A → Result E B) {y : B}
    → (first >>= next) ≡ ok y
    → (x : A) × (first ≡ ok x) × (next x ≡ ok y)
>>=-eq-ok out_of_fuel next h = cc
>>=-eq-ok (err e) next h = cc
>>=-eq-ok (ok x) next h = (x, refl, h)

pub >>=_assoc {ℓ κ μ} :
    {E : Type 0} {A : Type ℓ} {B : Type κ} {C : Type μ} (m : Result E A) (f : A → Result E B)
    (g : B → Result E C)
    → ((m >>= f) >>= g) ≡ (m >>= λ a. f a >>= g)
>>=_assoc (ok a) f g = refl
>>=_assoc (err e) f g = refl
>>=_assoc out_of_fuel f g = refl

pub Result-cases {ℓ} :
    {E : Type 0} {A : Type ℓ} (m : Result E A)
    → ((a : A) × (m ≡ ok a)) ⊎ ((e : E) × (m ≡ err e)) ⊎ (m ≡ out_of_fuel)
Result-cases (ok a) = inl (a, refl)
Result-cases (err e) = inr (inl (e, refl))
Result-cases out_of_fuel = inr (inr refl)

-- What does not run out of fuel, put together.
pub bind_ends {ℓ κ} :
    {E : Type 0} {A : Type ℓ} {B : Type κ} (m : Result E A) (f : A → Result E B)
    → m ≢ out_of_fuel
    → ((a : A) → f a ≢ out_of_fuel)
    → (m >>= f) ≢ out_of_fuel
bind_ends (ok a) f h k = k a
bind_ends (err e) f h k = λ p. cc
bind_ends out_of_fuel f h k = absurd (h refl)

pub ok_or_ends {ℓ} : {E : Type 0} {A : Type ℓ} (o : Option A) (e : E) → ok_or o e ≢ out_of_fuel
ok_or_ends (some a) e = λ p. cc
ok_or_ends none e = λ p. cc

pub map_err_ends {ℓ} :
    {E F : Type 0} {A : Type ℓ} (g : E → F) (m : Result E A)
    → m ≢ out_of_fuel
    → map_err g m ≢ out_of_fuel
map_err_ends g (ok a) h = λ p. cc
map_err_ends g (err e) h = λ p. cc
map_err_ends g out_of_fuel h = absurd (h refl)

pub if_ends {ℓ} :
    {E : Type 0} {A : Type ℓ} (b : Bool) (x y : Result E A)
    → x ≢ out_of_fuel
    → y ≢ out_of_fuel
    → (if b then x else y) ≢ out_of_fuel
if_ends true x y h k = h
if_ends false x y h k = k

pub ok_ends {ℓ} : {E : Type 0} {A : Type ℓ} (a : A) → ◌≢◌ {A = Result E A} (ok a) out_of_fuel
ok_ends a = λ p. cc

pub err_ends {ℓ} : {E : Type 0} {A : Type ℓ} (e : E) → ◌≢◌ {A = Result E A} (err e) out_of_fuel
err_ends e = λ p. cc

-- Inversion of a guard that was passed.
pub guard-eq-ok {ℓ} :
    {E : Type 0} {A : Type ℓ} (b : Bool) (e : E) {x y : A}
    → (if b then err e else ok x) ≡ ok y
    → (b ≡ false) × (x ≡ y)
guard-eq-ok true e h = cc
guard-eq-ok false e h = (refl, cc)

-- What holds of a value, if one is returned.
abbrev pub Gives : {E A : Type 0} → (A → Type 0) → Result E A → Type 0
Gives P m = (a : _) → m ≡ ok a → P a

module _ {E A : Type 0} where
  pub Gives-ok : (P : A → Type 0) (a : A) → P a → Gives {E = E} P (ok a)
  Gives-ok P a h b e = subst P {x = a} {y = b} (cc e) h

  pub Gives-err : (P : A → Type 0) (x : E) → Gives P (err x)
  Gives-err P x b e = cc

  pub Gives-if :
      (P : A → Type 0) (b : Bool) (x y : Result E A)
      → (b ≡ true → Gives P x)
      → (b ≡ false → Gives P y)
      → Gives P (if b then x else y)
  Gives-if P true x y hx hy = hx refl
  Gives-if P false x y hx hy = hy refl

pub Gives-bind :
    {E A B : Type 0} (P : B → Type 0) (m : Result E A) (f : A → Result E B)
    → ((a : A) → m ≡ ok a → Gives P (f a))
    → Gives P (m >>= f)
Gives-bind P m f h b e = let (a, first, rest) = >>=-eq-ok m f e in h a first b rest

pub ok_or-eq-ok : {E A : Type 0} (o : Option A) (e : E) (a : A) → ok_or o e ≡ ok a → o ≡ some a
ok_or-eq-ok none e a h = cc
ok_or-eq-ok (some b) e a h = cc
