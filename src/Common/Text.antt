-- ===== src/Common/Text.antt =====
-- Operations on strings, as lists of bytes, that Rust's `str` gives.
use Prim.Native.Nat.{ℕ}
use mathlib.Core.Path.{◌≡◌, refl}
use mathlib.Core.Bool.{Bool, true, false, ◌&&◌}
use mathlib.Core.Option.{Option, none, some}
use mathlib.Core.List.{List, [], ◌∷◌, reverse}
use native.Mathlib.Omega.{arith}
use fastproto.Common.Tests.{◌==◌, if◌then◌else◌}
use fastproto.Common.Utf8.{Text}

-- `==` of strings.
unfoldable pub text_eq : Text → Text → Bool
text_eq [] [] = true
text_eq [] (b ∷ bs) = false
text_eq (a ∷ as') [] = false
text_eq (a ∷ as') (b ∷ bs) = a == b && text_eq as' bs

abbrev onto_head : ℕ → List Text → List Text
onto_head c [] = (c ∷ []) ∷ []
onto_head c (s ∷ ss) = (c ∷ s) ∷ ss

-- `split(c)`
unfoldable pub split : ℕ → Text → List Text
split c [] = [] ∷ []
split c (b ∷ bs) = let rest = split c bs in if b == c then [] ∷ rest else onto_head b rest

-- `rsplit(c)`: the same parts, the last first.
unfoldable pub rsplit : ℕ → Text → List Text
rsplit c s = reverse (split c s)

-- `strip_prefix(c)`
unfoldable pub strip_prefix : ℕ → Text → Option Text
strip_prefix c [] = none
strip_prefix c (b ∷ bs) = if b == c then some bs else none

pub text_eq_refl : (a : Text) → text_eq a a ≡ true
unfolding text_eq
text_eq_refl [] = refl
text_eq_refl (b ∷ bs) = ground (arith, text_eq_refl bs)

pub text_eq→eq : (a b : Text) → text_eq a b ≡ true → a ≡ b
unfolding text_eq
text_eq→eq [] [] h = refl
text_eq→eq [] (b ∷ bs) h = cc
text_eq→eq (a ∷ as') [] h = cc
text_eq→eq (a ∷ as') (b ∷ bs) h = ground (arith, text_eq→eq as' bs)
