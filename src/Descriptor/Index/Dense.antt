-- ===== src/Descriptor/Index/Dense.antt =====
-- The table of `FieldIndex::Dense` holds the place of the first field with each number.
use fastproto.Common.{
  ℕ, zero, suc, ◌+◌, ◌≤◌, ◌<◌, ◌≡◌, refl, ◌==◌, if◌then◌else◌, Option, none, some, List, [], ◌∷◌,
  length, get_elem?, set, replicate, length-set, arith, ◌≢◌, ap,
}
use fastproto.Descriptor.Types.{FieldDescriptor}
use fastproto.Descriptor.Index.Defs.{max_number, slot_at, fill, position}

abbrev pub slot_of : Option ℕ → ℕ
slot_of none = 0
slot_of (some i) = i + 1

slot_at-set_self : (t : List ℕ) (n v : ℕ) → n < length t → slot_at (set t n v) n ≡ v
slot_at-set_self [] n v h = absurd (omega arith)
slot_at-set_self (x ∷ t) zero v h = refl
slot_at-set_self (x ∷ t) (suc n) v h = slot_at-set_self t n v (omega arith)

slot_at-set_ne : (t : List ℕ) (n m v : ℕ) → n ≢ m → slot_at (set t n v) m ≡ slot_at t m
slot_at-set_ne [] n m v h = refl
slot_at-set_ne (x ∷ t) zero zero v h = absurd (h refl)
slot_at-set_ne (x ∷ t) zero (suc m) v h = refl
slot_at-set_ne (x ∷ t) (suc n) zero v h = refl
slot_at-set_ne (x ∷ t) (suc n) (suc m) v h = slot_at-set_ne t n m v (λ e. h (ap suc e))

pub length-fill : (i : ℕ) (fs : List FieldDescriptor) (t : List ℕ) → length (fill i fs t) ≡ length t
unfolding fill
length-fill i [] t = refl
length-fill i (f ∷ fs) t = ground (
  arith,
  length-set t f.number (i + 1),
  length-fill (i + 1) fs (set t f.number (i + 1)),
  length-fill (i + 1) fs t,
)

-- Where a slot is free the loop stores the first field with its number.
pub slot_at-fill :
    (i n : ℕ) (fs : List FieldDescriptor) (t : List ℕ)
    → max_number fs < length t
    → slot_at (fill i fs t) n
      ≡ (if slot_at t n == 0 then slot_of (position i fs n) else slot_at t n)
unfolding fill position max_number
slot_at-fill i n [] t h = ground arith
slot_at-fill i n (f ∷ fs) t h = ground (
  arith,
  length-set t f.number (i + 1),
  slot_at-set_self t f.number (i + 1),
  slot_at-set_ne t f.number n (i + 1),
  slot_at-fill (i + 1) n fs (set t f.number (i + 1)),
  slot_at-fill (i + 1) n fs t,
)

pub slot_at-replicate : (k n : ℕ) → slot_at (replicate k 0) n ≡ 0
slot_at-replicate zero n = refl
slot_at-replicate (suc k) zero = refl
slot_at-replicate (suc k) (suc n) = slot_at-replicate k n

pub get_elem?-slot_at : (t : List ℕ) (n : ℕ) → n < length t → get_elem? t n ≡ some (slot_at t n)
get_elem?-slot_at [] n h = absurd (omega arith)
get_elem?-slot_at (x ∷ t) zero h = refl
get_elem?-slot_at (x ∷ t) (suc n) h = get_elem?-slot_at t n (omega arith)

pub get_elem?-beyond : (t : List ℕ) (n : ℕ) → length t ≤ n → get_elem? t n ≡ none
get_elem?-beyond [] n h = refl
get_elem?-beyond (x ∷ t) zero h = absurd (omega arith)
get_elem?-beyond (x ∷ t) (suc n) h = get_elem?-beyond t n (omega arith)

pub position_beyond :
    (i n : ℕ) (fs : List FieldDescriptor) → max_number fs < n → position i fs n ≡ none
unfolding position max_number
position_beyond i n [] h = refl
position_beyond i n (f ∷ fs) h = ground (arith, position_beyond (i + 1) n fs)
