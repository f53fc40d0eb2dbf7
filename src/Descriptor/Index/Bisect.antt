-- ===== src/Descriptor/Index/Bisect.antt =====
-- The binary search of `FieldIndex::get` finds what a linear search of the sorted pairs finds.
use fastproto.Common.{
  ℕ, zero, suc, ◌+◌, ◌-◌, ◌/◌, ◌≤◌, ◌<◌, ◌≡◌, ◌≢◌, refl, ◌==◌, ltb, true, false, none, some, List,
  [], ◌∷◌, length, get_elem?, Bool-cases, inl, inr, ltb→lt, ltb→le, ==→eq, ==→ne, arith, sym, ◌∙◌,
  ap,
}
use fastproto.Descriptor.Index.Defs.{bisect}
use fastproto.Descriptor.Index.Sorted.{assoc, Strict}

-- The keys of strictly rising pairs.
key_bound :
    (b : ℕ) (ps : List (ℕ × ℕ)) (j k i : ℕ) → Strict b ps → get_elem? ps j ≡ some (k, i) → b ≤ k
key_bound b [] j k i s e = cc
key_bound b (p ∷ ps) zero k i (h, s) e = ground arith
key_bound b (p ∷ ps) (suc j) k i (h, s) e = omega (arith, key_bound (p.0 + 1) ps j k i s e)

key_mono :
    (b : ℕ) (ps : List (ℕ × ℕ)) (j m k i k' i' : ℕ)
    → Strict b ps
    → j < m
    → get_elem? ps j ≡ some (k, i)
    → get_elem? ps m ≡ some (k', i')
    → k < k'
key_mono b [] j m k i k' i' s l e e' = cc
key_mono b (p ∷ ps) j zero k i k' i' s l e e' = absurd (omega arith)
key_mono b (p ∷ ps) zero (suc m) k i k' i' (h, s) l e e' =
    ground (arith, key_bound (p.0 + 1) ps m k' i' s e')
key_mono b (p ∷ ps) (suc j) (suc m) k i k' i' (h, s) l e e' =
    key_mono (p.0 + 1) ps j m k i k' i' s (omega arith) e e'

assoc_found :
    (b : ℕ) (ps : List (ℕ × ℕ)) (m k i : ℕ)
    → Strict b ps
    → get_elem? ps m ≡ some (k, i)
    → assoc k ps ≡ some i
assoc_found b [] m k i s e = cc
assoc_found b (p ∷ ps) zero k i (h, s) e = ground arith
assoc_found b (p ∷ ps) (suc m) k i (h, s) e =
    ground (arith, key_bound (p.0 + 1) ps m k i s e, assoc_found (p.0 + 1) ps m k i s e)

assoc_absent :
    (n : ℕ) (ps : List (ℕ × ℕ))
    → ((j k i : ℕ) → get_elem? ps j ≡ some (k, i) → k ≢ n)
    → assoc n ps ≡ none
assoc_absent n [] h = refl
assoc_absent n ((k, i) ∷ ps) h = ground (arith, h 0 k i refl, assoc_absent n ps (λ j. h (suc j)))

get_elem?-cases :
    (ps : List (ℕ × ℕ)) (m : ℕ) → m < length ps → (k : ℕ) × (i : ℕ) × (get_elem? ps m ≡ some (k, i))
get_elem?-cases [] m h = absurd (omega arith)
get_elem?-cases ((k, i) ∷ ps) zero h = (k, i, refl)
get_elem?-cases (p ∷ ps) (suc m) h = get_elem?-cases ps m (omega arith)

module _ (ps : List (ℕ × ℕ)) (s : Strict 0 ps) (n : ℕ) where
  -- Only places in `lo..hi` may hold the key.
  abbrev Within : ℕ → ℕ → Type 0
  Within lo hi = (j k i : ℕ) → get_elem? ps j ≡ some (k, i) → k ≡ n → (lo ≤ j) × (j < hi)

  -- `mid` lies in the range, and each half is smaller.
  go_right :
      (lo hi m k i : ℕ) → get_elem? ps m ≡ some (k, i) → k < n → Within lo hi → Within (m + 1) hi
  go_right lo hi m k i at less w j k' i' e e' =
      let (from, to) = w j k' i' e e' in
      (
        elim (Bool-cases (ltb m j)) [
          | inl l ↦ omega (arith, ltb→lt m j l)
          | inr l ↦ absurd (below (ltb→le m j l))
        ],
        to,
      )
    where
      below : j ≤ m → ⊥
      below h = elim (Bool-cases (j == m)) [
        | inl same ↦ ground (arith, ==→eq j m same, e, at)
        | inr other ↦
            omega (arith, key_mono 0 ps j m k' i' k i s (omega (arith, ==→ne j m other)) e at)
      ]

  go_left : (lo hi m k i : ℕ) → get_elem? ps m ≡ some (k, i) → n < k → Within lo hi → Within lo m
  go_left lo hi m k i at more w j k' i' e e' =
      let (from, to) = w j k' i' e e' in
      (
        from,
        elim (Bool-cases (ltb j m)) [
          | inl l ↦ ltb→lt j m l
          | inr l ↦ absurd (above (ltb→le j m l))
        ],
      )
    where
      above : m ≤ j → ⊥
      above h = elim (Bool-cases (j == m)) [
        | inl same ↦ ground (arith, ==→eq j m same, e, at)
        | inr other ↦
            omega (arith, key_mono 0 ps m j k i k' i' s (omega (arith, ==→ne j m other)) at e)
      ]

  empty_range : (lo hi : ℕ) → hi ≤ lo → Within lo hi → none ≡ assoc n ps
  empty_range lo hi h w =
      sym (assoc_absent n ps (λ j k i e e'. let (from, to) = w j k i e e' in omega arith))

  module _ (fuel lo hi k i : ℕ) where
    abbrev mid_of : ℕ
    mid_of = lo + (hi - lo) / 2

    bisect_stop : ltb lo hi ≡ false → bisect (suc fuel) ps n lo hi ≡ none
    unfolding bisect
    bisect_stop e = rw (e, bisect)

    bisect_hit :
        ltb lo hi ≡ true
        → get_elem? ps mid_of ≡ some (k, i)
        → (k == n) ≡ true
        → bisect (suc fuel) ps n lo hi ≡ some i
    unfolding bisect
    bisect_hit e at found = rw (e, bisect) (rw (at, found))

    bisect_right :
        ltb lo hi ≡ true
        → get_elem? ps mid_of ≡ some (k, i)
        → (k == n) ≡ false
        → ltb k n ≡ true
        → bisect (suc fuel) ps n lo hi ≡ bisect fuel ps n (mid_of + 1) hi
    unfolding bisect
    bisect_right e at other less = rw (e, bisect) (rw (at, other, less))

    bisect_left :
        ltb lo hi ≡ true
        → get_elem? ps mid_of ≡ some (k, i)
        → (k == n) ≡ false
        → ltb k n ≡ false
        → bisect (suc fuel) ps n lo hi ≡ bisect fuel ps n lo mid_of
    unfolding bisect
    bisect_left e at other more = rw (e, bisect) (rw (at, other, more))

  bisect-eq-assoc :
      (fuel lo hi : ℕ)
      → hi - lo ≤ fuel
      → hi ≤ length ps
      → Within lo hi
      → bisect fuel ps n lo hi ≡ assoc n ps
  bisect-eq-assoc zero lo hi f h w = unfold bisect in empty_range lo hi (omega arith) w
  bisect-eq-assoc (suc fuel) lo hi f h w = elim (Bool-cases (ltb lo hi)) [
    | inr e ↦ bisect_stop fuel lo hi 0 0 e ∙ empty_range lo hi (ltb→le _ _ e) w
    | inl e ↦
        let mid = lo + (hi - lo) / 2 in
        let nonempty = ltb→lt lo hi e in
        let (k, i, at) = get_elem?-cases ps mid (omega arith) in
        elim (Bool-cases (k == n)) [
          | inl found ↦
              bisect_hit fuel lo hi k i e at found
              ∙ sym (
                  ap (λ (m : ℕ). assoc m ps) (sym (==→eq k n found))
                  ∙ assoc_found 0 ps mid k i s at)
          | inr other ↦ elim (Bool-cases (ltb k n)) [
            | inl less ↦
                bisect_right fuel lo hi k i e at other less
                ∙ bisect-eq-assoc fuel (mid + 1) hi (omega arith) h
                    (go_right lo hi mid k i at (ltb→lt k n less) w)
            | inr more ↦
                bisect_left fuel lo hi k i e at other more
                ∙ bisect-eq-assoc fuel lo mid (omega arith) (omega arith)
                    (go_left lo hi mid k i at (omega (arith, ltb→le k n more, ==→ne k n other)) w)
          ]
        ]
  ]

get_elem?-lt : (ps : List (ℕ × ℕ)) (j k i : ℕ) → get_elem? ps j ≡ some (k, i) → j < length ps
get_elem?-lt [] j k i e = cc
get_elem?-lt (p ∷ ps) zero k i e = omega arith
get_elem?-lt (p ∷ ps) (suc j) k i e = omega (arith, get_elem?-lt ps j k i e)

pub bisect_all :
    (ps : List (ℕ × ℕ)) (n : ℕ) → Strict 0 ps → bisect (length ps) ps n 0 (length ps) ≡ assoc n ps
bisect_all ps n s =
    bisect-eq-assoc ps s n (length ps) 0 (length ps) (omega arith) (omega arith)
      λ j k i e _. (omega arith, get_elem?-lt ps j k i e)
