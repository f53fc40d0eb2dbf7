-- ===== src/Descriptor/Index/Sorted.antt =====
-- The pairs of `FieldIndex::Sparse`: sorting and deduplication keep the first field of each number.
use fastproto.Common.{
  ℕ, ◌+◌, ◌≤◌, ◌≡◌, refl, ◌∙◌, ◌==◌, if◌then◌else◌, Option, none, some, List, [], ◌∷◌, All, arith,
}
use fastproto.Descriptor.Types.{FieldDescriptor}
use fastproto.Descriptor.Index.Defs.{enumerate, insert, sort, dedup_from, dedup, position}

-- The index that is paired first with a number.
abbrev pub assoc : ℕ → List (ℕ × ℕ) → Option ℕ
assoc n [] = none
assoc n ((k, i) ∷ ps) = if k == n then some i else assoc n ps

-- Every index is at least `i`.
abbrev From : ℕ → List (ℕ × ℕ) → Type 0
From i ps = All (λ p. i ≤ p.1) ps

From-insert : (i : ℕ) (p : ℕ × ℕ) (ps : List (ℕ × ℕ)) → i ≤ p.1 → From i ps → From i (insert p ps)
unfolding insert
From-insert i p [] h k = (h, tt)
From-insert i p (q ∷ ps) h (k, ks) = ground (arith, From-insert i p ps h ks)

From-sort : (i : ℕ) (ps : List (ℕ × ℕ)) → From i ps → From i (sort ps)
unfolding sort
From-sort i [] h = tt
From-sort i (p ∷ ps) (h, hs) = From-insert i p (sort ps) h (From-sort i ps hs)

From-enumerate : (i j : ℕ) (fs : List FieldDescriptor) → i ≤ j → From i (enumerate j fs)
unfolding enumerate
From-enumerate i j [] h = tt
From-enumerate i j (f ∷ fs) h = (h, From-enumerate i (j + 1) fs (omega arith))

-- A pair with the least index goes in front of the pairs with its key.
assoc-insert :
    (n k i : ℕ) (ps : List (ℕ × ℕ))
    → From (i + 1) ps
    → assoc n (insert (k, i) ps) ≡ (if k == n then some i else assoc n ps)
unfolding insert
assoc-insert n k i [] h = refl
assoc-insert n k i ((q, j) ∷ ps) (h, hs) = ground (arith, assoc-insert n k i ps hs)

assoc-sort :
    (n i : ℕ) (fs : List FieldDescriptor) → assoc n (sort (enumerate i fs)) ≡ position i fs n
unfolding sort enumerate position
assoc-sort n i [] = refl
assoc-sort n i (f ∷ fs) =
    assoc-insert n f.number i (sort (enumerate (i + 1) fs))
      (From-sort (i + 1) _ (From-enumerate (i + 1) (i + 1) fs (omega arith)))
    ∙ rw (assoc-sort n (i + 1) fs)

assoc-dedup_from :
    (n k i : ℕ) (ps : List (ℕ × ℕ))
    → assoc n (dedup_from (k, i) ps) ≡ (if k == n then some i else assoc n ps)
unfolding dedup_from
assoc-dedup_from n k i [] = refl
assoc-dedup_from n k i ((q, j) ∷ ps) =
    ground (arith, assoc-dedup_from n k i ps, assoc-dedup_from n q j ps)

pub assoc-dedup-sort :
    (n : ℕ) (fs : List FieldDescriptor) → assoc n (dedup (sort (enumerate 0 fs))) ≡ position 0 fs n
unfolding dedup
assoc-dedup-sort n fs = go (sort (enumerate 0 fs)) ∙ assoc-sort n 0 fs
  where
    go : (ps : List (ℕ × ℕ)) → assoc n (dedup ps) ≡ assoc n ps
    go [] = refl
    go ((k, i) ∷ ps) = assoc-dedup_from n k i ps

-- The keys rise, or rise strictly, from above the given bound on.
abbrev Rising : ℕ → List (ℕ × ℕ) → Type 0
Rising b [] = Unit
Rising b (p ∷ ps) = (b ≤ p.0) × Rising p.0 ps

abbrev pub Strict : ℕ → List (ℕ × ℕ) → Type 0
Strict b [] = Unit
Strict b (p ∷ ps) = (b ≤ p.0) × Strict (p.0 + 1) ps

Rising-insert :
    (b : ℕ) (p : ℕ × ℕ) (ps : List (ℕ × ℕ)) → b ≤ p.0 → Rising b ps → Rising b (insert p ps)
unfolding insert
Rising-insert b p [] h r = (h, tt)
Rising-insert b p (q ∷ ps) h (r, rs) = ground (arith, Rising-insert q.0 p ps)

Rising-sort : (ps : List (ℕ × ℕ)) → Rising 0 (sort ps)
unfolding sort
Rising-sort [] = tt
Rising-sort (p ∷ ps) = Rising-insert 0 p (sort ps) (omega arith) (Rising-sort ps)

Strict-dedup_from :
    (b : ℕ) (p : ℕ × ℕ) (ps : List (ℕ × ℕ)) → b ≤ p.0 → Rising p.0 ps → Strict b (dedup_from p ps)
unfolding dedup_from
Strict-dedup_from b p [] h r = (h, tt)
Strict-dedup_from b p (q ∷ ps) h (r, rs) =
    ground (arith, Strict-dedup_from b p ps h, Strict-dedup_from (p.0 + 1) q ps)

pub Strict-dedup-sort : (ps : List (ℕ × ℕ)) → Strict 0 (dedup (sort ps))
unfolding dedup
Strict-dedup-sort ps = go (sort ps) (Rising-sort ps)
  where
    go : (qs : List (ℕ × ℕ)) → Rising 0 qs → Strict 0 (dedup qs)
    go [] r = tt
    go (q ∷ qs) (r, rs) = Strict-dedup_from 0 q qs r rs
