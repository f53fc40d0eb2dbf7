-- ===== src/Wire/LenPrefix/Moves.antt =====
-- The parts of `finish_len_prefix` of src/wire/mod.rs: the store of the length into its slots,
-- and the move of the payload.
use fastproto.Common.{
  ℕ, zero, suc, ◌+◌, ◌-◌, ◌/◌, ◌%◌, ◌^◌, ◌≤◌, ◌<◌, ◌≡◌, refl, sym, ap, ap₂, lt→ltb, le→ltb, ◌∙◌,
  inl, inr, bit_and, bit_or, leb, leb→le, leb→lt, Bool-cases, List, [], ◌∷◌, ◌++◌, length,
  length-append, length-take, length-drop, length-replicate, append-nil, append_assoc, append_move,
  set, set-append, take, drop, take-append, take-append-drop, drop-append, replicate, arith,
}
use fastproto.Common.Bits.{bit_and_x7f, bit_or_x80}
use fastproto.Wire.Writer.{store_len, copy_within, write_at}
use fastproto.Wire.Varint.{groups}
use native.Mathlib.Nat.{pow-suc}

-- The bytes between `front` and `back` are overwritten.
write_at_middle :
    (front mid back bs : List ℕ)
    → length bs ≡ length mid
    → write_at (front ++ (mid ++ back)) (length front) bs ≡ front ++ (bs ++ back)
write_at_middle front [] back [] h = refl
write_at_middle front [] back (b ∷ bs) h = absurd (omega arith)
write_at_middle front (m ∷ mid) back [] h = absurd (omega arith)
write_at_middle front (m ∷ mid) back (b ∷ bs) h = rw (set-append front m b (mid ++ back)) (
    ap₂ (λ (l : List ℕ) (n : ℕ). write_at l n bs) (sym (append_move front b (mid ++ back))) size
    ∙ write_at_middle (front ++ (b ∷ [])) mid back bs (omega arith)
    ∙ append_move front b (bs ++ back))
  where
    size : suc (length front) ≡ length (front ++ (b ∷ []))
    size = omega (arith, length-append front (b ∷ []))

groups_last : (fuel v : ℕ) → v < 128 → groups (suc fuel) v ≡ v ∷ []
unfolding groups
groups_last fuel v h = rw (lt→ltb v 128 h)

groups_more : (fuel v : ℕ) → 128 ≤ v → groups (suc fuel) v ≡ (v % 128 + 128) ∷ groups fuel (v / 128)
unfolding groups
groups_more fuel v h = rw (le→ltb v 128 h)

pub length-groups_pos : (fuel v : ℕ) → 0 < length (groups (suc fuel) v)
unfolding groups
length-groups_pos fuel v = ground arith

length-groups_more :
    (fuel v : ℕ) → 128 ≤ v → length (groups (suc fuel) v) ≡ suc (length (groups fuel (v / 128)))
length-groups_more fuel v h = ap length (groups_more fuel v h)

store_one :
    (v : ℕ) (front slots back : List ℕ)
    → v < 128
    → length slots ≡ 1
    → set (front ++ (slots ++ back)) (length front) (v % 256) ≡ front ++ (v ∷ back)
store_one v front [] back h e = absurd (omega arith)
store_one v front (s ∷ []) back h e =
    rw (set-append front s (v % 256) back) (ap (λ (b : ℕ). front ++ (b ∷ back)) (omega arith))
store_one v front (s ∷ t ∷ slots) back h e = absurd (omega arith)

-- The bytes of the length go into as many slots.
pub store_len_middle :
    (fuel v : ℕ) (front slots back : List ℕ)
    → v < 128 ^ suc fuel
    → length slots ≡ length (groups (suc fuel) v)
    → store_len fuel (front ++ (slots ++ back)) (length front) v
      ≡ front ++ (groups (suc fuel) v ++ back)
unfolding store_len
store_len_middle zero v front slots back h e =
    rw (groups_last 0 v (omega arith))
      (store_one v front slots back (omega arith) (e ∙ ap length (groups_last 0 v (omega arith))))
store_len_middle (suc fuel) v front [] back h e =
    absurd (omega (arith, length-groups_pos (suc fuel) v))
store_len_middle (suc fuel) v front (s ∷ slots) back h e = elim (Bool-cases (leb 0x80 v)) [
  | inl more ↦
      rw
        (
          more,
          byte,
          set-append front s (v % 128 + 128) (slots ++ back),
          groups_more (suc fuel) v (leb→le _ _ more),
        )
        (ap₂ (λ (l : List ℕ) (n : ℕ). store_len fuel l n (v / 128))
            (sym (append_move front _ (slots ++ back))) size
          ∙ store_len_middle fuel (v / 128) (front ++ ((v % 128 + 128) ∷ [])) slots back
              (omega (arith, pow-suc 128 (suc fuel)))
              (omega (arith, length-groups_more (suc fuel) v (leb→le _ _ more)))
          ∙ append_move front _ (groups (suc fuel) (v / 128) ++ back))
  | inr last ↦
      rw (last, groups_last (suc fuel) v (leb→lt _ _ last))
        (store_one v front (s ∷ slots) back (leb→lt _ _ last)
          (e ∙ ap length (groups_last (suc fuel) v (leb→lt _ _ last))))
]
  where
    byte : bit_or (bit_and (v % 256) 0x7f) 0x80 ≡ v % 128 + 128
    byte =
        ap (λ (t : ℕ). bit_or t 0x80) (bit_and_x7f (v % 256))
        ∙ bit_or_x80 (v % 256 % 128) (omega arith)
        ∙ omega arith

    size : length front + 1 ≡ length (front ++ ((v % 128 + 128) ∷ []))
    size = omega (arith, length-append front ((v % 128 + 128) ∷ []))

-- The buffer grown by `extra` bytes, behind the payload.
abbrev grown : List ℕ → List ℕ → ℕ → List ℕ
grown front payload extra = (front ++ (0 ∷ payload)) ++ replicate extra 0

-- What follows `front` there.
abbrev pub behind : List ℕ → ℕ → List ℕ
behind payload extra = (0 ∷ payload) ++ replicate extra 0

payload_source :
    (front payload : List ℕ) (extra : ℕ)
    → take
        (length front + 1 + length payload - (length front + 1))
        (drop (length front + 1) (grown front payload extra))
      ≡ payload
payload_source front payload extra =
    ap₂ (λ (n : ℕ) (l : List ℕ). take n l) (omega arith) dropped
    ∙ take-append payload (replicate extra 0)
  where
    slot : length front + 1 ≡ length (front ++ (0 ∷ []))
    slot = omega (arith, length-append front (0 ∷ []))

    dropped : drop (length front + 1) (grown front payload extra) ≡ payload ++ replicate extra 0
    dropped =
        ap₂ (λ (n : ℕ) (l : List ℕ). drop n l) slot
          (append_assoc front (0 ∷ payload) (replicate extra 0)
            ∙ sym (append_move front 0 (payload ++ replicate extra 0)))
        ∙ drop-append (front ++ (0 ∷ [])) (payload ++ replicate extra 0)

-- `copy_within` moves the payload to the right and leaves the slots in front of it.
pub copy_within_payload :
    (front payload : List ℕ) (extra : ℕ)
    → copy_within
        (grown front payload extra)
        (length front + 1)
        (length front + 1 + length payload)
        (length front + 1 + extra)
      ≡ front ++ (take (suc extra) (behind payload extra) ++ payload)
unfolding copy_within
copy_within_payload front payload extra =
    let slots = take (suc extra) (behind payload extra) in
    let mid = drop (suc extra) (behind payload extra) in
    let size : length (behind payload extra) ≡ suc (length payload) + extra =
      length-append (0 ∷ payload) (replicate extra 0)
      ∙ ap (λ (t : ℕ). suc (length payload) + t) (length-replicate extra 0) in
    let slots_size : length slots ≡ suc extra =
      length-take (suc extra) (behind payload extra) (omega arith) in
    let mid_size : length payload ≡ length mid =
      omega (arith, length-drop (suc extra) (behind payload extra)) in
    let split : grown front payload extra ≡ (front ++ slots) ++ (mid ++ []) =
      append_assoc front (0 ∷ payload) (replicate extra 0)
      ∙ ap (λ (l : List ℕ). front ++ l) (sym (take-append-drop (suc extra) (behind payload extra)))
      ∙ sym (append_assoc front slots mid)
      ∙ ap (λ (l : List ℕ). (front ++ slots) ++ l) (sym (append-nil mid)) in
    let place : length front + 1 + extra ≡ length (front ++ slots) =
      omega (arith, length-append front slots) in
    rw (payload_source front payload extra) (
      ap₂ (λ (l : List ℕ) (n : ℕ). write_at l n payload) split place
      ∙ write_at_middle (front ++ slots) mid [] payload mid_size
      ∙ ap (λ (l : List ℕ). (front ++ slots) ++ l) (append-nil payload)
      ∙ append_assoc front slots payload)
