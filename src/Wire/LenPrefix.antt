-- ===== src/Wire/LenPrefix.antt =====
-- The length slot that is reserved before a payload is written, and patched behind it
-- (`begin_len_prefix` and `finish_len_prefix` of src/wire/mod.rs).
mod Moves
use fastproto.Common.{
  ℕ, zero, suc, ◌+◌, ◌-◌, ◌/◌, ◌%◌, ◌^◌, ◌≤◌, ◌<◌, ◌≡◌, refl, sym, ap, ap₂, lt→ltb, le→ltb, ◌∙◌,
  inl, inr, bit_and, bit_or, ltb, leb, ltb→lt, ltb→le, leb→le, leb→lt, Bool-cases, List, [], ◌∷◌,
  ◌++◌, length, length-append, length-take, length-drop, length-replicate, append-nil, append_assoc,
  append_move, set, set-append, take, drop, take-append, take-append-drop, drop-append, replicate,
  arith,
}
use fastproto.Common.Bits.{bit_and_x7f, bit_or_x80}
use fastproto.Wire.Writer.{
  write_len_delimited, begin_len_prefix, finish_len_prefix, store_len, copy_within, write_at,
  varint_len,
}
use fastproto.Wire.Varint.{groups, encoding, encoding_small, write_varint-append}
use fastproto.Wire.VarintLen.{varint_len-eq-length}
use native.Mathlib.Nat.{pow-suc}
use Moves.{length-groups_pos, store_len_middle, behind, copy_within_payload}

payload_len :
    (front payload : List ℕ) → length (front ++ (0 ∷ payload)) - length front - 1 ≡ length payload
payload_len front payload = omega (arith, length-append front (0 ∷ payload))

finish_short :
    (front payload : List ℕ)
    → length payload < 128
    → finish_len_prefix (front ++ (0 ∷ payload)) (length front)
      ≡ front ++ (encoding (length payload) ++ payload)
unfolding finish_len_prefix
finish_short front payload h =
    rw
      (payload_len front payload, lt→ltb (length payload) 0x80 h, encoding_small (length payload) h)
      (rw (set-append front 0 (length payload % 256) payload)
        (ap (λ (b : ℕ). front ++ (b ∷ payload)) (omega arith)))

finish_long :
    (front payload : List ℕ)
    → 128 ≤ length payload
    → length payload < 2 ^ 64
    → finish_len_prefix (front ++ (0 ∷ payload)) (length front)
      ≡ front ++ (encoding (length payload) ++ payload)
unfolding finish_len_prefix
finish_long front payload long word =
    rw
      (
        payload_len front payload,
        le→ltb (length payload) 0x80 long,
        copy_within_payload front payload (varint_len (length payload) - 1),
      )
      (store_len_middle 9 (length payload) front
        (take (suc (varint_len (length payload) - 1))
          (behind payload (varint_len (length payload) - 1)))
        payload (omega arith) (slots_size ∙ whole))
  where
    n : ℕ
    n = length payload

    extra : ℕ
    extra = varint_len n - 1

    behind_size : length (behind payload extra) ≡ suc n + extra
    behind_size =
        length-append (0 ∷ payload) (replicate extra 0)
        ∙ ap (λ (t : ℕ). suc n + t) (length-replicate extra 0)

    slots_size : length (take (suc extra) (behind payload extra)) ≡ suc extra
    slots_size = length-take (suc extra) (behind payload extra) (omega (arith, behind_size))

    whole : suc extra ≡ length (encoding n)
    whole = omega (arith, varint_len-eq-length n word, length-groups_pos 9 n)

-- Reserving the slot, writing the payload and patching the slot gives the buffer that
-- `write_len_delimited` gives, for every payload that a `u64` can measure: short ones, which fit
-- the slot, and long ones, which are moved.
pub finish_len_prefix-begin_len_prefix :
    (buf payload : List ℕ)
    → length payload < 2 ^ 64
    → finish_len_prefix ((begin_len_prefix buf).0 ++ payload) (begin_len_prefix buf).1
      ≡ write_len_delimited buf payload
unfolding begin_len_prefix write_len_delimited
finish_len_prefix-begin_len_prefix buf payload h =
    ap₂ finish_len_prefix (append_move buf 0 payload) slot
    ∙ elim (Bool-cases (ltb (length payload) 128)) [
      | inl e ↦ finish_short buf payload (ltb→lt _ _ e)
      | inr e ↦ finish_long buf payload (ltb→le _ _ e) h
    ]
    ∙ sym (
        ap (λ (l : List ℕ). l ++ payload) (write_varint-append buf (length payload))
        ∙ append_assoc buf (encoding (length payload)) payload)
  where
    slot : length (buf ++ (0 ∷ [])) - 1 ≡ length buf
    slot = omega (arith, length-append buf (0 ∷ []))
