-- ===== src/Decode/Kept.antt =====
-- The unknown bytes that `decode_message` of src/decode/mod.rs has when the bytes are read.
use fastproto.Common.{
  Gives, Gives-bind, ok_or-eq-ok, ℕ, ◌≡◌, sym, ap, subst, ◌∙◌, Option, none, some, Option-cases,
  inl, inr, List, [], length, All, get_elem?, Result, ok, ◌>>=◌, >>=-eq-ok, ok_or, map_err,
}
use fastproto.Wire.Types.{WireType}
use fastproto.Wire.Reader.{Reader, new, read_tag}
use fastproto.Wire.Loop.{read_all}
use fastproto.Descriptor.Types.{FieldDescriptor}
use fastproto.Descriptor.Index.{get, field_by_number}
use fastproto.Descriptor.Index.Lookup.{get-build_scan, field_at}
use fastproto.Parse.Fields.{IsRegular}
use fastproto.Message.Link.{Handle}
use fastproto.Message.Class.{Descriptor}
use fastproto.Message.Compiled.{IsCompiled, IsCompiled-IsWellFormed}
use fastproto.Python.{Python, Runtime, CodecError, panicked}
use fastproto.Encode.Repeated.{linked_of}
use fastproto.Decode.Scalars.{checked}
use fastproto.Decode.Slots.{Collected, accumulators}
use fastproto.Decode.Message.{known_field, field_arm, field_round, collect}
use fastproto.Decode.Rounds.{All-get}
use fastproto.Decode.Unknown.{
  recognised, unknown_round, unknown_fields, Follows, keep_unknown-Follows,
}
use fastproto.Decode.Verbatim.{known_field-Follows, read_while_follows}

module _ (py : Python) (rt : Runtime py) (heap : Handle → Descriptor py.Obj)
    (nested : py.Obj → Descriptor py.Obj → List ℕ → ℕ → Result CodecError py.Obj) (depth : ℕ)
    (desc : Descriptor py.Obj) (made : IsCompiled desc) where
  regular : All IsRegular desc.inner.fields
  regular = let formed = IsCompiled-IsWellFormed desc made in formed.regular

  scan :
      (number : ℕ)
      → field_at desc.inner.fields (get desc.field_index number)
        ≡ field_by_number desc.inner.fields number
  scan number =
      ap (λ x. field_at desc.inner.fields (get x number)) made.same_index
      ∙ get-build_scan desc.inner.fields number

  field_arm-Follows :
      (start number : ℕ) (w : WireType) (s : Collected py.Obj) (r : Reader)
      → Gives
          (Follows (recognised (field_by_number desc.inner.fields number) w) w r start s.unknown)
          (field_arm py rt heap nested desc depth start number w (get desc.field_index number) s r)
  unfolding field_arm recognised
  field_arm-Follows start number w s r = elim (Option-cases (get desc.field_index number)) [
    | inl e ↦
        let absent_field : field_by_number desc.inner.fields number ≡ none =
          sym (scan number) ∙ ap (field_at desc.inner.fields) e in
        rw (e, field_arm) (rw (absent_field, recognised) (keep_unknown-Follows s start w r))
    | inr (idx, e) ↦
        rw (e, field_arm)
          (Gives-bind _ (ok_or (get_elem? desc.inner.fields idx) panicked) _ λ f found.
            let at_idx : get_elem? desc.inner.fields idx ≡ some f = ok_or-eq-ok _ _ f found in
            let present_field : field_by_number desc.inner.fields number ≡ some f =
              sym (scan number) ∙ ap (field_at desc.inner.fields) e ∙ at_idx in
            subst
              (λ (o : Option FieldDescriptor).
                Gives (Follows (recognised o w) w r start s.unknown) (
                  known_field py rt heap nested f idx (linked_of desc.refs number) depth start w s
                    r))
              (sym present_field)
              (known_field-Follows py rt heap nested depth f idx (linked_of desc.refs number) start
                w s r (All-get IsRegular desc.inner.fields idx f regular at_idx)))
  ]

  round-follows :
      (s : Collected py.Obj) (r : Reader) (p : Collected py.Obj × Reader)
      → field_round py rt heap nested desc depth s r ≡ ok p
      → unknown_round desc.inner.fields s.unknown r ≡ ok (p.0.unknown, p.1)
  unfolding field_round unknown_round
  round-follows s r p e =
      let (q, tag, rest) = >>=-eq-ok (checked (read_tag r)) _ e in
      let (skips, keeps) = field_arm-Follows r.pos q.0.0 q.0.1 s q.1 p rest in
      rw (tag, ◌>>=◌) (rw (skips, map_err) (ap (λ (u : List ℕ). ok (u, p.1)) (sym keeps)))

  -- The decoder keeps exactly the bytes of the fields that the message does not have, in that wire
  -- type, tags included and in their order, as a pass that skips every field and decodes none
  -- gives them: for all bytes that it reads to the end, where the descriptor was compiled.
  pub collect-unknown_fields :
      (bytes : List ℕ) (s : Collected py.Obj)
      → collect py rt heap nested desc bytes depth ≡ ok s
      → unknown_fields desc.inner.fields bytes ≡ ok s.unknown
  unfolding collect unknown_fields read_all
  collect-unknown_fields bytes s e =
      read_while_follows (field_round py rt heap nested desc depth)
        (unknown_round desc.inner.fields) (λ (t : Collected py.Obj). t.unknown) round-follows
        (length bytes)
        (record { values = accumulators desc.inner.fields; unknown = []; owner = [] }) (new bytes) s
        e
