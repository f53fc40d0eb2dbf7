-- ===== src/Wire/Stream.antt =====
-- Messages as sequences of fields: what a loop `while !reader.is_empty()` over the fields of a
-- message (the decoders of src/parse/mod.rs and src/wellknown/mod.rs) does with a field that the
-- writers of src/wire/mod.rs wrote.
use fastproto.Common.{
  ℕ, ◌<◌, ◌≤◌, ◌≡◌, sym, ap, ap₂, ◌∙◌, List, [], ◌++◌, length, append_assoc, append-nil,
  length-append, Result, ok, arith, true, false, lt→leb, le→leb,
}
use fastproto.Wire.Types.{WireType, varint, len, max_field_number}
use fastproto.Wire.Reader.{Reader, reader_at, is_empty, read_tag}
use fastproto.Wire.Writer.{write_tag, write_varint, write_len_delimited}
use fastproto.Wire.Varint.{encoding, write_varint-append, encoding-nonempty}
use fastproto.Wire.RoundTrip.{read_tag-write_tag, write_tag-append, tag_key}
use fastproto.Wire.Loop.{read_all, Runs, finished, round, Advances, Runs→read_while}

-- A field number that may stand on the wire.
abbrev pub IsFieldNumber : ℕ → Type 0
IsFieldNumber n = (0 < n) × (n ≤ max_field_number)

-- A field of wire type 0, and one of wire type 2.
abbrev pub varint_field : ℕ → ℕ → List ℕ
varint_field number v = write_tag [] number varint ++ write_varint [] v

abbrev pub chunk_field : ℕ → List ℕ → List ℕ
chunk_field number chunk = write_tag [] number len ++ write_len_delimited [] chunk

-- Written behind a buffer.
pub varint_field-append :
    (buf : List ℕ) (number v : ℕ)
    → number ≤ max_field_number
    → write_varint (write_tag buf number varint) v ≡ buf ++ varint_field number v
varint_field-append buf number v h =
    write_varint-append (write_tag buf number varint) v
    ∙ ap (λ (l : List ℕ). l ++ encoding v) (write_tag-append buf number varint h)
    ∙ append_assoc buf (encoding (tag_key number varint)) (encoding v)
    ∙ ap (λ (l : List ℕ). buf ++ l)
        (sym (
          ap₂ (λ (k m : List ℕ). k ++ m) (write_tag-append [] number varint h)
            (write_varint-append [] v)))

pub is_empty_end : (front : List ℕ) → is_empty (reader_at front []) ≡ true
unfolding is_empty
is_empty_end front = rw append-nil (le→leb _ _ (omega arith))

pub is_empty_more :
    (front mid back : List ℕ) → 0 < length mid → is_empty (reader_at front (mid ++ back)) ≡ false
unfolding is_empty
is_empty_more front mid back h =
    lt→leb _ _ (omega (arith, length-append front (mid ++ back), length-append mid back))

write_tag-nonempty : (n : ℕ) (w : WireType) → n ≤ max_field_number → 0 < length (write_tag [] n w)
write_tag-nonempty n w h = rw (write_tag-append [] n w h) (encoding-nonempty _)

tag_at :
    (number : ℕ) (w : WireType) (front payload back : List ℕ)
    → IsFieldNumber number
    → read_tag (reader_at front ((write_tag [] number w ++ payload) ++ back))
      ≡ ok ((number, w), reader_at (front ++ write_tag [] number w) (payload ++ back))
tag_at number w front payload back (positive, small) =
    rw (append_assoc (write_tag [] number w) payload back)
      (read_tag-write_tag number w front (payload ++ back) positive small)

more_at :
    (number : ℕ) (w : WireType) (front payload back : List ℕ)
    → IsFieldNumber number
    → is_empty (reader_at front ((write_tag [] number w ++ payload) ++ back)) ≡ false
more_at number w front payload back (positive, small) =
    is_empty_more front (write_tag [] number w ++ payload) back (
      omega
        (arith, write_tag-nonempty number w small, length-append (write_tag [] number w) payload))

-- A loop over fields: a round reads the tag, and then takes the arm for it.
module _ {E S : Type 0} (body : S → Reader → Result E (S × Reader))
    (arm : S → ℕ → WireType → Reader → Result E (S × Reader))
    (tagged : (s : S) (r : Reader) (n : ℕ) (w : WireType) (r' : Reader)
      → read_tag r ≡ ok ((n, w), r')
      → body s r ≡ arm s n w r') where
  -- The loop takes a field whose arm, behind the tag, gives `s'` and stands behind the field.
  pub take_field :
      {s s' t : S} (number : ℕ) (w : WireType) (front payload back : List ℕ)
      → IsFieldNumber number
      → arm s number w (reader_at (front ++ write_tag [] number w) (payload ++ back))
        ≡ ok (s', reader_at ((front ++ write_tag [] number w) ++ payload) back)
      → Runs body s' (reader_at (front ++ (write_tag [] number w ++ payload)) back) t
      → Runs body s (reader_at front ((write_tag [] number w ++ payload) ++ back)) t
  take_field {s} {s'} number w front payload back n read rest =
      round (more_at number w front payload back n)
        (tagged s _ number w _ (tag_at number w front payload back n)
          ∙ read
          ∙ ap (λ (l : List ℕ). ok (s', reader_at l back))
              (append_assoc front (write_tag [] number w) payload))
        rest

  -- The loop stops at the end.
  pub take_end : {s : S} (front : List ℕ) → Runs body s (reader_at front []) s
  take_end front = finished (is_empty_end front)

  -- A whole message that is such a sequence of fields.
  pub read_all_fields :
      Advances body
      → {s t : S} (bytes : List ℕ) → Runs body s (reader_at [] bytes) t
      → read_all body s bytes ≡ ok t
  unfolding read_all
  read_all_fields adv bytes h = Runs→read_while body adv (length bytes) h (omega arith)
