-- ===== src/Parse/Fields.antt =====
-- What the encoder and the decoder may rely on in a parsed message (src/parse/mod.rs).
use fastproto.Common.{
  if◌then◌else◌, ◌⊎◌, ◌↔◌, ==→eq, ℕ, ◌≡◌, ◌≢◌, refl, ap, subst, Bool-cases, inl, inr, Bool, true,
  false, Option, none, some, ok, >>=-eq-ok, ok_or, arith,
}
use fastproto.Common.Int.{ℤ, pos, negsuc}
use fastproto.Common.Utf8.{Text}
use fastproto.Descriptor.Types.{FieldKind, FieldDescriptor, single, optional, repeated, is_map}
use fastproto.Parse.Types.{missing_type, int_eq}
use fastproto.Parse.RawField.{RawField}
use fastproto.Parse.MapEntry.{MapEntry}
use fastproto.Parse.Interpret.{
  MapEntries, is_message_like, kind_of, message_kind, label_of, map_field, plain_field, field_of,
  map_entry_of, interpret_field,
}

-- No Python class stands behind these kinds.
abbrev pub is_native : FieldKind → Bool
is_native (FieldKind.scalar s) = true
is_native FieldKind.timestamp = true
is_native FieldKind.duration = true
is_native _ = false

-- A map is no list and in no oneof; neither a message nor a member of a oneof has the label
-- `single` of implicit presence; a native kind names no class.
pub record IsRegular (f : FieldDescriptor) : Type 0 where
  pub map_single : is_map f.kind ≡ true → (f.label ≡ single) × (f.oneof_index ≡ none)
  pub message_label : is_message_like f.kind ≡ true → f.label ≢ single
  pub oneof_label : f.oneof_index ≢ none → f.label ≢ single
  pub native_unlinked : is_native f.kind ≡ true → f.type_name ≡ none

map_field-IsRegular : (raw : RawField) (entry : MapEntry) → IsRegular (map_field raw entry)
unfolding map_field
map_field-IsRegular raw entry = record {
  map_single = λ h. (refl, refl);
  message_label = λ h. cc;
  oneof_label = λ h. absurd (h refl);
  native_unlinked = λ h. cc;
}

kind_of_native :
    (code : ℤ) (full : Option Text) (k : FieldKind) (t : Option Text)
    → kind_of code full ≡ ok (k, t)
    → (is_map k ≡ false) × (is_native k ≡ true → t ≡ none)
unfolding kind_of message_kind
kind_of_native code none k t h = ground arith
kind_of_native code (some full) k t h = ground arith

plain_field-IsRegular :
    (raw : RawField) (k : FieldKind) (t : Option Text)
    → is_map k ≡ false
    → (is_native k ≡ true → t ≡ none)
    → IsRegular (plain_field raw k t)
unfolding plain_field label_of
plain_field-IsRegular raw k t no_map native = record {
  map_single = λ h. cc;
  message_label = λ h. ground arith;
  oneof_label = λ h. ground arith;
  native_unlinked = native;
}

-- Whether a raw field of that kind has presence.
abbrev pub HasPresence : RawField → FieldKind → Type 0
HasPresence raw kind =
    (raw.label ≢ pos 3)
    × ((raw.proto3_optional ≡ true) ⊎ ((is_message_like kind ≡ true) ⊎ (raw.oneof_index ≢ none)))

-- What a raw field says of its interpretation. A list is a field with the label 3 on the wire that
-- is no map; a field has presence if it is none of these and is proto3 optional, a message or a
-- member of a oneof.
pub record Interprets (raw : RawField) (f : FieldDescriptor) : Type 0 where
  pub same_number : f.number ≡ raw.number
  pub same_name : f.name ≡ raw.name
  pub lists : (f.label ≡ repeated) ↔ ((raw.label ≡ pos 3) × (is_map f.kind ≡ false))
  pub presence : (f.label ≡ optional) ↔ HasPresence raw f.kind

int_eq→eq : (i j : ℤ) → int_eq i j ≡ true → i ≡ j
int_eq→eq (pos m) (pos n) h = ap pos (==→eq m n h)
int_eq→eq (pos m) (negsuc n) h = cc
int_eq→eq (negsuc m) (pos n) h = cc
int_eq→eq (negsuc m) (negsuc n) h = ap negsuc (==→eq m n h)

eq→int_eq : (i j : ℤ) → i ≡ j → int_eq i j ≡ true
eq→int_eq (pos m) (pos n) h = ground arith
eq→int_eq (pos m) (negsuc n) h = cc
eq→int_eq (negsuc m) (pos n) h = cc
eq→int_eq (negsuc m) (negsuc n) h = ground arith

label_of-repeated :
    (b p : Bool) (k : FieldKind) (o : Option ℕ) → label_of b p k o ≡ repeated → b ≡ true
unfolding label_of
label_of-repeated true p k o h = refl
label_of-repeated false p k o h = ground arith

-- The reasons for presence, of which proto3 optional hides the oneof.
abbrev Present : Bool → FieldKind → Option ℕ → Type 0
Present p k o = (p ≡ true) ⊎ ((is_message_like k ≡ true) ⊎ (o ≢ none))

label_of-optional :
    (b p : Bool) (k : FieldKind) (o : Option ℕ)
    → label_of b p k (if p then none else o) ≡ optional
    → (b ≡ false) × Present p k o
unfolding label_of
label_of-optional true p k o h = cc
label_of-optional false true k o h = (refl, inl refl)
label_of-optional false false k (some g) h = (refl, inr (inr (λ e. cc)))
label_of-optional false false k none h = elim (Bool-cases (is_message_like k)) [
  | inl e ↦ (refl, inr (inl e))
  | inr e ↦ cc (rw e at h)
]

label_of-Present :
    (p : Bool) (k : FieldKind) (o : Option ℕ)
    → Present p k o
    → label_of false p k (if p then none else o) ≡ optional
unfolding label_of
label_of-Present true k o h = refl
label_of-Present false k o (inl e) = cc
label_of-Present false k o (inr (inl e)) = rw e refl
label_of-Present false k none (inr (inr h)) = absurd (h refl)
label_of-Present false k (some g) (inr (inr h)) = elim (Bool-cases (is_message_like k)) [
  | inl e ↦ rw e refl
  | inr e ↦ rw e refl
]

plain_field-Interprets :
    (raw : RawField) (k : FieldKind) (t : Option Text)
    → is_map k ≡ false
    → Interprets raw (plain_field raw k t)
unfolding plain_field label_of
plain_field-Interprets raw k t no_map = record {
  same_number = refl;
  same_name = refl;
  lists = (
    λ h. (int_eq→eq raw.label (pos 3) (label_of-repeated _ _ k _ h), no_map),
    λ h. rw (eq→int_eq raw.label (pos 3) h.0) refl,
  );
  presence = (
    λ h.
        let (plain, present) = label_of-optional _ raw.proto3_optional k raw.oneof_index h in
        ((λ e. absurd (cc (plain, eq→int_eq raw.label (pos 3) e))), present),
    λ h. elim (Bool-cases (int_eq raw.label (pos 3))) [
      | inl e ↦ absurd (h.0 (int_eq→eq raw.label (pos 3) e))
      | inr e ↦ rw e (label_of-Present raw.proto3_optional k raw.oneof_index h.1)
    ],
  );
}

map_field-Interprets :
    (raw : RawField) (entry : MapEntry) → raw.label ≡ pos 3 → Interprets raw (map_field raw entry)
unfolding map_field
map_field-Interprets raw entry list = record {
  same_number = refl;
  same_name = refl;
  lists = (λ h. cc, λ h. cc);
  presence = (λ h. cc, λ h. absurd (h.0 list));
}

-- Only a list is taken for a map.
map_entry_of-label :
    (raw : RawField) (code : ℤ) (entries : MapEntries) (name : Text) (entry : MapEntry)
    → map_entry_of raw code entries name ≡ some entry
    → raw.label ≡ pos 3
unfolding map_entry_of
map_entry_of-label raw code entries name entry h = elim (Bool-cases (int_eq raw.label (pos 3))) [
  | inl e ↦ int_eq→eq raw.label (pos 3) e
  | inr e ↦ cc (rw e at h)
]

field_of-Interprets :
    (raw : RawField) (code : ℤ) (entry : Option MapEntry) (f : FieldDescriptor)
    → ((found : MapEntry) → entry ≡ some found → raw.label ≡ pos 3)
    → field_of raw code entry ≡ ok f
    → Interprets raw f × IsRegular f
unfolding field_of
field_of-Interprets raw code (some entry) f list h =
    subst (λ (x : FieldDescriptor). Interprets raw x × IsRegular x) (cc h)
      (map_field-Interprets raw entry (list entry refl), map_field-IsRegular raw entry)
field_of-Interprets raw code none f list h =
    let ((k, t), e, rest) = >>=-eq-ok (kind_of code raw.type_name) _ h in
    let (no_map, native) = kind_of_native code raw.type_name k t e in
    subst (λ (x : FieldDescriptor). Interprets raw x × IsRegular x) (cc rest)
      (plain_field-Interprets raw k t no_map, plain_field-IsRegular raw k t no_map native)

pub interpret_field-IsRegular :
    (raw : RawField) (entries : MapEntries) (name : Text) (f : FieldDescriptor)
    → interpret_field raw entries name ≡ ok f
    → Interprets raw f × IsRegular f
unfolding interpret_field
interpret_field-IsRegular raw entries name f h =
    let (code, e, rest) = >>=-eq-ok (ok_or raw.type_code missing_type) _ h in
    field_of-Interprets raw code (map_entry_of raw code entries name) f
      (map_entry_of-label raw code entries name) rest
