-- ===== src/Parse/Formed.antt =====
-- What `parse_message` of src/parse/mod.rs accepts.
use fastproto.Common.{
  ℕ, ◌<◌, ◌≡◌, refl, ap, subst, leb, leb→lt, Bool-cases, inl, inr, Option, none, some, List, [],
  ◌∷◌, map, length, All, ok, >>=-eq-ok,
}
use fastproto.Common.Utf8.{Text}
use fastproto.Wire.Loop.{read_all}
use fastproto.Descriptor.Types.{FieldDescriptor, MessageDescriptor}
use fastproto.Parse.RawField.{RawField}
use fastproto.Parse.Interpret.{MapEntries, interpret_field}
use fastproto.Parse.Message.{
  MessageState, start, message_round, interpret_all, clip, clip_oneof, parse_message,
}
use fastproto.Parse.Fields.{IsRegular, Interprets, interpret_field-IsRegular}

-- A oneof index points at a declared group.
abbrev pub InGroups : ℕ → Option ℕ → Type 0
InGroups n none = Unit
InGroups n (some idx) = idx < n

clip-InGroups : (n : ℕ) (o : Option ℕ) → InGroups n (clip n o)
clip-InGroups n none = tt
clip-InGroups n (some idx) = elim (Bool-cases (leb n idx)) [
  | inl e ↦ rw e tt
  | inr e ↦ rw e (leb→lt n idx e)
]

clip_oneof-IsRegular : (n : ℕ) (f : FieldDescriptor) → IsRegular f → IsRegular (clip_oneof n f)
unfolding clip_oneof
clip_oneof-IsRegular n f h = record {
  map_single = λ e. let (label, free) = h.map_single e in (label, ap (clip n) free);
  message_label = h.message_label;
  oneof_label = λ k. h.oneof_label (λ e. k (ap (clip n) e));
  native_unlinked = h.native_unlinked;
}

pub record IsWellFormed (m : MessageDescriptor) : Type 0 where
  pub regular : All IsRegular m.fields
  pub in_groups : All (λ f. InGroups (length m.oneofs) f.oneof_index) m.fields

-- A relation between the items of two lists, one by one.
abbrev pub Pairs : {A B : Type 0} → (A → B → Type 0) → List A → List B → Type 0
Pairs P [] [] = Unit
Pairs P (x ∷ xs) (y ∷ ys) = P x y × Pairs P xs ys
Pairs P _ _ = ⊥

-- The fields of the raw ones, in their order.
abbrev Interpreted : List RawField → List FieldDescriptor → Type 0
Interpreted raws fs = Pairs Interprets raws fs × All IsRegular fs

interpret_all-Interpreted :
    (raws : List RawField) (entries : MapEntries) (name : Text) (fs : List FieldDescriptor)
    → interpret_all raws entries name ≡ ok fs
    → Interpreted raws fs
unfolding interpret_all
interpret_all-Interpreted [] entries name fs h = subst (Interpreted []) {x = []} (cc h) (tt, tt)
interpret_all-Interpreted (raw ∷ raws) entries name fs h =
    let (f, e, rest) = >>=-eq-ok (interpret_field raw entries name) _ h in
    let (fs', e', rest') = >>=-eq-ok (interpret_all raws entries name) _ rest in
    let (first, regular) = interpret_field-IsRegular raw entries name f e in
    let (others, all) = interpret_all-Interpreted raws entries name fs' e' in
    subst (Interpreted (raw ∷ raws)) {x = f ∷ fs'} (cc rest') ((first, others), (regular, all))

clip_oneof-Interprets :
    (n : ℕ) (raw : RawField) (f : FieldDescriptor)
    → Interprets raw f
    → Interprets raw (clip_oneof n f)
unfolding clip_oneof
clip_oneof-Interprets n raw f h = record {
  same_number = h.same_number;
  same_name = h.same_name;
  lists = h.lists;
  presence = h.presence;
}

clip_map-Interprets :
    (n : ℕ) (raws : List RawField) (fs : List FieldDescriptor)
    → Pairs Interprets raws fs
    → Pairs Interprets raws (map (clip_oneof n) fs)
clip_map-Interprets n [] [] h = tt
clip_map-Interprets n [] (f ∷ fs) h = h
clip_map-Interprets n (raw ∷ raws) [] h = h
clip_map-Interprets n (raw ∷ raws) (f ∷ fs) (h, hs) =
    (clip_oneof-Interprets n raw f h, clip_map-Interprets n raws fs hs)

clip_map-IsRegular :
    (n : ℕ) (fs : List FieldDescriptor) → All IsRegular fs → All IsRegular (map (clip_oneof n) fs)
clip_map-IsRegular n [] h = tt
clip_map-IsRegular n (f ∷ fs) (h, hs) = (clip_oneof-IsRegular n f h, clip_map-IsRegular n fs hs)

clip_map-InGroups :
    (n : ℕ) (fs : List FieldDescriptor)
    → All (λ f. InGroups n f.oneof_index) (map (clip_oneof n) fs)
unfolding clip_oneof
clip_map-InGroups n [] = tt
clip_map-InGroups n (f ∷ fs) = (clip-InGroups n f.oneof_index, clip_map-InGroups n fs)

-- What the bytes of a message say of its descriptor.
pub record IsParsed (bytes : List ℕ) (m : MessageDescriptor) : Type 0 where
  pub state : MessageState
  pub reads : read_all message_round start bytes ≡ ok state
  pub same_name : m.name ≡ state.name
  pub same_oneofs : m.oneofs ≡ state.oneofs
  pub interpreted : Pairs Interprets state.raw_fields m.fields
  pub formed : IsWellFormed m

pub parse_message-IsParsed :
    (bytes : List ℕ) (m : MessageDescriptor) → parse_message bytes ≡ ok m → IsParsed bytes m
unfolding parse_message
parse_message-IsParsed bytes m h =
    let (s, e, rest) = >>=-eq-ok (read_all message_round start bytes) _ h in
    let (fs, e', rest') = >>=-eq-ok (interpret_all s.raw_fields s.map_entries s.name) _ rest in
    let (pairs, regular) = interpret_all-Interpreted s.raw_fields s.map_entries s.name fs e' in
    let n = length s.oneofs in
    subst (IsParsed bytes) (cc rest') (record {
      state = s;
      reads = e;
      same_name = refl;
      same_oneofs = refl;
      interpreted = clip_map-Interprets n s.raw_fields fs pairs;
      formed = record {
        regular = clip_map-IsRegular n fs regular;
        in_groups = clip_map-InGroups n fs;
      };
    })

pub parse_message-IsWellFormed :
    (bytes : List ℕ) (m : MessageDescriptor) → parse_message bytes ≡ ok m → IsWellFormed m
parse_message-IsWellFormed bytes m h =
    let parsed = parse_message-IsParsed bytes m h in parsed.formed
