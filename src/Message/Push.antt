-- ===== src/Message/Push.antt =====
-- The lists of members that `oneofs` of src/message/mod.rs fills, one push at a time.
use fastproto.Common.{
  ℕ, zero, suc, ◌<◌, ◌==◌, ne→==, ◌≡◌, refl, sym, ap, ◌∙◌, if◌then◌else◌, none, some, List, [], ◌∷◌,
  ◌++◌, map, length, arith,
}
use fastproto.Common.Utf8.{Text}
use fastproto.Descriptor.Types.{FieldDescriptor}
use fastproto.Message.Class.{Groups, push_member}

-- The names of the fields of a group, in their order.
unfoldable pub members_of : ℕ → List FieldDescriptor → List Text
members_of group [] = []
members_of group (f ∷ fs) = elim f.oneof_index [
  | none ↦ members_of group fs
  | some idx ↦ if idx == group then f.name ∷ members_of group fs else members_of group fs
]

abbrev pub member_list : Groups → ℕ → List Text
member_list [] group = []
member_list ((_, members) ∷ groups) zero = members
member_list (_ ∷ groups) (suc group) = member_list groups group

abbrev pub name_of_group : Text × List Text → Text
name_of_group g = g.0

-- The list of a group behind the pushes for `idx`.
abbrev pub pushed : ℕ → ℕ → Text → List Text → List Text
pushed idx group name members = if idx == group then members ++ (name ∷ []) else members

-- A push in bounds succeeds, keeps the names of the groups, and adds to one group only.
pub record Pushed (groups : Groups) (idx : ℕ) (name : Text) : Type 0 where
  pub result : Groups
  pub pushes : push_member groups idx name ≡ some result
  pub same_names : map name_of_group result ≡ map name_of_group groups
  pub lists :
      (group : ℕ) → member_list result group ≡ pushed idx group name (member_list groups group)

pub length-same : (a b : Groups) → map name_of_group a ≡ map name_of_group b → length a ≡ length b
length-same a b e = sym (names a) ∙ ap length e ∙ names b
  where
    names : (l : Groups) → length (map name_of_group l) ≡ length l
    names [] = refl
    names (g ∷ l) = ap suc (names l)

suc-==-suc : (a b : ℕ) → (suc a == suc b) ≡ (a == b)
suc-==-suc a b = ground arith

push_first :
    (g : Text) (members : List Text) (groups : Groups) (name : Text)
    → Pushed ((g, members) ∷ groups) 0 name
unfolding push_member
push_first g members groups name = record {
  result = (g, members ++ (name ∷ [])) ∷ groups;
  pushes = refl;
  same_names = refl;
  lists = lists;
}
  where
    lists :
        (group : ℕ)
        → member_list ((g, members ++ (name ∷ [])) ∷ groups) group
          ≡ pushed 0 group name (member_list ((g, members) ∷ groups) group)
    lists zero = refl
    lists (suc group) = rw (ne→== 0 (suc group) (λ e. absurd (omega arith))) refl

push_later :
    (g : Text) (members : List Text) (groups : Groups) (idx : ℕ) (name : Text)
    → Pushed groups idx name
    → Pushed ((g, members) ∷ groups) (suc idx) name
unfolding push_member
push_later g members groups idx name rest = record {
  result = (g, members) ∷ rest.result;
  pushes = rw (rest.pushes, push_member) refl;
  same_names = ap (λ (l : List Text). g ∷ l) rest.same_names;
  lists = lists;
}
  where
    lists :
        (group : ℕ)
        → member_list ((g, members) ∷ rest.result) group
          ≡ pushed (suc idx) group name (member_list ((g, members) ∷ groups) group)
    lists zero = rw (ne→== (suc idx) 0 (λ e. absurd (omega arith))) refl
    lists (suc group) = rw (suc-==-suc idx group) (rest.lists group)

pub push_member-in :
    (groups : Groups) (idx : ℕ) (name : Text) → idx < length groups → Pushed groups idx name
push_member-in [] idx name h = absurd (omega arith)
push_member-in ((g, members) ∷ groups) zero name h = push_first g members groups name
push_member-in ((g, members) ∷ groups) (suc idx) name h =
    push_later g members groups idx name (push_member-in groups idx name (omega arith))
