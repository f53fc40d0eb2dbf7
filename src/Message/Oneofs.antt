-- ===== src/Message/Oneofs.antt =====
-- `oneofs` of src/message/mod.rs on a message that the parser accepted.
use fastproto.Common.{ℕ, ◌≡◌, some, List, ◌++◌, map}
use fastproto.Common.Utf8.{Text}
use fastproto.Descriptor.Types.{FieldDescriptor}
use fastproto.Message.Class.{Descriptor, Groups, fill_groups}
use fastproto.Message.Push.{members_of, member_list, name_of_group}

-- The groups with their members: the names of the groups, and in each the names of its fields, in
-- the order of the fields.
pub record GroupsOf (names : List Text) (groups : Groups) (fs : List FieldDescriptor) : Type 0 where
  pub group_names : map name_of_group groups ≡ names
  pub members : (group : ℕ) → member_list groups group ≡ members_of group fs

record Filled (before : Groups) (fs : List FieldDescriptor) : Type 0 where
  result : Groups
  fills : fill_groups before fs ≡ some result
  same_names : map name_of_group result ≡ map name_of_group before
  lists : (group : ℕ) → member_list result group ≡ member_list before group ++ members_of group fs
