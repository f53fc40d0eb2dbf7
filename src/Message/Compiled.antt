-- ===== src/Message/Compiled.antt =====
-- The descriptors of a process: `Descriptor.compile` of src/message/mod.rs made each, and `link`
-- sets no field but the references and the class of the fast path.
use fastproto.Common.{ℕ, suc, ◌≡◌, refl, ap, ◌∙◌, List, [], ◌∷◌, map, length, ok, >>=-eq-ok}
use fastproto.Descriptor.Types.{FieldDescriptor}
use fastproto.Descriptor.Index.{build}
use fastproto.Parse.Message.{parse_message}
use fastproto.Parse.Formed.{IsWellFormed, parse_message-IsWellFormed}
use fastproto.Message.Class.{Descriptor, name_of, compile}

pub record IsCompiled {Obj : Type 0} (d : Descriptor Obj) : Type 0 where
  pub data_bytes : List ℕ
  pub parsed : parse_message data_bytes ≡ ok d.inner
  pub same_names : d.names ≡ map name_of d.inner.fields
  pub same_index : d.field_index ≡ build d.inner.fields

pub compile-IsCompiled :
    {Obj : Type 0} (data_bytes : List ℕ) (d : Descriptor Obj)
    → compile data_bytes ≡ ok d
    → IsCompiled d
unfolding compile
compile-IsCompiled data_bytes d h =
    let (inner, e, rest) = >>=-eq-ok (parse_message data_bytes) _ h in
    record {
      data_bytes = data_bytes;
      parsed = e ∙ ap ok (cc rest);
      same_names = cc rest;
      same_index = cc rest;
    }

pub IsCompiled-IsWellFormed :
    {Obj : Type 0} (d : Descriptor Obj) → IsCompiled d → IsWellFormed d.inner
IsCompiled-IsWellFormed d h = parse_message-IsWellFormed h.data_bytes d.inner h.parsed

pub length-names : (fs : List FieldDescriptor) → length (map name_of fs) ≡ length fs
length-names [] = refl
length-names (f ∷ fs) = ap suc (length-names fs)
