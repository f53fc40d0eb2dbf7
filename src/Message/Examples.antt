-- ===== src/Message/Examples.antt =====
-- The theorems on src/message/mod.rs at a concrete message.
use fastproto.Common.{ℕ, none, false, map}
use fastproto.Descriptor.Index.{build}
use fastproto.Parse.Examples.{message}
use fastproto.Message.Class.{Descriptor, name_of}

abbrev compiled : Descriptor ℕ
compiled = record {
  inner = message;
  names = map name_of message.fields;
  field_index = build message.fields;
  refs = none;
  linked = false;
  fast_init = none;
}
