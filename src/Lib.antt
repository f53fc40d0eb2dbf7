-- ===== src/Lib.antt =====
-- fastproto: a protobuf runtime whose core is written in Rust and driven from Python. A generated
-- dataclass holds a compiled descriptor; encoding walks the descriptor over an instance and
-- appends to a byte buffer, decoding walks the bytes with a cursor and builds an instance.
--
-- The parts and their files:
--   Common      numbers, tests, lists measured by native numbers, results, machine words, UTF-8
--   Wire        src/wire/mod.rs. Reader is the cursor (Reader::read_varint, read_tag, read_fixed32,
--               read_fixed64, read_len_delimited, skip), Writer the functions that append,
--               with the length prefix that is patched in later, ZigZag the zig-zag maps.
--               Loop is the loop `while !reader.is_empty()` of every decoder; Steps and Stream are
--               the rules by which such loops are shown to end and to read what was written.
--   Descriptor  src/descriptor/mod.rs. Types has the data, Index the precomputed FieldIndex.
--   Parse       src/parse/mod.rs. RawField, MapEntry, Interpret and Message follow
--               parse_raw_field, parse_nested_map_entry, interpret_field and parse_message; Fields and
--               Formed show what the others may rely on.
--   WellKnown   src/wellknown/mod.rs. Parts has the arithmetic, Codec the messages on the wire;
--               Exact, Range and Bounds have what it gives.
--   Python      what the codec asks of Python objects, as interfaces: Python for scalars, Runtime
--               for attributes, sequences, classes and times; Safe and Post are the predicates on
--               results that neither panic nor run out of fuel.
--   Encode      src/encode/mod.rs. Scalars, Repeated (encode_single, encode_nested,
--               encode_repeated, encode_map) and Message (encode_message) have the code; Packed is the
--               arm of encode_repeated for packed scalars on a list, as Sequence shows;
--               Reference is the same with no buffer; Writes, Rollback, Behind, Refines and Walk
--               show that the code refines it; Safety, Calm and Total that it ends, and Members has
--               the counters of the oneofs.
--   Decode      src/decode/mod.rs. Scalars, Enum, Packed, Values (decode_repeated,
--               decode_map_entry, decode_message_value), Slots and Message (decode_message,
--               construct_fast, set_unknown) have the code; Safety, Calm, Entries, Shapes, Owners,
--               Groups, Rounds, Fields, Compiled and Total show what it keeps and that it ends;
--               Skips, Taken, Unknown, Verbatim and Kept which bytes it keeps as unknown.
--   Message     src/message/mod.rs. Class has Descriptor and compile, Link the data of a linked
--               class, Linking link and build_linked_ref, Ready what both keep.
-- Wire reads and writes bytes for all others; Parse builds the descriptors of Descriptor, which
-- Message indexes; Encode and Decode use Wire and, for times, WellKnown.
--
-- How the code is rendered: a `Vec<u8>` or `&[u8]` is a list of numbers below 256, a `String` the
-- list of its UTF-8 bytes, an unsigned word a number with its wrap-around written out, a signed
-- one an integer. `&mut self` and `&mut Vec<u8>` become a returned reader or buffer. `Result` is
-- the type Result of Common.Outcome; its third constructor, out_of_fuel, is no value of the
-- program. An error carries no reader or buffer, since every caller gives both up on an error.
-- `usize` has 64 bits, and a buffer is shorter than 2 ^ 63.
--
-- A panic of the code is the error `panicked` of CodecError. A Py<Descriptor> is a number, the
-- place of the descriptor in the store `heap`, a parameter. encode_message and decode_message and
-- what they call back from are functions that take the nested call as a parameter (`nested`).
--
-- Fuel: a decoding loop has as many rounds as its input has bytes, and each round takes a byte at
-- least. The loops on a varint have the rounds of the code (ten groups of seven bits), and the
-- bisection of the index has one round for each pair. encode_message and decode_message have
-- MAX_DEPTH + 2 calls in one another, of which the last fails on the check of the depth. An
-- iterator of Python need not stop, and the loop of for_each_item over one has the rounds that
-- `patience` of Runtime gives it: that they are enough is a hypothesis wherever it matters.
--
-- Not modelled: the objects of Python behind the interfaces (datetime arithmetic, attribute
-- access, calls of classes), which are parameters, and user code in them that changes an object
-- while it is encoded; last_size, which only sizes buffers; two threads that link at the same
-- time, beyond the rule that the first value of a OnceLock stays; src/lib.rs, which registers
-- classes with PyO3; and the Python package.
pub mod Common
pub mod Wire
pub mod Descriptor
pub mod Parse
pub mod WellKnown
pub mod Python
pub mod Encode
pub mod Decode
pub mod Message
