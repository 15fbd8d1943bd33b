-- ===== src/Lib.antt =====
-- The network protocol, the connection, the chunks, the entities and the inventory of the Cubic client,
-- modelled and proved.
--
-- The parts, and the files that model them:
--   Common           lists, Booleans, signed words, bit operations, results, and state with errors
--   Protocol         crates/cubic-protocol/src, the codec of the wire
--     Error            error.rs: CodecError with its fields, without the messages
--     Reader, Writer   reader.rs, writer.rs: CodecReader and CodecWriter
--     Length           the length prefixes and byte arrays of reader.rs and writer.rs
--     Text             the strings of reader.rs and writer.rs
--     Handshake        handshake.rs
--     VarInt           varint.rs
--     Frame            frame.rs: FrameDecoder, encode_frame, split_raw_packet
--     Position         position.rs
--     BitSet           bitset.rs
--     ProtocolUuid     uuid.rs
--     Nbt              nbt: types of tags, errors, limits, and strings in Modified UTF-8
--     Nbt.Value        tag.rs: tags, lists, and compounds in the order of their names
--     Nbt.Usage        what decode.rs and encode.rs count against the limits
--     Nbt.Decode       decode.rs
--     Nbt.Within       decode.rs against the limits on tags and on depth
--     Nbt.Encode       encode.rs
--     Nbt.RoundTrip    the two against each other
--   Network          crates/cubic-network/src
--     Transforms       transforms.rs: compression and encryption of frames
--     Connection       connection.rs: the loop that receives a frame
--     SecureChat       secure_chat.rs: the order of messages and the signatures seen last
--   World            crates/cubic-world/src
--     Chunk            chunk.rs: paletted containers
--     Chunk.Light      chunk.rs: places of a section, and light
--     Chunk.Loaded     chunk.rs: the map of loaded chunks, and the summary of a chunk
--     Entity           entity.rs: the store of remote entities
--     Entity.Metadata  entity.rs: the metadata of an entity and its budget
--     Inventory        inventory.rs: stacks, containers, and the state of the inventory
--     Inventory.Components   the check of component patches
--     Inventory.Clicks, QuickMove, Routes, QuickCraft   the clicks on a container
-- How they interact: a connection reads bytes of the stream, decrypts them and pushes them to the frame
-- decoder; a frame that is complete is inflated and goes to the codec; the world keeps the chunks that
-- the packets announce.
--
-- How the state is modelled. A method on `&mut self` takes the state and returns it beside its result,
-- also where the result is an error (Common.Exec). A reader is its input and its position; a writer is
-- its output; a decoder is its limits, its buffer and the offset of the unread bytes. A map is an
-- association list with one entry for each key; nothing here depends on the order of a map. A shared
-- chunk is its value, since Arc::make_mut copies a chunk before a change.
--
-- Words. A byte is a number below 256, and usize has 64 bits. An unsigned word is a number below 2 ^ w,
-- a signed one an integer of Common.Int with the casts between the two; a float is its bit pattern, as
-- `to_bits` gives it. Shifts and masks are those of the source, with the wrap-around written out. A
-- branch that only a usize of fewer bits takes, such as a `try_from` that cannot fail on 64 bits, is
-- left out and said so at the definition.
--
-- Loops. A loop over a number that shrinks is recursion on its accessibility (write_groups), a loop with
-- a bound in the source is recursion on the bound (read_groups: 5 and 10 groups), and a loop over a
-- stream is recursion on the events of the stream. The decoder of NBT recurs on the levels that the
-- depth limit allows, and its loop over a compound on the entries that the limit allows; both are shown
-- to be enough (Nbt.Decode.Stops and Room). The loops over UTF-8 and over Modified UTF-8 are recursion
-- on fuel, the number of bytes, which is enough since every round passes a byte at least.
--
-- Parameters. Whether the allocator grants a reservation is an argument of the call. The zlib library
-- is a record of a compressor and a bounded decompressor, with the hypothesis that what was compressed
-- is decompressed up to the bound; AES-CFB8 is a record of a stateful cipher, with the hypothesis that
-- decrypting in pieces is decrypting at once, byte for byte. The equality on keys of a map, and that of
-- the component patches of stacks, are ones that decide equality. In the store of entities, the metadata
-- and attributes of an entity are of a parameter type; in the metadata, structured texts are. The sizes
-- of NBT tags, NBT strings, metadata values and particles in memory are those that the compiler chose.
--
-- Not modelled: status and bootstrap packets, sessions, the signing of chat, the lifecycle of the
-- world's state, the interpolation of entities and the movement of the player, which are floating-point
-- arithmetic, and all of the input and output, the user interface, the rendering and the
-- authentication. The messages of errors are left out.
pub mod Common
pub mod Protocol
pub mod Network
pub mod World
