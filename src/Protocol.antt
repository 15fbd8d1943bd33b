-- ===== src/Protocol.antt =====
-- crates/cubic-protocol/src: the codec primitives of the Minecraft wire protocol.
pub mod Error
pub mod Reader
pub mod Writer
pub mod VarInt
pub mod Length
pub mod Frame
pub mod Position
pub mod BitSet
pub mod ProtocolUuid
pub mod Nbt
pub mod Text
pub mod Handshake
mod Tests
mod PackedTests
mod TextTests
