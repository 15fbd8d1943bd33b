-- ===== src/Protocol/Nbt.antt =====
-- crates/cubic-protocol/src/nbt: the data format of nested tags.
pub mod Tag
pub mod Error
pub mod Limits
pub mod NbtString
pub mod Value
pub mod Usage
pub mod Decode
pub mod RoundTrip
pub mod Within
pub mod Encode
mod Tests
mod TagTests
