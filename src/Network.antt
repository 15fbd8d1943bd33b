-- ===== src/Network.antt =====
-- crates/cubic-network/src: the transport between the codec and the session.
pub mod Transforms
pub mod Connection
pub mod SecureChat
mod Tests
mod ChatTests
