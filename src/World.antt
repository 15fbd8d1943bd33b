-- ===== src/World.antt =====
-- crates/cubic-world: the state of the world that the server announces.
pub mod Chunk
pub mod Entity
pub mod Inventory
mod Tests
mod EntityTests
mod InventoryTests
