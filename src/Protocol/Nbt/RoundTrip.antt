-- ===== src/Protocol/Nbt/RoundTrip.antt =====
-- The decoder reads back what the encoder wrote.
pub mod Written
pub mod Arrays
pub mod Read
pub mod Lists
pub mod Compounds
pub mod Levels
pub mod Payload
pub mod Whole
pub mod CompoundRoots
