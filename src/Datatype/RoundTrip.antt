-- ===== src/Datatype/RoundTrip.antt =====
-- `decode` reads back what `encode` writes.
pub mod Leaves
pub mod Names
pub mod Enums
pub mod Encodable
pub mod Parts
pub mod Types
