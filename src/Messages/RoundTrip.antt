-- ===== src/Messages/RoundTrip.antt =====
-- What is encoded in a message is read back from it.
pub mod Space
pub mod Pipeline
pub mod Names
pub mod Targets
pub mod LinkFlags
pub mod Links
