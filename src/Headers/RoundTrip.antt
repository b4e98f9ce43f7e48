-- ===== src/Headers/RoundTrip.antt =====
-- What is written as a header is handled, message by message, when the header is parsed.
pub mod Loop
pub mod Second
pub mod Written
pub mod First
pub mod Stored
