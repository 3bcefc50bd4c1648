-- ===== src/Samples.antt =====
-- Concrete stand-ins for the crates that the program calls, for the tests: they keep the laws that the
-- models ask for and have no strength as cryptography or as encodings.
pub mod Serial
pub mod Payloads
pub mod Frames
pub mod Messages
pub mod Primitives
pub mod Discovery
pub mod Sharing
pub mod Platform
