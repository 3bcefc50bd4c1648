-- ===== src/Crypto.antt =====
-- src/quick_share_crypto.rs: the UKEY2 handshake and the SecureMessage channel.
pub mod Primitives
pub mod Errors
pub mod Keys
pub mod Envelope
pub mod Channel
pub mod PublicKeys
pub mod Pin
pub mod Handshake
