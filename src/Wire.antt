-- ===== src/Wire.antt =====
-- The messages of src/quick_share_wire.rs, an enumeration's numbers, and the two frame builders.
pub mod Enumeration
mod Payload
mod Attachment
mod Connection
mod Offline
mod Ukey2
mod Secure
mod Sharing
mod Builders
pub mod Codec
pub mod Numbers
pub use Payload.*
pub use Connection.*
pub use Offline.*
pub use Ukey2.*
pub use Secure.*
pub use Attachment.*
pub use Sharing.*
pub use Builders.*
