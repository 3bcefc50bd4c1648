-- ===== src/Sender.antt =====
-- The sending side, src/quick_share_sender.rs.
pub mod Errors
pub mod Connection
pub mod Files
pub mod Assembler
pub mod Session
pub mod Selection
pub mod Preparation
pub mod Closing
pub mod Sending
pub mod Delivery
pub mod Entry
