-- ===== src/Receiver.antt =====
-- The receiving side, src/quick_share_receiver.rs.
pub mod Errors
pub mod Requests
pub mod Assembler
pub mod Pending
pub mod Session
pub mod Transfer
pub mod Offer
pub mod Introduction
pub mod Connection
