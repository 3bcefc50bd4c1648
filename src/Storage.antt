-- ===== src/Storage.antt =====
-- The file system of std as src/quick_share_receiver.rs uses it, and the names that it lets through.
pub mod Names
pub mod SafeNames
pub mod FilePath
pub mod Disk
pub mod Parents
pub mod Destination
