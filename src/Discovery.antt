-- ===== src/Discovery.antt =====
-- How HiRodrop is found and finds others: what src/quick_share.rs advertises, what
-- src/quick_share_discovery.rs reads of it, and the QR rendezvous of src/quick_share_qr.rs.
pub mod External
pub mod EndpointId
pub mod Advertisement
pub mod Visible
pub mod Announced
pub mod QrRecords
pub mod Qr
pub mod QrTokens
pub mod QrMatch
pub mod Service
pub mod Browser
pub mod QrSession
pub mod Order
pub mod QrWait
