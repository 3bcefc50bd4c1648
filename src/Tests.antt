-- ===== src/Tests.antt =====
-- Each property at a concrete input, module by module.
mod Transport
mod Handshake
mod Channel
mod Discovery
mod Storage
mod Receiver
mod Sender
mod Prepare
mod Requests
mod Session
mod Transfer
mod Closing
mod Connection
mod Selection
mod Waiting
