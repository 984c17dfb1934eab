-- ===== src/Mdm.antt =====
-- commandment/mdm: the MDM protocol.
pub mod Enums
pub mod Commands
pub mod Queue
pub mod Endpoint
pub mod Checkin
pub mod Keeps
pub mod Handlers
pub mod Server
