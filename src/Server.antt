-- ===== src/Server.antt =====
-- internal/server: what the handlers share.
pub mod Notifications
pub mod AuditTrail
pub mod State
pub mod Logged
pub mod Announce
pub mod Confirm
pub mod CreateBody
pub mod Create
pub mod Expiry
pub mod Result
pub mod Middleware
pub mod Reads
pub mod Stream
pub mod SigningKeys
mod Sample
