-- ===== src/Db.antt =====
-- internal/db: the stores behind the server's handlers, one module for each.
pub mod Requests
pub mod SigningKeys
pub mod Audit
pub mod Auth
