-- ===== src/Clientcore.antt =====
-- internal/clientcore: what the command-line client and the SDK share.
pub mod TrustStore
