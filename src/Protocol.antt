-- ===== src/Protocol.antt =====
-- internal/protocolv2: what the CLI, the server and the browser agree on.
pub mod Envelope
pub mod Labels
pub mod Algorithms
pub mod Keys
pub mod Timeouts
pub mod SigningJwk
pub mod Anchors
pub mod Publication
