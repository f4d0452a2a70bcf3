-- ===== src/Utils.antt =====
-- internal/utils: what every part of the server uses.
pub mod Broker
pub mod Base64
