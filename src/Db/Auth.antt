-- ===== src/Db/Auth.antt =====
-- internal/db/auth.go: users, their credentials, and the challenges of passkey ceremonies.
pub mod Types
pub mod Challenges
pub mod Accounts
pub mod AllowedIps
