-- ===== src/Server.antt =====
-- internal/server/server.go: the SSH callbacks, and the sessions.
pub mod Login
pub mod Users
pub mod Sessions
pub mod HostKey
pub mod Assembly
