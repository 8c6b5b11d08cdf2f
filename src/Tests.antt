-- ===== src/Tests.antt =====
-- The theorems at concrete inputs: a server with two backends behind the in-memory S3 of the tests.
mod Fixtures
mod Limits
mod Failures
mod Paths
mod Storage
mod Handlers
mod Config
mod Server
mod Restarts
mod Health
mod Assembly
