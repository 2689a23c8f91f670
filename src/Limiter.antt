-- ===== src/Limiter.antt =====
-- The in-memory limiters of failed attempts: internal/application/authentication/limiter.go, by
-- username and source address, and internal/application/passwords/limiter.go, by source address. Each
-- method holds the limiter's mutex, so the calls of concurrent requests are a sequence of steps.
pub mod Bucket
pub mod Attempts
pub mod Addresses
