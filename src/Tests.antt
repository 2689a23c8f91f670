-- ===== src/Tests.antt =====
-- Runs of the definitions on concrete inputs, and the theorems at them.
pub mod Fixtures
pub mod Library
pub mod Store
pub mod Services
pub mod Logins
pub mod Limiter
pub mod Records
pub mod Media
pub mod Items
pub mod Uploads
pub mod Passwords
