-- ===== src/Services.antt =====
-- internal/application: the services, over the repositories of internal/storage/sqlite. What the clock
-- gives at each reading is an argument; so is an ID that the service's generator returns.
pub mod Events
pub mod Users
pub mod Authentication
pub mod Sessions
pub mod Media
pub mod Grants
pub mod Upload
pub mod Deletion
pub mod Passwords
pub mod Bootstrap
