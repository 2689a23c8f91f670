-- ===== src/Identity.antt =====
-- internal/identity/user.go: users, their roles, and the validation of what describes them.
-- `Platform` stands for what the code calls outside the repository: github.com/google/uuid, and the
-- tables of the Unicode standard that `strings.ToLower` consults above ASCII.
pub mod Username
pub mod User
