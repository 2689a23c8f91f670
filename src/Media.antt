-- ===== src/Media.antt =====
-- internal/media/permission.go and internal/media/policy.go: permission masks, grants, and who may do
-- what with a media item.
pub mod Permission
pub mod Grant
pub mod Policy
pub mod Item
