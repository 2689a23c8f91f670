-- ===== src/Api.antt =====
-- internal/api: the parts of the HTTP layer that compute.
pub mod ContentRange
