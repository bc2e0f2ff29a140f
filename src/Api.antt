-- ===== src/Api.antt =====
-- backend/app/api and core/security.py: tokens, who may call, and the status of an error.
pub mod Auth
