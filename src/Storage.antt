-- ===== src/Storage.antt =====
-- backend/app/storage: the local backend.
pub mod Local
