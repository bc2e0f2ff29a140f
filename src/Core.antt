-- ===== src/Core.antt =====
-- backend/app/core: the settings.
pub mod Config
