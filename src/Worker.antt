-- ===== src/Worker.antt =====
-- The background worker: backend/app/worker/.
pub mod Dispatch
pub mod Ingest
pub mod Loop
