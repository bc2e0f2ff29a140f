-- ===== src/Jobs.antt =====
-- The durable job queue: backend/app/jobs/models.py (the state machine), models/job.py (the row),
-- jobs/queue.py (claim, heartbeat, outcome, recovery) and jobs/service.py (enqueue and cancel).
pub mod Row
pub mod Machine
pub mod Queue
pub mod Claim
pub mod Recover
pub mod Lifecycle
pub mod Service
pub mod Ingestion
