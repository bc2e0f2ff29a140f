-- ===== src/Jobs/Row.antt =====
-- backend/app/models/job.py: a row of the `jobs` table. Ids are numbers, times are microseconds, the
-- resolution of Python's datetime. `output_json`, which no code writes, is left out.
use pack_verse.Base.{ℕ, String, Option}
use pack_verse.Enums.{JobStatus}
use pack_verse.Json.{Fields}

pub record Job : Type 0 where
  pub id : ℕ
  pub job_type : String
  pub status : JobStatus
  pub target_run_id : Option ℕ
  pub input_json : Fields
  pub error_code : Option String
  pub error_message : Option String
  pub attempt_count : ℕ
  pub max_attempts : ℕ
  pub next_attempt_at : Option ℕ
  pub lease_expires_at : Option ℕ
  pub heartbeat_at : Option ℕ
  pub worker_id : Option String
  pub cancel_requested_at : Option ℕ
  pub started_at : Option ℕ
  pub completed_at : Option ℕ
  pub created_at : ℕ
