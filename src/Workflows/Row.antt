-- ===== src/Workflows/Row.antt =====
-- backend/app/models/workflow_definition.py, workflow_run.py and workflow_step_run.py: the rows.
use pack_verse.Base.{ℕ, String, Option}
use pack_verse.Base.Int.{ℤ}
use pack_verse.Enums.{WorkflowStatus, WorkflowRunStatus, WorkflowStepRunStatus}
use pack_verse.Json.{Fields}

pub record WorkflowDefinition : Type 0 where
  pub id : ℕ
  pub status : WorkflowStatus
  pub definition_json : Fields

pub record WorkflowRun : Type 0 where
  pub id : ℕ
  pub workflow_id : ℕ
  pub created_by_user_id : Option ℕ
  pub status : WorkflowRunStatus
  pub output_text : Option String
  pub error_code : Option String
  pub error_message : Option String
  pub duration_ms : Option ℕ
  pub started_at : Option ℕ
  pub completed_at : Option ℕ

pub record WorkflowStepRun : Type 0 where
  pub id : ℕ
  pub workflow_run_id : ℕ
  pub step_id : String
  pub step_order : ℤ
  pub agent_id : ℕ
  pub agent_run_id : Option ℕ
  pub input_snapshot : Option String
  pub output_text : Option String
  pub status : WorkflowStepRunStatus
  pub error_code : Option String
  pub error_message : Option String
  pub duration_ms : Option ℕ
  pub started_at : Option ℕ
  pub completed_at : Option ℕ
