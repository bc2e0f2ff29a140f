-- ===== src/Runtime/Row.antt =====
-- backend/app/models/agent_definition.py and agent_run.py: the rows. Costs, which the source keeps
-- as Decimal, are whole numbers of a small unit of money.
use pack_verse.Base.{ℕ, String, Bool, Option, List}
use pack_verse.Enums.{AgentStatus, AgentRunStatus}
use pack_verse.Json.{Fields}

pub record AgentDefinition : Type 0 where
  pub id : ℕ
  pub name : String
  pub status : AgentStatus
  pub configuration_json : Fields

-- an entry of `tool_calls_json`
pub record TraceEntry : Type 0 where
  pub iteration : ℕ
  pub llm_request_id : ℕ
  pub tool_name : String
  pub arguments : Fields
  pub result : String
  pub is_error : Bool

pub record AgentRun : Type 0 where
  pub id : ℕ
  pub agent_id : ℕ
  pub created_by_user_id : Option ℕ
  pub status : AgentRunStatus
  pub llm_request_id : Option ℕ
  pub provider : Option String
  pub model : Option String
  pub input_tokens : Option ℕ
  pub output_tokens : Option ℕ
  pub total_tokens : Option ℕ
  pub estimated_cost_usd : Option ℕ
  pub output_text : Option String
  pub tool_calls_json : Option (List TraceEntry)
  pub error_code : Option String
  pub error_message : Option String
  pub duration_ms : Option ℕ
  pub started_at : Option ℕ
  pub completed_at : Option ℕ
