-- ===== src/Services/RequestRow.antt =====
-- backend/app/services/llm_service.py: the row of `llm_requests` before and after a call.
use pack_verse.Base.{ℕ, ◌/◌, String, Option, none, some}
use pack_verse.Json.{Fields, end}
use pack_verse.Enums.{LlmRequestStatus}
use pack_verse.Errors.{Exn, class_name}
use pack_verse.Llm.Models.{LlmUsage, LlmResponse, EmbeddingResponse, total_tokens}
use pack_verse.Services.Row.{LlmRequestRecord}

-- what an audit row takes from a response
pub record Measured : Type 0 where
  pub usage : LlmUsage
  pub estimated_cost_usd : Option ℕ
  pub latency : ℕ
  pub metadata : Fields

abbrev pub new_record : ℕ → ℕ → String → String → Fields → LlmRequestRecord
new_record id user_id provider model metadata = record {
  id = id;
  user_id = some user_id;
  provider = provider;
  model = model;
  status = LlmRequestStatus.pending;
  request_metadata_json = metadata;
  response_metadata_json = end;
  input_tokens = none;
  output_tokens = none;
  total_tokens = none;
  estimated_cost_usd = none;
  latency_ms = none;
  error_code = none;
  completed_at = none;
}

abbrev pub failed_record : LlmRequestRecord → Exn → Option ℕ → ℕ → LlmRequestRecord
failed_record row e latency completed = record row {
  status = LlmRequestStatus.failed;
  error_code = some (class_name e);
  latency_ms = latency;
  completed_at = some completed;
}

abbrev pub succeeded_record : LlmRequestRecord → Measured → ℕ → LlmRequestRecord
succeeded_record row measured completed = record row {
  status = LlmRequestStatus.succeeded;
  input_tokens = some measured.usage.input_tokens;
  output_tokens = some measured.usage.output_tokens;
  total_tokens = some (total_tokens measured.usage);
  estimated_cost_usd = measured.estimated_cost_usd;
  latency_ms = some (measured.latency / 1000);
  response_metadata_json = measured.metadata;
  completed_at = some completed;
}

abbrev pub measured_answer : LlmResponse → Measured
measured_answer response = record {
  usage = response.usage;
  estimated_cost_usd = response.estimated_cost_usd;
  latency = response.latency;
  metadata = response.metadata;
}

abbrev pub measured_embedding : {Vector : Type 0} → EmbeddingResponse Vector → Measured
measured_embedding response = record {
  usage = response.usage;
  estimated_cost_usd = response.estimated_cost_usd;
  latency = response.latency;
  metadata = response.metadata;
}
