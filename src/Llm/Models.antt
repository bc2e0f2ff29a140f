-- ===== src/Llm/Models.antt =====
-- backend/app/llm/models.py and the interface of llm/base.py. Latencies are in microseconds and costs
-- whole numbers of a small unit of money; `Vector` is the type of an embedding.
use pack_verse.Base.{ℕ, ◌+◌, String, Option, List}
use pack_verse.Base.Int.{ℤ}
use pack_verse.Json.{Value, Fields}
use pack_verse.Effects.{Act}
use pack_verse.Runtime.Prompt.{ToolDefinition}

pub data MessageRole : Type 0 where
  system user assistant : MessageRole

pub record Message : Type 0 where
  pub role : MessageRole
  pub content : String

pub record ToolCall : Type 0 where
  pub id : String
  pub name : String
  pub arguments : Fields

pub record ResponseFormat : Type 0 where
  pub json_schema : Fields
  pub name : String

pub record LlmRequest : Type 0 where
  pub request_id : ℕ
  pub model : String
  pub messages : List Message
  pub provider : Option String
  pub system_prompt : Option String
  pub temperature : Option Value
  pub max_tokens : Option ℤ
  pub timeout_seconds : Option ℕ
  pub response_format : Option ResponseFormat
  pub tools : Option (List ToolDefinition)
  pub metadata : Fields

pub record LlmUsage : Type 0 where
  pub input_tokens : ℕ
  pub output_tokens : ℕ

abbrev pub total_tokens : LlmUsage → ℕ
total_tokens usage = usage.input_tokens + usage.output_tokens

pub record LlmResponse : Type 0 where
  pub request_id : ℕ
  pub provider : String
  pub model : String
  pub content : String
  pub finish_reason : String
  pub usage : LlmUsage
  pub latency : ℕ
  pub created_at : ℕ
  pub provider_request_id : Option String
  pub estimated_cost_usd : Option ℕ
  pub tool_calls : Option (List ToolCall)
  pub metadata : Fields

pub record EmbeddingRequest : Type 0 where
  pub request_id : ℕ
  pub model : String
  pub input : List String
  pub provider : Option String
  pub timeout_seconds : Option ℕ
  pub metadata : Fields

pub record EmbeddingResponse (Vector : Type 0) : Type 0 where
  pub request_id : ℕ
  pub provider : String
  pub model : String
  pub embeddings : List Vector
  pub usage : LlmUsage
  pub latency : ℕ
  pub created_at : ℕ
  pub provider_request_id : Option String
  pub estimated_cost_usd : Option ℕ
  pub metadata : Fields

pub data ProviderHealthStatus : Type 0 where
  configured reachable unavailable not_configured : ProviderHealthStatus

pub record ProviderHealth : Type 0 where
  pub provider : String
  pub status : ProviderHealthStatus
  pub detail : Option String
  pub latency : Option ℕ

-- `LLMProvider`; `S` is the state of the world outside.
pub record Provider (S Vector : Type 0) : Type 0 where
  pub generate : LlmRequest → Act S LlmResponse
  pub embed : EmbeddingRequest → Act S (EmbeddingResponse Vector)
  pub health_check : Act S ProviderHealth
