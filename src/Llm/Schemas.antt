-- ===== src/Llm/Schemas.antt =====
-- backend/app/schemas/llm.py: the bodies of the requests and responses. Latencies are in microseconds.
use pack_verse.Base.{ℕ, String, Bool, Option, List}
use pack_verse.Base.Int.{ℤ}
use pack_verse.Json.{Value, Fields}
use pack_verse.Runtime.Prompt.{ToolDefinition}
use pack_verse.Llm.Models.{Message, ToolCall}

pub record ResponseFormatIn : Type 0 where
  pub mode : String
  pub name : String
  pub json_schema : Fields

pub record GenerateRequest : Type 0 where
  pub provider : Option String
  pub model : String
  pub system_prompt : Option String
  pub messages : List Message
  pub temperature : Option Value
  pub max_tokens : Option ℤ
  pub response_format : Option ResponseFormatIn
  pub tools : Option (List ToolDefinition)
  pub metadata : Fields

pub record GenerateResponse : Type 0 where
  pub request_id : ℕ
  pub provider : String
  pub model : String
  pub content : String
  pub finish_reason : String
  pub input_tokens : ℕ
  pub output_tokens : ℕ
  pub total_tokens : ℕ
  pub estimated_cost_usd : Option ℕ
  pub latency : ℕ
  pub created_at : ℕ
  pub provider_request_id : Option String
  pub tool_calls : Option (List ToolCall)
  pub metadata : Fields

-- `str | list[str]`
pub data TextInput : Type 0 where
  one : String → TextInput
  many : List String → TextInput

pub record EmbedRequest : Type 0 where
  pub provider : Option String
  pub model : String
  pub input : TextInput
  pub metadata : Fields

pub record EmbedResponse (Vector : Type 0) : Type 0 where
  pub request_id : ℕ
  pub provider : String
  pub model : String
  pub embeddings : List Vector
  pub input_tokens : ℕ
  pub estimated_cost_usd : Option ℕ
  pub latency : ℕ
  pub created_at : ℕ
  pub provider_request_id : Option String
  pub metadata : Fields

pub record ProviderInfo : Type 0 where
  pub name : String
  pub configured : Bool
  pub default_model : Option String

pub record ModelAliasInfo : Type 0 where
  pub provider : String
  pub alias : String
  pub resolved_model : String
