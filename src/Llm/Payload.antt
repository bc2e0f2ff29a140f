-- ===== src/Llm/Payload.antt =====
-- backend/app/services/llm_service.py: what a request asks of the gateway, and the response that is
-- made of the gateway's.
use pack_verse.Base.{
  ℕ, String, Option, none, some, List, [], ◌∷◌, Result, ok, err, ◌==◌, string_eq, if◌then◌else◌,
  ◌>>=◌,
}
use pack_verse.Base.Int.{ℤ, leb_ℤ}
use pack_verse.Errors.{LlmError, llm_structured_output}
use pack_verse.Runtime.Prompt.{ToolDefinition}
use pack_verse.Llm.Models.{
  LlmRequest, LlmResponse, ResponseFormat, ToolCall, EmbeddingRequest, EmbeddingResponse,
  total_tokens,
}
use pack_verse.Llm.Schemas.{
  ResponseFormatIn, GenerateRequest, GenerateResponse, TextInput, EmbedRequest, EmbedResponse, one,
  many,
}
use pack_verse.Llm.Routing.{LlmSettings, resolve_provider_name, resolve_model}

abbrev pub to_response_format : Option ResponseFormatIn → Result LlmError (Option ResponseFormat)
to_response_format none = ok none
to_response_format (some data_in) =
    if data_in.mode == "json_schema"
    then ok (some (record { json_schema = data_in.json_schema; name = data_in.name }))
    else err llm_structured_output

abbrev pub to_tools : Option (List ToolDefinition) → Option (List ToolDefinition)
to_tools none = none
to_tools (some []) = none
to_tools (some (t ∷ ts)) = some (t ∷ ts)

abbrev pub tool_calls_to_schema : Option (List ToolCall) → Option (List ToolCall)
tool_calls_to_schema none = none
tool_calls_to_schema (some []) = none
tool_calls_to_schema (some (c ∷ cs)) = some (c ∷ cs)

-- `min(payload.max_tokens, settings.llm_max_output_tokens)`, the setting if there is none
abbrev pub capped : Option ℤ → LlmSettings → ℤ
capped none settings = settings.llm_max_output_tokens
capped (some n) settings =
    if leb_ℤ n settings.llm_max_output_tokens then n else settings.llm_max_output_tokens

abbrev pub texts_of : TextInput → List String
texts_of (one text) = text ∷ []
texts_of (many texts) = texts

abbrev pub to_generate_response : LlmResponse → GenerateResponse
to_generate_response response = record {
  request_id = response.request_id;
  provider = response.provider;
  model = response.model;
  content = response.content;
  finish_reason = response.finish_reason;
  input_tokens = response.usage.input_tokens;
  output_tokens = response.usage.output_tokens;
  total_tokens = total_tokens response.usage;
  estimated_cost_usd = response.estimated_cost_usd;
  latency = response.latency;
  created_at = response.created_at;
  provider_request_id = response.provider_request_id;
  tool_calls = tool_calls_to_schema response.tool_calls;
  metadata = response.metadata;
}

abbrev pub to_embed_response : {Vector : Type 0} → EmbeddingResponse Vector → EmbedResponse Vector
to_embed_response response = record {
  request_id = response.request_id;
  provider = response.provider;
  model = response.model;
  embeddings = response.embeddings;
  input_tokens = response.usage.input_tokens;
  estimated_cost_usd = response.estimated_cost_usd;
  latency = response.latency;
  created_at = response.created_at;
  provider_request_id = response.provider_request_id;
  metadata = response.metadata;
}

module _ (settings : LlmSettings) where
  -- the provider, the model and the response format of a request
  abbrev pub resolve_generate :
      GenerateRequest → Result LlmError (String × String × Option ResponseFormat)
  resolve_generate payload = do
    provider ← resolve_provider_name payload.provider settings
    response_format ← to_response_format payload.response_format
    ok (provider, resolve_model provider payload.model settings, response_format)

  abbrev pub to_llm_request :
      ℕ → GenerateRequest → String × String × Option ResponseFormat → LlmRequest
  to_llm_request id payload (provider, model, response_format) = record {
    request_id = id;
    model = model;
    messages = payload.messages;
    provider = some provider;
    system_prompt = payload.system_prompt;
    temperature = payload.temperature;
    max_tokens = some (capped payload.max_tokens settings);
    timeout_seconds = none;
    response_format = response_format;
    tools = to_tools payload.tools;
    metadata = payload.metadata;
  }

  abbrev pub resolve_embed : EmbedRequest → Result LlmError (String × String)
  resolve_embed payload = do
    provider ← resolve_provider_name payload.provider settings
    ok (provider, resolve_model provider payload.model settings)

  abbrev pub to_embedding_request : ℕ → EmbedRequest → String × String → EmbeddingRequest
  to_embedding_request id payload (provider, model) = record {
    request_id = id;
    model = model;
    input = texts_of payload.input;
    provider = some provider;
    timeout_seconds = none;
    metadata = payload.metadata;
  }
