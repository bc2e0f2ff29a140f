-- ===== src/Llm/Gateway.antt =====
-- `LLMGateway` of backend/app/llm/gateway.py. The providers, `json.loads`, `jsonschema.validate`, the
-- reading of a `Decimal` and the text of an exception are parameters; `stream` only routes and passes
-- on the provider's iterator, and is left out.
pub mod Outcome
use pack_verse.Base.{
  ℕ, String, Bool, true, false, not, Option, none, some, List, [], ◌∷◌, Result, ok, err, is_some,
  if◌then◌else◌, map,
}
use pack_verse.Base.Dict.{lookup}
use pack_verse.Json.{Value, Fields}
use pack_verse.Errors.{Exn, llm, LlmError, llm_provider_not_configured, llm_structured_output}
use pack_verse.Effects.{Act, pure, raise, lift, raise_when, or_raise, as_exn, ◌>>=◌, ◌>>◌}
use pack_verse.Llm.Models.{
  LlmRequest, LlmResponse, ResponseFormat, EmbeddingRequest, EmbeddingResponse, Provider,
  ProviderHealth, ProviderHealthStatus,
}
use pack_verse.Llm.Routing.{LlmSettings, resolve_provider_name, resolve_model, estimate_cost_usd}
use pack_verse.Llm.Retry.{Waiting, retry_async}

pub record Libraries (S : Type 0) : Type 0 where
  pub waiting : Waiting S
  pub loads : String → Option Value
  pub conforms : Value → Fields → Bool
  pub decimal : String → Option ℕ
  pub text : Exn → String

pub record Gateway (S Vector : Type 0) : Type 0 where
  pub providers : List (String × Provider S Vector)
  pub settings : LlmSettings
  pub retry_base_delay : ℕ

module _ {S Vector : Type 0} (libraries : Libraries S) (gateway : Gateway S Vector) where
  open libraries use {waiting, loads, conforms, decimal, text}
  open gateway use {providers, settings, retry_base_delay}

  -- does the text parse, and conform to the schema
  abbrev pub matches_schema : Option Value → Fields → Bool
  matches_schema none schema = false
  matches_schema (some parsed) schema = conforms parsed schema

  abbrev pub validate_structured_output : String → Option ResponseFormat → Act S Unit
  validate_structured_output content none = pure tt
  validate_structured_output content (some format) =
      raise_when (not (matches_schema (loads content) format.json_schema))
        (llm llm_structured_output)

  abbrev pub is_configured : String → Bool
  is_configured name = is_some (lookup name providers)

  abbrev pub get_provider : String → Act S (Provider S Vector)
  get_provider name = or_raise (lookup name providers) (llm (llm_provider_not_configured name))

  -- the call of a provider that routing has chosen
  unfoldable pub generate_with : LlmRequest → String → Provider S Vector → Act S LlmResponse
  unfolding retry_async resolve_model estimate_cost_usd
  generate_with request name provider = do
    let model = resolve_model name request.model settings
    let resolved = record request { provider = some name; model = model }
    response ←
        retry_async waiting retry_base_delay settings.llm_max_retries (provider.generate resolved)
    validate_structured_output response.content request.response_format
    pure (record response {
      estimated_cost_usd =
          estimate_cost_usd decimal settings name model response.usage.input_tokens
            response.usage.output_tokens;
    })

  unfoldable pub generate : LlmRequest → Act S LlmResponse
  unfolding generate_with resolve_provider_name
  generate request = do
    name ← lift (as_exn llm (resolve_provider_name request.provider settings))
    provider ← get_provider name
    generate_with request name provider

  unfoldable pub embed_with :
      EmbeddingRequest → String → Provider S Vector → Act S (EmbeddingResponse Vector)
  unfolding retry_async resolve_model estimate_cost_usd
  embed_with request name provider = do
    let model = resolve_model name request.model settings
    let resolved = record request { provider = some name; model = model }
    response ←
        retry_async waiting retry_base_delay settings.llm_max_retries (provider.embed resolved)
    pure (record response {
      estimated_cost_usd =
          estimate_cost_usd decimal settings name model response.usage.input_tokens
            response.usage.output_tokens;
    })

  unfoldable pub embed : EmbeddingRequest → Act S (EmbeddingResponse Vector)
  unfolding embed_with resolve_provider_name
  embed request = do
    name ← lift (as_exn llm (resolve_provider_name request.provider settings))
    provider ← get_provider name
    embed_with request name provider

  -- a provider's own report, or that it is unavailable if it raised
  abbrev pub report : String → Result Exn ProviderHealth → ProviderHealth
  report name (ok health) = health
  report name (err e) = record {
    provider = name;
    status = ProviderHealthStatus.unavailable;
    detail = some (text e);
    latency = none;
  }

  abbrev pub not_configured_report : String → ProviderHealth
  not_configured_report name = record {
    provider = name;
    status = ProviderHealthStatus.not_configured;
    detail = none;
    latency = none;
  }

  abbrev pub health_of : String → Option (Provider S Vector) → S → ProviderHealth × S
  health_of name none s = (not_configured_report name, s)
  health_of name (some provider) s = let (r, s') = provider.health_check s in (report name r, s')

  unfoldable pub health_reports : List String → S → List ProviderHealth × S
  health_reports [] s = ([], s)
  health_reports (name ∷ names) s =
      let (health, s') = health_of name (lookup name providers) s in
      let (rest, s'') = health_reports names s' in (health ∷ rest, s'')

  unfoldable pub health_check : Option String → S → List ProviderHealth × S
  unfolding health_reports
  health_check none s = health_reports settings.llm_allowed_providers_list s
  health_check (some name) s = health_reports (name ∷ []) s
