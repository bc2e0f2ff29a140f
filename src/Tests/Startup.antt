-- ===== src/Tests/Startup.antt =====
-- Settings that are accepted, the providers that they give, and the bodies that these send.
use pack_verse.Base.{◌≡◌, refl, String, Option, none, some, [], ◌∷◌, elem, string_eq, arith}
use pack_verse.Base.Int.{pos}
use pack_verse.Base.Dict.{lookup}
use pack_verse.Json.{Value, obj, end, field, str, int, arr, cons, nil}
use pack_verse.Core.Config.{Settings, get_settings}
use pack_verse.Core.Config.Ready.{Ready, get_settings-Ready}
use pack_verse.Llm.Models.{LlmRequest, MessageRole}
use pack_verse.Llm.Payloads.{message_value, anthropic_payload, open_ai_payload}
use pack_verse.Llm.Factory.{ProviderSettings, build_provider, get_provider_registry}
use pack_verse.Llm.Factory.Registered.{built, lookup-get_provider_registry}
use pack_verse.Tests.Stores.{sample_gateway, sample_request}

abbrev unstripped : String → String
unstripped text = text

abbrev empty_object : String → Option Value
empty_object text = some (obj end)

abbrev token : String
token = "0123456789abcdef0123456789abcdef"

abbrev development : Settings
development = record {
  environment = "development";
  storage_backend = "local";
  s3_endpoint_url = none;
  s3_bucket = none;
  s3_region = none;
  s3_access_key_id = none;
  s3_secret_access_key = none;
  jwt_secret_key = none;
  llm_default_provider = some "fake";
  llm_allowed_providers = "openai,fake";
  llm_model_aliases = "{}";
  llm_pricing_json = "{}";
  runtime_max_tool_iterations = pos 5;
}

development_starts :
    get_settings unstripped empty_object token development
    ≡ some (record development { jwt_secret_key = some token })
unfolding get_settings
development_starts = refl

get_settings-Ready_example :
    Ready unstripped empty_object token sample_gateway.settings
      (get_settings unstripped empty_object token development)
get_settings-Ready_example =
    get_settings-Ready unstripped empty_object token (omega arith) sample_gateway.settings
      development

abbrev without_key : ProviderSettings
without_key = record {
  llm_allowed_providers_list = "openai" ∷ "fake" ∷ [];
  anthropic_api_key = none;
  anthropic_base_url = "https://a";
  openai_api_key = none;
  openai_base_url = "https://o";
  openai_organization = none;
  openai_project = none;
  llm_timeout_seconds = 30;
}

lookup-get_provider_registry_example :
    lookup "fake" (get_provider_registry without_key)
    ≡ built (elem "fake" without_key.llm_allowed_providers_list) (build_provider "fake" without_key)
lookup-get_provider_registry_example = lookup-get_provider_registry without_key "fake"

abbrev briefed : LlmRequest
briefed = record sample_request {
  messages =
      record { role = MessageRole.system; content = "be brief" }
      ∷ record { role = MessageRole.user; content = "hi" }
      ∷ [];
  system_prompt = none;
  temperature = none;
  max_tokens = some (pos 0);
  response_format = none;
  tools = some [];
}

system_message_lifted :
    anthropic_payload unstripped (λ schema. "") briefed
    ≡ field "model" (str briefed.model) (
        field "max_tokens" (int (pos 1024)) (
          field "messages"
            (arr (cons (message_value "user" "hi") nil))
            (field "system" (str "be brief") end)))
unfolding anthropic_payload
system_message_lifted = refl

system_message_kept :
    open_ai_payload briefed
    ≡ field "model" (str briefed.model) (
        field "messages"
          (arr (cons (message_value "system" "be brief") (cons (message_value "user" "hi") nil)))
          (field "max_tokens" (int (pos 0)) end))
unfolding open_ai_payload
system_message_kept = refl
