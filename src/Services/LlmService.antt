-- ===== src/Services/LlmService.antt =====
-- backend/app/services/llm_service.py: calls of the gateway with their audit rows. `time` and
-- `new_id` are the readings of the clock and the ids that `uuid.uuid4` makes.
pub mod Audit
pub mod Outcome
use pack_verse.Base.{
  ℕ, zero, suc, ◌+◌, ◌/◌, String, Bool, true, false, not, ◌&&◌, Option, none, some, List, [], ◌∷◌,
  ◌++◌, map, Result, ok, err, ◌==◌, string_eq, if◌then◌else◌, ◌>>=◌ as bind,
}
use pack_verse.Base.Table
use pack_verse.Base.Int.{ℤ, leb_ℤ}
use pack_verse.Json.{Fields, end}
use pack_verse.Enums.{LlmRequestStatus}
use pack_verse.Errors.{
  Exn, llm, domain, LlmError, llm_structured_output, llm_request_not_found, class_name,
}
use pack_verse.Effects.{Act, pure, raise, lift, gets, or_raise, raise_when, as_exn, ◌>>=◌, ◌>>◌}
use pack_verse.World.{milliseconds}
use pack_verse.Runtime.Service.{User, hidden_from}
use pack_verse.Runtime.Prompt.{ToolDefinition}
use pack_verse.Llm.Models.{
  LlmRequest, LlmResponse, LlmUsage, ResponseFormat, ToolCall, EmbeddingRequest, EmbeddingResponse,
  total_tokens, ProviderHealth,
}
use pack_verse.Llm.Schemas.{
  ResponseFormatIn, GenerateRequest, GenerateResponse, TextInput, EmbedRequest, EmbedResponse, one,
  many, ProviderInfo, ModelAliasInfo,
}
use pack_verse.Llm.Routing.{LlmSettings, resolve_provider_name, resolve_model, default_model_for}
use pack_verse.Llm.Gateway.{Libraries, Gateway, generate, embed, is_configured, health_check}
use pack_verse.Llm.Payload.{
  resolve_generate, to_llm_request, to_generate_response, resolve_embed, to_embedding_request,
  to_embed_response,
}
use pack_verse.Services.RequestRow.{
  Measured, new_record, failed_record, succeeded_record, measured_answer, measured_embedding,
}
use pack_verse.Services.Row.{LlmRequestRecord}
use pack_verse.Services.Store.{Store, reach, now, fresh_id, insert_request, save_request}

-- `except LLMError`
abbrev pub is_llm_error : Exn → Bool
is_llm_error (llm e) = true
is_llm_error _ = false

-- `payload.provider or "unresolved"`
abbrev pub or_unresolved : Option String → String
or_unresolved none = "unresolved"
or_unresolved (some name) = if name == "" then "unresolved" else name

module _ {S Vector : Type 0} (time new_id : ℕ → ℕ) where
  -- the row of a request that routing refuses, and its error again
  unfoldable pub refuse :
      {A : Type 0} → ℕ → ℕ → Option String → String → Fields → LlmError → Act (Store S Vector) A
  refuse id user_id provider model metadata e = do
    completed ← now time
    insert_request (
        failed_record (new_record id user_id (or_unresolved provider) model metadata) (llm e) none
          completed)
    raise (llm e)

  unfoldable pub fail_request : {A : Type 0} → LlmRequestRecord → ℕ → Exn → Act (Store S Vector) A
  fail_request row started e = do
    ended ← now time
    completed ← now time
    save_request (failed_record row e (some (milliseconds started ended)) completed)
    raise e

  -- the row after the gateway's call
  unfoldable pub settle :
      {A : Type 0} → LlmRequestRecord → ℕ → (A → Measured) → Result Exn A → Act (Store S Vector) A
  unfolding fail_request
  settle row started measured (ok a) = do
    completed ← now time
    save_request (succeeded_record row (measured a) completed)
    pure a
  settle row started measured (err e) =
      if is_llm_error e then fail_request row started e else raise e

  -- the PENDING row, the gateway's call, and the row after it
  unfoldable pub audited :
      {A : Type 0} → LlmRequestRecord → (A → Measured) → Act S A → Act (Store S Vector) A
  unfolding settle
  audited row measured call = do
    insert_request row
    started ← now time
    λ s. let (r, s') = reach call s in settle row started measured r s'

  module _ (libraries : Libraries S) (gateway : Gateway S Vector) (settings : LlmSettings) where
    -- the request behind routing, or its refusal
    unfoldable pub generate_resolved :
        ℕ
        → GenerateRequest
        → ℕ
        → Result LlmError (String × String × Option ResponseFormat)
        → Act (Store S Vector) GenerateResponse
    unfolding refuse audited generate
    generate_resolved id payload user_id (err e) =
        refuse id user_id payload.provider payload.model payload.metadata e
    generate_resolved id payload user_id (ok resolved) = do
      response ←
          audited (new_record id user_id resolved.0 resolved.1 payload.metadata) measured_answer
            (generate libraries gateway (to_llm_request settings id payload resolved))
      pure (to_generate_response response)

    unfoldable pub generate_and_persist :
        GenerateRequest → ℕ → Act (Store S Vector) GenerateResponse
    unfolding generate_resolved resolve_provider_name resolve_model
    generate_and_persist payload user_id = do
      id ← fresh_id new_id
      generate_resolved id payload user_id (resolve_generate settings payload)

    unfoldable pub embed_resolved :
        ℕ
        → EmbedRequest
        → ℕ
        → Result LlmError (String × String)
        → Act (Store S Vector) (EmbedResponse Vector)
    unfolding refuse audited embed
    embed_resolved id payload user_id (err e) =
        refuse id user_id payload.provider payload.model payload.metadata e
    embed_resolved id payload user_id (ok (provider, model)) = do
      response ←
          audited (new_record id user_id provider model payload.metadata) measured_embedding
            (embed libraries gateway (to_embedding_request settings id payload (provider, model)))
      pure (to_embed_response response)

    unfoldable pub embed_and_persist :
        EmbedRequest → ℕ → Act (Store S Vector) (EmbedResponse Vector)
    unfolding embed_resolved resolve_provider_name resolve_model
    embed_and_persist payload user_id = do
      id ← fresh_id new_id
      embed_resolved id payload user_id (resolve_embed settings payload)

    unfoldable pub list_providers : List ProviderInfo
    unfolding default_model_for
    list_providers =
        map
          (λ name. record {
            name = name;
            configured = is_configured libraries gateway name;
            default_model = default_model_for name settings;
          })
          settings.llm_allowed_providers_list

    unfoldable pub get_health : S → List ProviderHealth × S
    unfolding health_check
    get_health s = health_check libraries gateway none s

module _ {S Vector : Type 0} where
  unfoldable pub get_request : ℕ → User → Act (Store S Vector) LlmRequestRecord
  get_request request_id current_user = do
    found ← gets (λ s. Table.find (λ r. r.id) request_id s.llm_requests)
    row ← or_raise found (domain (llm_request_not_found request_id))
    raise_when (hidden_from current_user row.user_id) (domain (llm_request_not_found request_id))
    pure row

abbrev pub aliases_of : String → List (String × String) → List ModelAliasInfo
aliases_of provider mapping =
    map (λ item. record { provider = provider; alias = item.0; resolved_model = item.1 }) mapping

unfoldable pub aliases_in : List (String × List (String × String)) → List ModelAliasInfo
aliases_in [] = []
aliases_in ((provider, mapping) ∷ items) = aliases_of provider mapping ++ aliases_in items

unfoldable pub list_model_aliases : LlmSettings → List ModelAliasInfo
unfolding aliases_in
list_model_aliases settings = aliases_in settings.llm_model_aliases_map
