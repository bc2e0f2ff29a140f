-- ===== src/Llm/Http.antt =====
-- backend/app/llm/providers/_shared.py, and what the providers of anthropic.py and
-- openai_compatible.py do alike with an answer of `httpx`: the mapping of its status to an error of the
-- gateway, and the health check. The text of a status and the messages that only end up in texts of
-- errors are left to the parameter `show` or left out.
pub mod Retried
use pack_verse.Base.{
  ℕ, String, Bool, true, ◌&&◌, Option, none, some, Result, ok, err, if◌then◌else◌, ◌==◌, ℕ_eq, leb,
  [], ◌∷◌, elem,
}
use Prim.Native.String.{◌++◌}
use pack_verse.Errors.{
  LlmError, llm_authentication, llm_rate_limit, llm_timeout, llm_provider_unavailable,
  llm_invalid_request, llm_response, llm_unsupported_model,
}
use pack_verse.Llm.Models.{ProviderHealth, ProviderHealthStatus}

-- `httpx.TimeoutException`, `httpx.RequestError` with its text, or a response with its status; `B` is
-- what `response.json()` is read as.
pub data Reply (B : Type 0) : Type 0 where
  timed_out : Reply B
  request_failed : String → Reply B
  response : ℕ → B → Reply B

unfoldable pub map_http_error : String → String → ℕ → Bool → LlmError
map_http_error provider model status not_found_is_unsupported_model =
    if elem status (401 ∷ 403 ∷ [])
    then llm_authentication provider
    else if status == 429
    then llm_rate_limit provider
    else if (status == 404) && not_found_is_unsupported_model
    then llm_unsupported_model provider model
    else if elem status (400 ∷ 413 ∷ 422 ∷ [])
    then llm_invalid_request provider
    else if leb 500 status
    then llm_provider_unavailable provider
    else llm_response provider

-- The answer to a request, before its body is read.
unfoldable pub body_of : {B : Type 0} → String → String → Reply B → Result LlmError B
unfolding map_http_error
body_of provider model timed_out = err (llm_timeout provider)
body_of provider model (request_failed text) = err (llm_provider_unavailable provider)
body_of provider model (response status body) =
    if status == 200 then ok body else err (map_http_error provider model status true)

abbrev pub unavailable : String → String → Option ℕ → ProviderHealth
unavailable provider detail latency = record {
  provider = provider;
  status = ProviderHealthStatus.unavailable;
  detail = some detail;
  latency = latency;
}

module _ {B : Type 0} (show : ℕ → String) where
  unfoldable pub health_of_reply : String → ℕ → Reply B → ProviderHealth
  health_of_reply provider latency timed_out = unavailable provider "timeout" none
  health_of_reply provider latency (request_failed text) = unavailable provider text none
  health_of_reply provider latency (response status body) =
      if elem status (401 ∷ 403 ∷ [])
      then unavailable provider "authentication failed" (some latency)
      else if leb 500 status
      then unavailable provider ("HTTP " ++ show status) (some latency)
      else record {
        provider = provider;
        status = ProviderHealthStatus.reachable;
        detail = none;
        latency = some latency;
      }
