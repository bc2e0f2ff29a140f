-- ===== src/Llm/Http/Retried.antt =====
-- Which statuses the retry policy of the gateway sees as transient.
use pack_verse.Base.{◌≡◌, ℕ, String, Bool, ◌||◌, ◌==◌, ℕ_eq, leb, arith}
use pack_verse.Errors.{retryable}
use pack_verse.Llm.Http.{map_http_error}

-- An error status is retried exactly if it is 429 or at least 500.
pub retryable-map_http_error :
    (provider model : String) (status : ℕ) (not_found_is_unsupported_model : Bool)
    → retryable (map_http_error provider model status not_found_is_unsupported_model)
      ≡ (status == 429) || leb 500 status
unfolding map_http_error
retryable-map_http_error provider model status flag = ground arith
