-- ===== src/Tests/Llm.antt =====
-- The retries and the gateway with a provider that times out once.
use pack_verse.Base.{ℕ, zero, suc, ◌≤◌, ◌≡◌, ◌↔◌, refl, none, ok, arith}
use pack_verse.Base.Int.{pos}
use pack_verse.Effects.{Act}
use pack_verse.Llm.Models.{LlmResponse}
use pack_verse.Llm.Retry.{retry_async}
use pack_verse.Llm.Retry.Loop.{Loop, retry_async-Loop}
use pack_verse.Llm.Retry.Outcome.{
  EndsAt, Transient, Returned, tried, retry_async-ends, retry_async-recovers,
}
use pack_verse.Llm.Gateway.{health_check}
use pack_verse.Llm.Gateway.Outcome.{AreReports, checked_names, health_check-AreReports}
use pack_verse.Tests.Stores.{
  sample_waiting, sample_libraries, sample_gateway, sample_request, sample_response, after_timeout,
}

abbrev once_late : Act ℕ LlmResponse
once_late = after_timeout (sample_response sample_request)

retry_async-Loop_example :
    Loop sample_waiting 5 2 once_late 0 0 (ok (sample_response sample_request), 2)
    ↔ ((ok (sample_response sample_request), 2) ≡ retry_async sample_waiting 5 (pos 2) once_late 0)
retry_async-Loop_example =
    retry_async-Loop sample_waiting 5 (pos 2) once_late 0 (ok (sample_response sample_request), 2)

retry_async-ends_example :
    (m : ℕ) × EndsAt sample_waiting 5 once_late 0 2 0 m
    × (retry_async sample_waiting 5 (pos 2) once_late 0
        ≡ once_late (tried sample_waiting 5 once_late m 0))
retry_async-ends_example = retry_async-ends sample_waiting 5 (pos 2) once_late 0

before_first : (k : ℕ) → suc k ≤ 1 → Transient (once_late (tried sample_waiting 5 once_late k 0)).0
before_first zero h = refl
before_first (suc k) h = absurd (omega arith)

retry_async-recovers_example : Returned (retry_async sample_waiting 5 (pos 2) once_late 0).0
retry_async-recovers_example =
    retry_async-recovers sample_waiting 5 (pos 2) once_late 0 1 (sample_response sample_request)
      (omega arith) refl before_first

health_check-AreReports_example :
    AreReports sample_libraries sample_gateway
      (checked_names sample_libraries sample_gateway none)
      (health_check sample_libraries sample_gateway none 0).0
      0
health_check-AreReports_example = health_check-AreReports sample_libraries sample_gateway none 0
