-- ===== src/Llm/Retry.antt =====
-- `_retry_async` of backend/app/llm/gateway.py. Delays are whole numbers of a small unit of time;
-- `random.uniform` and `asyncio.sleep` are parameters over the world outside. The recursion is on
-- the retries left, `llm_max_retries - attempt`.
pub mod Loop
pub mod Outcome
use pack_verse.Base.{ℕ, zero, suc, ◌+◌, ◌*◌, ◌^◌, Bool, false, Result, ok, err, if◌then◌else◌, ltb}
use pack_verse.Base.Int.{ℤ, pos_part}
use pack_verse.Errors.{Exn, llm, retryable}
use pack_verse.Effects.{Act}

pub record Waiting (S : Type 0) : Type 0 where
  -- `random.uniform(0, base)`
  pub uniform : ℕ → S → ℕ × S
  pub sleep : ℕ → S → S

-- `except LLMError as exc: if not exc.retryable …`
abbrev pub is_retryable : Exn → Bool
is_retryable (llm e) = retryable e
is_retryable _ = false

module _ {S : Type 0} (waiting : Waiting S) (base : ℕ) where
  abbrev pub back_off : ℕ → S → S
  back_off attempt s =
      let (jitter, s') = waiting.uniform base s in
      let delay = base * 2 ^ attempt + jitter in if ltb 0 delay then waiting.sleep delay s' else s'

  module _ {A : Type 0} where
    -- the result of a call that may be tried again
    abbrev pub unless_final : Result Exn A → Act S A → Act S A
    unless_final (ok a) again s = (ok a, s)
    unless_final (err e) again s = if is_retryable e then again s else (err e, s)

    unfoldable pub attempts : Act S A → ℕ → ℕ → Act S A
    attempts operation zero attempt s = operation s
    attempts operation (suc left) attempt s =
        let (r, s') = operation s in
        unless_final r (λ t. attempts operation left (suc attempt) (back_off attempt t)) s'

    unfoldable pub retry_async : ℤ → Act S A → Act S A
    unfolding attempts
    retry_async max_retries operation = attempts operation (pos_part max_retries) 0
