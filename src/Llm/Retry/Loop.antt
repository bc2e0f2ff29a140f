-- ===== src/Llm/Retry/Loop.antt =====
-- The `while True` loop of `_retry_async`, round by round, as a relation that leaves its end open.
use pack_verse.Base.{
  ℕ, zero, suc, ◌≤◌, ◌<◌, ◌-◌, ◌↔◌, ◌≡◌, refl, sym, true, false, Result, ok, err, arith, inl, inr,
  ◌⊎◌, Bool-cases,
}
use mathlib.Core.Path.{subst}
use pack_verse.Base.Int.{ℤ, pos_part}
use pack_verse.Errors.{Exn}
use pack_verse.Effects.{Act}
use pack_verse.Llm.Retry.{Waiting, is_retryable, back_off, unless_final, attempts, retry_async}

module _ {S A : Type 0} (waiting : Waiting S) (base limit : ℕ) (operation : Act S A) where
  -- From the given attempt in the given state the loop ends with a result in a state.
  pub data Loop : ℕ → S → Result Exn A × S → Type 0 where
    returned : {n : ℕ} {s t : S} {a : A} → operation s ≡ (ok a, t) → Loop n s (ok a, t)
    gave_up :
        {n : ℕ} {s t : S} {e : Exn}
        → operation s ≡ (err e, t)
        → (is_retryable e ≡ false) ⊎ (limit ≤ n)
        → Loop n s (err e, t)
    again :
        {n : ℕ} {s t : S} {e : Exn} {r : Result Exn A × S}
        → operation s ≡ (err e, t)
        → is_retryable e ≡ true
        → n < limit
        → Loop (suc n) (back_off waiting base n t) r
        → Loop n s r

  last : (n : ℕ) (s t : S) (r : Result Exn A) → operation s ≡ (r, t) → limit ≤ n → Loop n s (r, t)
  last n s t (ok a) e h = returned e
  last n s t (err x) e h = gave_up e (inr h)

  round :
      (n left : ℕ) (s t : S) (r : Result Exn A)
      → operation s ≡ (r, t)
      → n < limit
      → ((t' : S) → Loop (suc n) t' (attempts waiting base operation left (suc n) t'))
      → Loop n s (
          unless_final waiting base r
            (λ u. attempts waiting base operation left (suc n) (back_off waiting base n u))
            t)
  round n left s t (ok a) e h rest = returned e
  round n left s t (err x) e h rest = elim (Bool-cases (is_retryable x)) [
    | inl y ↦ rw y (again e y h (rest (back_off waiting base n t)))
    | inr y ↦ rw y (gave_up e (inl y))
  ]

  -- The recursion on the retries left follows the loop.
  Loop-attempts :
      (left n : ℕ) (s : S) → limit - n ≡ left → Loop n s (attempts waiting base operation left n s)
  unfolding attempts
  Loop-attempts zero n s h = last n s (operation s).1 (operation s).0 refl (omega arith)
  Loop-attempts (suc left) n s h =
      round n left s (operation s).1 (operation s).0 refl (omega arith)
        (λ t. Loop-attempts left (suc n) t (omega arith))

  -- The loop ends in one way only.
  attempts-Loop :
      (left : ℕ) {n : ℕ} {s : S} {r : Result Exn A × S}
      → limit - n ≡ left
      → Loop n s r
      → r ≡ attempts waiting base operation left n s
  unfolding attempts
  attempts-Loop zero h (returned e) = sym e
  attempts-Loop (suc left) h (returned e) = rw e refl
  attempts-Loop zero h (gave_up e why) = sym e
  attempts-Loop (suc left) h (gave_up e (inl y)) = rw (e, y) refl
  attempts-Loop (suc left) h (gave_up e (inr le)) = absurd (omega arith)
  attempts-Loop zero h (again e y lt rest) = absurd (omega arith)
  attempts-Loop (suc left) h (again e y lt rest) = rw (e, y) (attempts-Loop left (omega arith) rest)

-- The retry loop ends, in one result only, the one that the operation's retries give.
pub retry_async-Loop :
    {S A : Type 0} (waiting : Waiting S) (base : ℕ) (max_retries : ℤ) (operation : Act S A) (s : S)
    (r : Result Exn A × S)
    → Loop waiting base (pos_part max_retries) operation 0 s r
      ↔ (r ≡ retry_async waiting base max_retries operation s)
unfolding retry_async
retry_async-Loop waiting base max_retries operation s r =
    let limit = pos_part max_retries in
    (
      λ loop. attempts-Loop waiting base limit operation limit (omega arith) loop,
      λ e.
          subst (Loop waiting base limit operation 0 s) (sym e)
            (Loop-attempts waiting base limit operation limit 0 s (omega arith)),
    )
