-- ===== src/Llm/Retry/Outcome.antt =====
-- Which call of the operation gives the result of `_retry_async`, and how many there are.
use pack_verse.Base.{
  ℕ, zero, suc, ◌+◌, ◌≤◌, ◌<◌, ◌≡◌, refl, ◌∙◌, Bool, true, false, Result, ok, err, arith, inl, inr,
  ◌⊎◌, Bool-cases, ltb, ltb→lt,
}
use mathlib.Core.Path.{subst}
use pack_verse.Base.Int.{ℤ, pos_part}
use pack_verse.Effects.{Act}
use pack_verse.Errors.{Exn}
use pack_verse.Llm.Retry.{Waiting, is_retryable, back_off, unless_final, attempts, retry_async}

-- A result after which the operation may be tried again.
abbrev pub wants_retry : {A : Type 0} → Result Exn A → Bool
wants_retry (ok a) = false
wants_retry (err e) = is_retryable e

-- A value, or an error that may be tried again.
abbrev pub Transient : {A : Type 0} → Result Exn A → Type 0
Transient (ok a) = Unit
Transient (err e) = is_retryable e ≡ true

abbrev pub Returned : {A : Type 0} → Result Exn A → Type 0
Returned (ok a) = Unit
Returned (err e) = ⊥

unless_final_stop :
    {S A : Type 0} (waiting : Waiting S) (base : ℕ) (r : Result Exn A) (again : Act S A) (s : S)
    → wants_retry r ≡ false
    → unless_final waiting base r again s ≡ (r, s)
unless_final_stop waiting base (ok a) again s h = refl
unless_final_stop waiting base (err e) again s h = rw h refl

unless_final_again :
    {S A : Type 0} (waiting : Waiting S) (base : ℕ) (r : Result Exn A) (again : Act S A) (s : S)
    → wants_retry r ≡ true
    → unless_final waiting base r again s ≡ again s
unless_final_again waiting base (ok a) again s h = absurd (ground arith)
unless_final_again waiting base (err e) again s h = rw h refl

contradiction : {A : Type 0} {a : A} (r : Result Exn A) → r ≡ ok a → wants_retry r ≡ true → ⊥
contradiction (ok b) e h = ground arith
contradiction (err x) e h = ground arith

settled : {A : Type 0} (r : Result Exn A) → Transient r → wants_retry r ≡ false → Returned r
settled (ok a) t h = tt
settled (err e) t h = ground arith

module _ {S A : Type 0} (waiting : Waiting S) (base : ℕ) (operation : Act S A) where
  -- the state before an attempt, after as many failed ones
  abbrev pub tried : ℕ → S → S
  tried zero s = s
  tried (suc n) s = back_off waiting base n (operation (tried n s)).1

  -- The attempt `m` is the first from `n` on whose result is final or that has no retry left.
  abbrev pub EndsAt : ℕ → ℕ → S → ℕ → Type 0
  EndsAt n left s m =
      (n ≤ m)
      × (m ≤ n + left)
      × ((k : ℕ) → n ≤ k → k < m → wants_retry (operation (tried k s)).0 ≡ true)
      × ((wants_retry (operation (tried m s)).0 ≡ false) ⊎ (m ≡ n + left))

  ends_at :
      (left n : ℕ) (s : S)
      → (m : ℕ) × EndsAt n left s m
        × (attempts waiting base operation left n (tried n s) ≡ operation (tried m s))
  unfolding attempts
  ends_at zero n s =
      (n, (omega arith, omega arith, (λ k a b. absurd (omega arith)), inr (omega arith)), refl)
  ends_at (suc left) n s =
      let here = operation (tried n s) in
      elim (Bool-cases (wants_retry here.0)) [
        | inl again ↦
            (let (m, (low, high, before, final), e) = ends_at left (suc n) s in
              (
                m,
                (
                  omega arith,
                  omega arith,
                  (λ k a b. elim (Bool-cases (ltb n k)) [
                    | inl later ↦ before k (omega (arith, ltb→lt n k later)) b
                    | inr now ↦
                        subst (λ j. wants_retry (operation (tried j s)).0 ≡ true) (ground arith)
                          again
                  ]),
                  elim final [ inl f ↦ inl f | inr f ↦ inr (omega arith) ],
                ),
                unless_final_again waiting base here.0 _ here.1 again ∙ e,
              ))
        | inr stop ↦ (
          n,
          (omega arith, omega arith, (λ k a b. absurd (omega arith)), inl stop),
          unless_final_stop waiting base here.0 _ here.1 stop,
        )
      ]

-- The retried operation ends, with the result of its first attempt that returns or raises an error
-- that is not retryable, and with that of attempt llm_max_retries if there is none before it.
pub retry_async-ends :
    {S A : Type 0} (waiting : Waiting S) (base : ℕ) (max_retries : ℤ) (operation : Act S A) (s : S)
    → (m : ℕ) × EndsAt waiting base operation 0 (pos_part max_retries) s m
      × (retry_async waiting base max_retries operation s
          ≡ operation (tried waiting base operation m s))
unfolding retry_async
retry_async-ends waiting base max_retries operation s =
    ends_at waiting base operation (pos_part max_retries) 0 s

-- If some attempt within llm_max_retries returns and none before it raises an error that is not
-- retryable, then the retried operation returns a value.
pub retry_async-recovers :
    {S A : Type 0} (waiting : Waiting S) (base : ℕ) (max_retries : ℤ) (operation : Act S A) (s : S)
    (n : ℕ) (a : A)
    → n ≤ pos_part max_retries
    → (operation (tried waiting base operation n s)).0 ≡ ok a
    → ((k : ℕ) → k < n → Transient (operation (tried waiting base operation k s)).0)
    → Returned (retry_async waiting base max_retries operation s).0
retry_async-recovers waiting base max_retries operation s n a within returns transient =
    let (m, (low, high, before, final), e) =
      retry_async-ends waiting base max_retries operation s in
    let not_later : m ≤ n = elim (Bool-cases (ltb n m)) [
      | inl later ↦ absurd (contradiction _ returns (before n (omega arith) (ltb→lt n m later)))
      | inr h ↦ ground arith
    ] in
    rw e (elim (Bool-cases (ltb m n)) [
      | inl sooner ↦ elim final [
        | inl f ↦
            settled (operation (tried waiting base operation m s)).0
              (transient m (ltb→lt m n sooner)) f
        | inr f ↦ absurd (omega (arith, ltb→lt m n sooner))
      ]
      | inr h ↦
          let same : n ≡ m = ground arith in
          subst (λ j. Returned (operation (tried waiting base operation j s)).0) same
            (rw returns tt)
    ])
