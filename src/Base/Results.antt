-- ===== src/Base/Results.antt =====
-- A computation that returns a value or raises an error.
use mathlib.Core.Path.{◌≡◌, refl, subst}
use native.Mathlib.Omega.{arith}
use mathlib.Core.Logic.{◌⊎◌, inl, inr}
use mathlib.Core.Bool.{Bool, true, false}

pub data Result {ℓ} (E : Type ℓ) (A : Type ℓ) : Type ℓ where
  ok : A → Result E A
  err : E → Result E A

infixl 5 ◌>>=◌ ◌>>◌
abbrev pub ◌>>=◌ {ℓ} : {E A B : Type ℓ} → Result E A → (A → Result E B) → Result E B
ok a >>= f = f a
err e >>= f = err e

abbrev pub ◌>>◌ {ℓ} : {E A B : Type ℓ} → Result E A → Result E B → Result E B
m >> k = m >>= λ _. k

-- `if test: raise e`
abbrev pub raise_if {ℓ} : {E : Type ℓ} → Bool → E → Result E Unit
raise_if true e = err e
raise_if false e = ok tt

pub Result-cases {ℓ} :
    {E A : Type ℓ} (r : Result E A) → ((a : A) × (r ≡ ok a)) ⊎ ((e : E) × (r ≡ err e))
Result-cases (ok a) = inl (a, refl)
Result-cases (err e) = inr (e, refl)

-- Of a value that is returned `P` holds; nothing is said of an error.
abbrev pub Ensures {ℓ κ} : {E A : Type ℓ} → (A → Type κ) → Result E A → Type κ
Ensures P (ok a) = P a
Ensures P (err e) = Unit

pub Ensures-bind {ℓ κ} :
    {E A B : Type ℓ} (P : B → Type κ) (m : Result E A) (k : A → Result E B)
    → ((a : A) → m ≡ ok a → Ensures P (k a))
    → Ensures P (m >>= k)
Ensures-bind P (ok a) k h = h a refl
Ensures-bind P (err e) k h = tt

pub Ensures-raise_if {ℓ κ} :
    {E A : Type ℓ} (P : A → Type κ) (test : Bool) (e : E) (k : Result E A)
    → (test ≡ false → Ensures P k)
    → Ensures P (raise_if test e >> k)
Ensures-raise_if P true e k h = tt
Ensures-raise_if P false e k h = h refl

pub Ensures-result {ℓ κ} :
    {E A : Type ℓ} (P : A → Type κ) (r : Result E A) (a : A) → Ensures P r → r ≡ ok a → P a
Ensures-result P (ok b) a p h = subst P (ground arith) p
Ensures-result P (err e) a p h = absurd (ground arith)

pub Ensures-weaken {ℓ κ ι} :
    {E A : Type ℓ} (P : A → Type κ) (Q : A → Type ι) (r : Result E A)
    → Ensures P r
    → ((a : A) → P a → Q a)
    → Ensures Q r
Ensures-weaken P Q (ok a) p h = h a p
Ensures-weaken P Q (err e) p h = tt
