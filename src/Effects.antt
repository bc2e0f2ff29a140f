-- ===== src/Effects.antt =====
-- A coroutine of the program: it reads and writes a state, and returns or raises. What was written
-- before a raise stays written, so the state comes back beside the exception too.
use pack_verse.Base.{Bool, true, false, Option, none, some, Result, ok, err, ◌≡◌, refl}
use pack_verse.Errors.{Exn}

abbrev pub Act : Type 0 → Type 0 → Type 0
Act S A = S → Result Exn A × S

module _ {S A : Type 0} where
  abbrev pub pure : A → Act S A
  pure a s = (ok a, s)

  abbrev pub raise : Exn → Act S A
  raise e s = (err e, s)

  abbrev pub lift : Result Exn A → Act S A
  lift r s = (r, s)

  abbrev pub gets : (S → A) → Act S A
  gets f s = (ok (f s), s)

  -- `if x is None: raise e`
  abbrev pub or_raise : Option A → Exn → Act S A
  or_raise none e = raise e
  or_raise (some a) e = pure a

module _ {S : Type 0} where
  abbrev pub modify : (S → S) → Act S Unit
  modify f s = (ok tt, f s)

  abbrev pub raise_when : Bool → Exn → Act S Unit
  raise_when true e = raise e
  raise_when false e = pure tt

module _ {S A B : Type 0} where
  abbrev pub continue : Result Exn A → (A → Act S B) → Act S B
  continue (ok a) f s = f a s
  continue (err e) f s = (err e, s)

  -- What holds of the state after a call and after the rest holds after both.
  pub continue_keeps {ℓ} :
      (P : S → Type ℓ) (r : Result Exn A) (f : A → Act S B) (s : S)
      → P s
      → ((a : A) → P (f a s).1)
      → P (continue r f s).1
  continue_keeps P (ok a) f s h k = k a
  continue_keeps P (err e) f s h k = h

  -- What holds of a call that raised, and of the rest behind one that returned, holds of both.
  pub continue_cases {ℓ} :
      (P : Result Exn B × S → Type ℓ) (r : Result Exn A) (f : A → Act S B) (s : S)
      → ((e : Exn) → r ≡ err e → P (err e, s))
      → ((a : A) → r ≡ ok a → P (f a s))
      → P (continue r f s)
  continue_cases P (ok a) f s h k = k a refl
  continue_cases P (err e) f s h k = h e refl

  infixl 5 ◌>>=◌ ◌>>◌
  abbrev pub ◌>>=◌ : Act S A → (A → Act S B) → Act S B
  ◌>>=◌ m f s = let (r, s') = m s in continue r f s'

  abbrev pub ◌>>◌ : Act S A → Act S B → Act S B
  m >> k = m >>= λ _. k

-- the error of a hierarchy as an exception
abbrev pub as_exn : {E A : Type 0} → (E → Exn) → Result E A → Result Exn A
as_exn f (ok a) = ok a
as_exn f (err e) = err (f e)
