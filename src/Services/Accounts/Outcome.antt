-- ===== src/Services/Accounts/Outcome.antt =====
-- The users table keeps one row per email, and what logging in requires.
use pack_verse.Base.{
  ℕ, ◌≡◌, ◌≢◌, ◌⊎◌, refl, sym, String, true, false, not, Option, none, some, List, [], ◌∷◌, ◌++◌,
  Result, ok, err, All, arith, inl, inr, Bool-cases, ◌==◌, string_eq,
}
use mathlib.Core.Path.{subst}
use mathlib.Core.List.{Memᴰ}
use pack_verse.Enums.{UserRole, UserStatus, user_status_eq}
use pack_verse.Errors.{Exn, domain, invalid_credentials, duplicate_email}
use pack_verse.Effects.{or_raise, raise_when, pure, ◌>>=◌, ◌>>◌}
use pack_verse.Services.Row.{Account}
use pack_verse.Services.Store.{Store}
use pack_verse.Services.Accounts.{
  Passwords, UserRegister, email_taken, find_by_email, new_account, register_user,
  authenticate_user, get_user_by_email,
}

-- No two users have one email.
abbrev pub AreOwnEmails : List Account → Type 0
AreOwnEmails [] = Unit
AreOwnEmails (u ∷ users) = All (λ v. v.email ≢ u.email) users × AreOwnEmails users

taken_by :
    (email : String) (users : List Account)
    → email_taken email users ≡ true
    → (other : Account) × Memᴰ other users × (other.email ≡ email)
taken_by email [] h = absurd (ground arith)
taken_by email (u ∷ users) h = elim (Bool-cases (u.email == email)) [
  | inl e ↦ (u, Memᴰ.head refl, (string_eq.same_iff u.email email).0 e)
  | inr e ↦
      let (other, there, same) = taken_by email users (ground arith) in
      (other, Memᴰ.tail there, same)
]

All-append_last :
    (P : Account → Type 0) (users : List Account) (u : Account)
    → All P users
    → P u
    → All P (users ++ (u ∷ []))
All-append_last P [] u h p = (p, tt)
All-append_last P (x ∷ users) u h p = (h.0, All-append_last P users u h.1 p)

AreOwnEmails-append :
    (users : List Account) (u : Account)
    → email_taken u.email users ≡ false
    → AreOwnEmails users
    → AreOwnEmails (users ++ (u ∷ []))
AreOwnEmails-append [] u h k = (tt, tt)
AreOwnEmails-append (x ∷ users) u h k = elim (Bool-cases (x.email == u.email)) [
  | inl e ↦ absurd (ground arith)
  | inr e ↦ (
    All-append_last (λ v. v.email ≢ x.email) users u k.0
        (λ same. absurd (ground (arith, string_eq.same_iff x.email u.email))),
    AreOwnEmails-append users u (ground arith) k.1,
  )
]

-- No account may log in with the password: there is none, or the password does not verify, or the
-- account is not ACTIVE.
abbrev pub IsRefused : Passwords → String → Option Account → Type 0
IsRefused passwords password none = Unit
IsRefused passwords password (some user) =
    (passwords.verify_password password user.hashed_password ≡ false)
    ⊎ (user.status ≢ UserStatus.active)

not_active :
    (status : UserStatus) → (status == UserStatus.active) ≡ false → status ≢ UserStatus.active
not_active status h e = absurd (ground (arith, user_status_eq.same_iff status UserStatus.active))

module _ {O V : Type 0} (passwords : Passwords) where
  -- What a registration leaves: an ACTIVE, unverified VIEWER under the normalized email, whom nobody
  -- shares it with and whose hash is that of the password; or an error of an email that is taken.
  abbrev pub Registered : UserRegister → Store O V → Result Exn Account × Store O V → Type 0
  Registered data_in s (ok user, t) =
      (t.users ≡ s.users ++ (user ∷ []))
      × (user.email ≡ passwords.normalize_email data_in.email)
      × (user.hashed_password ≡ passwords.hash_password data_in.password)
      × (user.full_name ≡ data_in.full_name)
      × (user.role ≡ UserRole.viewer)
      × (user.status ≡ UserStatus.active)
      × (user.is_verified ≡ false)
      × AreOwnEmails t.users
  Registered data_in s (err e, t) =
      (e ≡ domain (duplicate_email data_in.email))
      × (t.users ≡ s.users)
      × (other : Account) × Memᴰ other s.users
      × (other.email ≡ passwords.normalize_email data_in.email)

  -- If no two users have one email, then a registration that returns adds an ACTIVE, unverified VIEWER
  -- under the normalized email with the hash of the password, and still no two have one email; one
  -- that raises changes nothing, and some user has the email already.
  pub register_user-Registered :
      (new_id : ℕ → ℕ) (data_in : UserRegister) (s : Store O V)
      → AreOwnEmails s.users
      → Registered data_in s (register_user passwords new_id data_in s)
  unfolding register_user
  register_user-Registered new_id data_in s h =
      let user = new_account passwords data_in (new_id s.ids_made) in
      elim (Bool-cases (email_taken user.email s.users)) [
        | inl t ↦
            let (other, there, same) = taken_by user.email s.users t in
            rw t (refl, refl, other, there, same)
        | inr t ↦
            rw t (refl, refl, refl, refl, refl, refl, refl, AreOwnEmails-append s.users user t h)
      ]

  -- What a login attempt ends in.
  abbrev pub LoggedIn : String → String → Store O V → Result Exn Account × Store O V → Type 0
  LoggedIn email password s (ok user, t) =
      (find_by_email (passwords.normalize_email email) s.users ≡ some user)
      × (passwords.verify_password password user.hashed_password ≡ true)
      × (user.status ≡ UserStatus.active)
      × (t ≡ s)
  LoggedIn email password s (err e, t) =
      (e ≡ domain invalid_credentials)
      × (t ≡ s)
      × IsRefused passwords password (find_by_email (passwords.normalize_email email) s.users)

  found-LoggedIn :
      (email password : String) (s : Store O V) (found : Option Account)
      → find_by_email (passwords.normalize_email email) s.users ≡ found
      → LoggedIn email password s (
          (or_raise found (domain invalid_credentials) >>= λ user.
          raise_when
            (not (passwords.verify_password password user.hashed_password))
            (domain invalid_credentials)
          >> (raise_when (not (user.status == UserStatus.active)) (domain invalid_credentials)
              >> pure user))
            s)
  found-LoggedIn email password s none e =
      (refl, refl, subst (IsRefused passwords password) (sym e) tt)
  found-LoggedIn email password s (some user) e =
      elim (Bool-cases (passwords.verify_password password user.hashed_password)) [
        | inr v ↦ rw v (refl, refl, subst (IsRefused passwords password) (sym e) (inl v))
        | inl v ↦ elim (Bool-cases (user.status == UserStatus.active)) [
          | inr a ↦
              rw (v, a)
                (
                  refl,
                  refl,
                  subst (IsRefused passwords password) (sym e) (inr (not_active user.status a)),
                )
          | inl a ↦ rw (v, a) (e, v, (user_status_eq.same_iff _ _).0 a, refl)
        ]
      ]

  -- A login gives the user with the normalized email exactly if there is one, the password verifies
  -- and the account is ACTIVE; every other attempt raises the same InvalidCredentialsError, and none
  -- changes a row.
  pub authenticate_user-LoggedIn :
      (email password : String) (s : Store O V)
      → LoggedIn email password s (authenticate_user passwords email password s)
  unfolding authenticate_user get_user_by_email
  authenticate_user-LoggedIn email password s =
      found-LoggedIn email password s (find_by_email (passwords.normalize_email email) s.users) refl
