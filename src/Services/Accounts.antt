-- ===== src/Services/Accounts.antt =====
-- backend/app/services/user_service.py. `normalize_email`, `hash_password` and `verify_password` of
-- core/security.py are parameters; `verify_password` answers False on a malformed hash.
pub mod Outcome
use pack_verse.Base.{
  ℕ, String, Bool, true, false, not, ◌||◌, Option, none, some, List, [], ◌∷◌, ◌++◌, ok, err, Result,
  if◌then◌else◌, ◌==◌, string_eq,
}
use pack_verse.Base.Table
use pack_verse.Enums.{UserRole, UserStatus, user_status_eq}
use pack_verse.Errors.{domain, duplicate_email, user_not_found, invalid_credentials}
use pack_verse.Effects.{Act, pure, gets, or_raise, raise_when, ◌>>=◌, ◌>>◌}
use pack_verse.Services.Row.{Account}
use pack_verse.Services.Store.{Store, now, fresh_id}

pub record Passwords : Type 0 where
  pub normalize_email : String → String
  pub hash_password : String → String
  pub verify_password : String → String → Bool

-- `UserRegister` of schemas/user.py
pub record UserRegister : Type 0 where
  pub email : String
  pub password : String
  pub full_name : String

-- the unique index on the email
abbrev pub email_taken : String → List Account → Bool
email_taken email [] = false
email_taken email (u ∷ users) = u.email == email || email_taken email users

abbrev pub find_by_email : String → List Account → Option Account
find_by_email email [] = none
find_by_email email (u ∷ users) = if u.email == email then some u else find_by_email email users

abbrev pub new_account : Passwords → UserRegister → ℕ → Account
new_account passwords data_in id = record {
  id = id;
  email = passwords.normalize_email data_in.email;
  hashed_password = passwords.hash_password data_in.password;
  full_name = data_in.full_name;
  role = UserRole.viewer;
  status = UserStatus.active;
  is_verified = false;
  last_login_at = none;
}

module _ {O Vector : Type 0} (passwords : Passwords) where
  open passwords use {normalize_email, verify_password}

  -- the INSERT, with the index's refusal of a second row with the email, which is the only one: the id
  -- is fresh and no column is NULL
  abbrev pub insert_account : String → Account → Act (Store O Vector) Account
  insert_account email user s =
      if email_taken user.email s.users
      then (err (domain (duplicate_email email)), s)
      else (ok user, record s { users = s.users ++ (user ∷ []) })

  unfoldable pub register_user : (ℕ → ℕ) → UserRegister → Act (Store O Vector) Account
  register_user new_id data_in = do
    id ← fresh_id new_id
    insert_account data_in.email (new_account passwords data_in id)

  unfoldable pub get_user_by_id : ℕ → Act (Store O Vector) Account
  get_user_by_id user_id = do
    found ← gets (λ s. Table.find (λ u. u.id) user_id s.users)
    or_raise found (domain (user_not_found user_id))

  unfoldable pub get_user_by_email : String → Act (Store O Vector) (Option Account)
  get_user_by_email email = gets (λ s. find_by_email (normalize_email email) s.users)

  unfoldable pub authenticate_user : String → String → Act (Store O Vector) Account
  unfolding get_user_by_email
  authenticate_user email password = do
    found ← get_user_by_email email
    user ← or_raise found (domain invalid_credentials)
    raise_when (not (verify_password password user.hashed_password)) (domain invalid_credentials)
    raise_when (not (user.status == UserStatus.active)) (domain invalid_credentials)
    pure user

  unfoldable pub record_login : (ℕ → ℕ) → Account → Act (Store O Vector) Account
  record_login time user = do
    at ← now time
    let user' = record user { last_login_at = some at }
    (λ s. (ok user', record s { users = Table.save (λ u. u.id) user' s.users }))
