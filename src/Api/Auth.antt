-- ===== src/Api/Auth.antt =====
-- backend/app/core/security.py and api/deps.py. `jwt.encode` and `jwt.decode` with the secret and the
-- algorithm of the settings, and the text of an id, are parameters: `decode` at a time gives the claims
-- of a token whose signature, expiry and required claims are right. Times are in seconds.
pub mod Session
use pack_verse.Base.{
  ℕ, ◌+◌, String, Bool, true, false, not, Option, none, some, List, Result, ok, err, ◌>>=◌, ◌>>◌,
  raise_if, if◌then◌else◌, ◌==◌, string_eq, ℕ_eq, elem,
}
use pack_verse.Base.Table
use pack_verse.Base.Int.{pos}
use pack_verse.Json.{Value, str, int, Fields, field, end, get, as_str}
use pack_verse.Enums.{UserRole, UserStatus, user_role_eq, user_status_eq}
use pack_verse.Services.Row.{Account}

pub record Tokens : Type 1 where
  pub Token : Type 0
  pub encode : Fields → Token
  pub decode : ℕ → Token → Option Fields
  pub str_id : ℕ → String
  -- `uuid.UUID(str(value))`
  pub read_id : Value → Option ℕ
  pub role_name : UserRole → String

pub data TokenType : Type 0 where
  access refresh : TokenType

abbrev pub value_of : TokenType → String
value_of TokenType.access = "access"
value_of TokenType.refresh = "refresh"

pub data TokenError : Type 0 where
  invalid_or_expired : TokenError
  expected_other : TokenType → TokenError

-- the HTTP status of an `HTTPException` with its reason
pub data Refusal : Type 0 where
  bad_credentials not_active insufficient_role : Refusal

abbrev pub status_code : Refusal → ℕ
status_code bad_credentials = 401
status_code not_active = 403
status_code insufficient_role = 403

module _ (tokens : Tokens) where
  open tokens use {Token, encode, decode, str_id, read_id, role_name}

  abbrev pub claims : ℕ → UserRole → TokenType → ℕ → ℕ → ℕ → Fields
  claims subject role token_type now expires_delta jti = field "sub" (str (str_id subject)) (
      field "role" (str (role_name role)) (
        field "type" (str (value_of token_type)) (
          field "iat" (int (pos now))
            (field "exp" (int (pos (now + expires_delta))) (field "jti" (str (str_id jti)) end)))))

  unfoldable pub create_token : ℕ → UserRole → TokenType → ℕ → ℕ → ℕ → Token
  create_token subject role token_type now expires_delta jti =
      encode (claims subject role token_type now expires_delta jti)

  -- `payload.get("type") != expected_type.value`
  abbrev pub has_type : Option String → TokenType → Bool
  has_type none expected = false
  has_type (some text) expected = text == value_of expected

  abbrev pub check_type : TokenType → Option Fields → Result TokenError Fields
  check_type expected none = err invalid_or_expired
  check_type expected (some payload) =
      if has_type (as_str (get "type" payload)) expected
      then ok payload
      else err (expected_other expected)

  unfoldable pub decode_token : ℕ → Token → TokenType → Result TokenError Fields
  decode_token now token expected = check_type expected (decode now token)

  abbrev pub subject_of : Option Value → Option ℕ
  subject_of none = none
  subject_of (some value) = read_id value

  abbrev pub account_of : Option ℕ → List Account → Result Refusal Account
  account_of none users = err bad_credentials
  account_of (some id) users = elim (Table.find (λ u. u.id) id users) [
    | none ↦ err bad_credentials
    | some user ↦ ok user
  ]

  abbrev pub user_of : Result TokenError Fields → List Account → Result Refusal Account
  user_of (err e) users = err bad_credentials
  user_of (ok payload) users = account_of (subject_of (get "sub" payload)) users

  unfoldable pub get_current_user : ℕ → Token → List Account → Result Refusal Account
  unfolding decode_token
  get_current_user now token users = user_of (decode_token now token TokenType.access) users

  unfoldable pub require_active_user : ℕ → Token → List Account → Result Refusal Account
  unfolding get_current_user
  require_active_user now token users = do
    user ← get_current_user now token users
    raise_if (not (user.status == UserStatus.active)) not_active
    ok user

  unfoldable pub require_roles : List UserRole → ℕ → Token → List Account → Result Refusal Account
  unfolding require_active_user
  require_roles allowed_roles now token users = do
    user ← require_active_user now token users
    raise_if (not (elem user.role allowed_roles)) insufficient_role
    ok user
