-- ===== src/Api/Auth/Session.antt =====
-- A session lasts from the token that a login gives until that expires.
use pack_verse.Base.{
  ℕ, ◌+◌, ◌<◌, ◌≤◌, ◌≡◌, refl, Bool-cases, inl, inr, some, List, Result, ok, err, if◌then◌else◌,
  ◌==◌, string_eq, ℕ_eq, elem,
}
use pack_verse.Base.Table
use pack_verse.Json.{str}
use pack_verse.Enums.{UserRole, UserStatus, user_role_eq, user_status_eq}
use pack_verse.Services.Row.{Account}
use pack_verse.Api.Auth.{
  Tokens, TokenType, Refusal, bad_credentials, not_active, insufficient_role, claims, create_token,
  decode_token, account_of, get_current_user, require_active_user, require_roles,
}

-- Who gets past `require_roles`.
abbrev pub admitted : List UserRole → Account → Result Refusal Account
admitted allowed_roles user =
    if user.status == UserStatus.active
    then (if elem user.role allowed_roles then ok user else err insufficient_role)
    else err not_active

module _ (tokens : Tokens) where
  open tokens use {Token, encode, decode, str_id, read_id}

  -- PyJWT gives back the claims that it signed in `_create_token`, which has all that `require` lists,
  -- from their `iat` on and before their `exp`.
  abbrev pub Decodes : Type 0
  Decodes =
      (subject : ℕ) (role : UserRole) (token_type : TokenType) (issued expires_delta jti at : ℕ)
      → issued ≤ at
      → at < issued + expires_delta
      → decode at (encode (claims tokens subject role token_type issued expires_delta jti))
        ≡ some (claims tokens subject role token_type issued expires_delta jti)

  module _ (decodes : Decodes) (users : List Account) (user : Account)
      (reads_id : read_id (str (str_id user.id)) ≡ some user.id)
      (is_there : Table.find (λ u. u.id) user.id users ≡ some user)
      (now expires_delta later jti : ℕ) (is_after : now ≤ later)
      (is_before : later < now + expires_delta) where
    decode-claims :
        (token_type : TokenType)
        → decode later (create_token tokens user.id user.role token_type now expires_delta jti)
          ≡ some (claims tokens user.id user.role token_type now expires_delta jti)
    unfolding create_token
    decode-claims token_type =
        decodes user.id user.role token_type now expires_delta jti later is_after is_before

    get_current_user-access :
        get_current_user tokens later
          (create_token tokens user.id user.role TokenType.access now expires_delta jti)
          users
        ≡ ok user
    unfolding get_current_user decode_token
    get_current_user-access =
        rw (decode-claims TokenType.access, reads_id, account_of, is_there) refl

    get_current_user-refresh :
        get_current_user tokens later
          (create_token tokens user.id user.role TokenType.refresh now expires_delta jti)
          users
        ≡ err bad_credentials
    unfolding get_current_user decode_token
    get_current_user-refresh = rw (decode-claims TokenType.refresh) refl

    -- If PyJWT gives back the claims that it signed until they expire, and `uuid.UUID` reads the id of
    -- a user that is there as it is printed, then between its issue and its expiry an access token of the user's
    -- admits the user exactly if ACTIVE and of an allowed role, and a refresh token is refused.
    pub require_roles-create_token :
        (allowed_roles : List UserRole)
        → (require_roles tokens allowed_roles later
              (create_token tokens user.id user.role TokenType.access now expires_delta jti)
              users
            ≡ admitted allowed_roles user)
          × (require_roles tokens allowed_roles later
                (create_token tokens user.id user.role TokenType.refresh now expires_delta jti)
                users
              ≡ err bad_credentials)
    unfolding require_roles require_active_user
    require_roles-create_token allowed_roles = (
      rw get_current_user-access (elim (Bool-cases (user.status == UserStatus.active)) [
        | inl a ↦ elim (Bool-cases (elem user.role allowed_roles)) [
          | inl r ↦ rw (a, r) refl
          | inr r ↦ rw (a, r) refl
        ]
        | inr a ↦ rw a refl
      ]),
      rw get_current_user-refresh refl,
    )
