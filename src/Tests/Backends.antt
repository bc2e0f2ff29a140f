-- ===== src/Tests/Backends.antt =====
-- The local storage backend below /data, and the sessions of a sample user.
use pack_verse.Base.Int.{pos}
use pack_verse.Base.{
  leb, ltb, is_some, ◌&&◌, ℕ, ◌≡◌, refl, String, Bool, false, Option, none, some, List, [], ◌∷◌,
  err, if◌then◌else◌, ◌==◌, string_eq, arith, Ensures,
}
use pack_verse.Json.{Value, str, null, int, get, Fields}
use pack_verse.Enums.{UserRole}
use pack_verse.Services.Filename.{chars}
use pack_verse.Storage.Local.{FileSystem, Faults, read_file, FilePath, resolve, store_sync}
use pack_verse.Storage.Local.Contained.{Within, resolve-Within}
use pack_verse.Api.Auth.{Tokens, TokenType, bad_credentials, create_token, require_roles}
use pack_verse.Api.Auth.Session.{Decodes, admitted, require_roles-create_token}
use pack_verse.Tests.Rows.{sample_account}

abbrev data_root : FilePath
data_root = chars "data" ∷ []

abbrev same : FilePath → FilePath
same path = path

abbrev never : FilePath → FileSystem → Bool
never path fs = false

abbrev data_tmp : FilePath
data_tmp = chars "data" ∷ chars ".tmp-1" ∷ []

-- the one temporary path, unless it is taken
abbrev unless_taken : Option (List ℕ) → Option FilePath
unless_taken none = some data_tmp
unless_taken (some content) = none

abbrev no_faults : Faults
no_faults = record {
  mkdir_fails = never;
  mkstemp = λ path fs. unless_taken (read_file data_tmp fs.files);
  write_fails = never;
  replace_fails = never;
  read_fails = never;
  unlink_fails = never;
}

abbrev digest : List ℕ → String
digest content = "sum"

resolve-Within_example :
    Ensures (Within data_root) (resolve data_root same no_faults digest "products/a.txt")
resolve-Within_example = resolve-Within data_root same no_faults digest "products/a.txt"

traversal_refused :
    (store_sync data_root same no_faults digest "a/../../b"
      (1 ∷ [])
      "text/plain"
      (record { files = [] })).1
    ≡ record { files = [] }
unfolding resolve store_sync
traversal_refused = refl

abbrev read_one : Value → Option ℕ
read_one (str text) = if text == "1" then some 1 else none
read_one null = none
read_one value = none

-- the claims of a token, if they are complete and their time has come and not passed
abbrev in_time : ℕ → Option Value → Option Value → Bool
in_time at (some (int (pos issued))) (some (int (pos expires))) = leb issued at && ltb at expires
in_time at issued expires = false

abbrev decode_in_time : ℕ → Fields → Option Fields
decode_in_time at payload =
    if is_some (get "sub" payload)
      && (is_some (get "jti" payload) && in_time at (get "iat" payload) (get "exp" payload))
    then some payload
    else none

abbrev plain_tokens : Tokens
plain_tokens = record {
  Token = Fields;
  encode = λ payload. payload;
  decode = decode_in_time;
  str_id = λ id. "1";
  read_id = read_one;
  role_name = λ role. "viewer";
}

plain_decodes : Decodes plain_tokens
plain_decodes subject role token_type issued expires_delta jti at after before = ground arith

require_roles-create_token_example :
    (require_roles plain_tokens
        (UserRole.viewer ∷ [])
        100
        (create_token plain_tokens 1 UserRole.viewer TokenType.access 90 15 3)
        (sample_account ∷ [])
      ≡ admitted (UserRole.viewer ∷ []) sample_account)
    × (require_roles plain_tokens
          (UserRole.viewer ∷ [])
          100
          (create_token plain_tokens 1 UserRole.viewer TokenType.refresh 90 15 3)
          (sample_account ∷ [])
        ≡ err bad_credentials)
require_roles-create_token_example =
    require_roles-create_token plain_tokens plain_decodes (sample_account ∷ []) sample_account refl
      refl 90 15 100 3 (omega arith) (omega arith) (UserRole.viewer ∷ [])
