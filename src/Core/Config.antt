-- ===== src/Core/Config.antt =====
-- The validators of `Settings` in backend/app/core/config.py, on the settings that they read. Each is
-- false where the code raises ValueError, which pydantic collects. `str.strip`, `str.splitlines`,
-- `json.loads` and what `secrets.token_urlsafe` gives are parameters; the validator of
-- `mcp_servers_json` is left out.
pub mod Ready
use pack_verse.Base.{
  ℕ, String, Bool, true, false, not, ◌&&◌, ◌||◌, Option, none, some, List, [], ◌∷◌, if◌then◌else◌,
  ◌==◌, string_eq, ℕ_eq, elem, map, keep, length, ltb, leb,
}
use Prim.Native.Char.{Char, code}
use Prim.Native.String.{◌++◌}
use pack_verse.Base.Int.{ℤ, pos, negsuc}
use pack_verse.Base.Dict.{given}
use pack_verse.Json.{Value, obj}
use pack_verse.Services.Filename.{chars, text_of, is_char}

pub record Settings : Type 0 where
  pub environment : String
  pub storage_backend : String
  pub s3_endpoint_url : Option String
  pub s3_bucket : Option String
  pub s3_region : Option String
  pub s3_access_key_id : Option String
  pub s3_secret_access_key : Option String
  pub jwt_secret_key : Option String
  pub llm_default_provider : Option String
  pub llm_allowed_providers : String
  pub llm_model_aliases : String
  pub llm_pricing_json : String
  pub runtime_max_tool_iterations : ℤ

abbrev pub known_llm_providers : List String
known_llm_providers = "anthropic" ∷ "openai" ∷ "fake" ∷ []

abbrev pub min_jwt_secret_length : ℕ
min_jwt_secret_length = 32

abbrev pub snoc : List Char → Char → List Char
snoc [] c = c ∷ []
snoc (d ∷ ds) c = d ∷ snoc ds c

-- `text.split(",")`; `current` is the part that is being read
abbrev pub split_commas : List Char → List Char → List (List Char)
split_commas current [] = current ∷ []
split_commas current (c ∷ cs) =
    if is_char c "," then current ∷ split_commas [] cs else split_commas (snoc current c) cs

abbrev pub all_known : List String → Bool
all_known [] = true
all_known (name ∷ names) = elem name known_llm_providers && all_known names

abbrev pub any_line : (String → Bool) → List String → Bool
any_line p [] = false
any_line p (x ∷ xs) = p x || any_line p xs

abbrev pub starts_with : List Char → List Char → Bool
starts_with [] text = true
starts_with (c ∷ cs) [] = false
starts_with (c ∷ cs) (d ∷ ds) = is_char c d && starts_with cs ds

-- `content and not content.endswith("\n")`
abbrev pub lacks_newline : List Char → Bool
lacks_newline [] = false
lacks_newline (c ∷ []) = not (is_char c "\n")
lacks_newline (c ∷ d ∷ cs) = lacks_newline (d ∷ cs)

abbrev pub validate_environment : Settings → Bool
validate_environment s = elem s.environment ("development" ∷ "staging" ∷ "production" ∷ "test" ∷ [])

abbrev pub validate_storage_backend : Settings → Bool
validate_storage_backend s = elem s.storage_backend ("local" ∷ "s3" ∷ [])

abbrev pub all_given : List (Option String) → Bool
all_given [] = true
all_given (v ∷ vs) = elim (given v) [ none ↦ false | some text ↦ all_given vs ]

abbrev pub validate_s3_settings_when_selected : Settings → Bool
validate_s3_settings_when_selected s =
    not (s.storage_backend == "s3")
    || all_given (
        s.s3_endpoint_url ∷ s.s3_bucket ∷ s.s3_region ∷ s.s3_access_key_id ∷ s.s3_secret_access_key
        ∷ [])

-- `names` is the list of `llm_allowed_providers`
abbrev pub validate_llm_allowed_providers : List String → Bool
validate_llm_allowed_providers [] = false
validate_llm_allowed_providers (name ∷ names) = all_known (name ∷ names)

abbrev pub is_none_or : (String → Bool) → Option String → Bool
is_none_or p none = true
is_none_or p (some name) = p name

abbrev pub validate_llm_default_provider : Settings → Bool
validate_llm_default_provider s =
    is_none_or (λ name. elem name known_llm_providers) s.llm_default_provider

abbrev pub validate_llm_default_provider_is_allowed : List String → Settings → Bool
validate_llm_default_provider_is_allowed names s =
    is_none_or (λ name. elem name names) s.llm_default_provider

abbrev pub validate_runtime_max_tool_iterations : ℤ → Bool
validate_runtime_max_tool_iterations (pos n) = leb 1 n
validate_runtime_max_tool_iterations (negsuc n) = false

abbrev pub all_true : List Bool → Bool
all_true [] = true
all_true (b ∷ bs) = b && all_true bs

abbrev pub is_object : Option Value → Bool
is_object (some (obj fields)) = true
is_object _ = false

module _ (strip : String → String) (loads : String → Option Value) (generated : String) where
  -- of the text of `llm_allowed_providers`
  unfoldable pub llm_allowed_providers_list : String → List String
  llm_allowed_providers_list v =
      keep (λ name. not (name == ""))
        (map (λ part. strip (text_of part)) (split_commas [] (chars v)))

  abbrev pub validate_llm_json_config : String → Bool
  validate_llm_json_config text = is_object (loads text)

  abbrev pub secret_of : Option String → Settings → Option Settings
  secret_of (some key) s = if ltb (length (chars key)) min_jwt_secret_length then none else some s
  secret_of none s =
      if s.environment == "development"
      then some (record s { jwt_secret_key = some generated })
      else none

  abbrev pub resolve_jwt_secret_key : Settings → Option Settings
  resolve_jwt_secret_key s = secret_of (given s.jwt_secret_key) s

  abbrev pub passes_validators : List String → Settings → Bool
  passes_validators names s = all_true (
      validate_environment s
      ∷ validate_storage_backend s
      ∷ validate_llm_default_provider s
      ∷ validate_llm_allowed_providers names
      ∷ validate_llm_json_config s.llm_model_aliases
      ∷ validate_llm_json_config s.llm_pricing_json
      ∷ validate_runtime_max_tool_iterations s.runtime_max_tool_iterations
      ∷ validate_s3_settings_when_selected s
      ∷ validate_llm_default_provider_is_allowed names s
      ∷ [])

  -- the settings, if the process starts
  unfoldable pub get_settings : Settings → Option Settings
  unfolding llm_allowed_providers_list
  get_settings s =
      if passes_validators (llm_allowed_providers_list s.llm_allowed_providers) s
      then resolve_jwt_secret_key s
      else none

module _ (strip : String → String) (splitlines : String → List String) where
  abbrev pub defines_secret : String → Bool
  defines_secret line = starts_with (chars "JWT_SECRET_KEY=") (chars (strip line))

  -- Whether it wrote, and the file afterwards; None is a file that is not there.
  unfoldable pub persist_dev_secret_to_env_file : String → Option String → Bool × Option String
  persist_dev_secret_to_env_file secret none = (false, none)
  persist_dev_secret_to_env_file secret (some content) =
      if any_line defines_secret (splitlines content) then (false, some content) else (
        true,
        some (
            content
            ++ ((if lacks_newline (chars content) then "\n" else "")
                ++ ("JWT_SECRET_KEY=" ++ (secret ++ "\n")))),
      )
