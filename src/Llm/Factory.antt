-- ===== src/Llm/Factory.antt =====
-- backend/app/llm/factory.py: which providers there are. A provider is the adapter with what it is
-- constructed from.
pub mod Registered
use pack_verse.Base.{
  ℕ, String, Bool, true, false, Option, none, some, List, [], ◌∷◌, Result, ok, err, if◌then◌else◌,
  ◌==◌, string_eq,
}
use pack_verse.Base.Dict.{given}
use pack_verse.Errors.{LlmError, llm_provider_not_configured}

pub record ProviderSettings : Type 0 where
  pub llm_allowed_providers_list : List String
  pub anthropic_api_key : Option String
  pub anthropic_base_url : String
  pub openai_api_key : Option String
  pub openai_base_url : String
  pub openai_organization : Option String
  pub openai_project : Option String
  pub llm_timeout_seconds : ℕ

pub data Adapter : Type 0 where
  fake_provider : Adapter
  anthropic_provider : String → String → ℕ → Adapter
  open_ai_provider : String → String → Option String → Option String → ℕ → Adapter

abbrev pub build_anthropic : ProviderSettings → Option String → Result LlmError Adapter
build_anthropic settings none = err (llm_provider_not_configured "anthropic")
build_anthropic settings (some key) =
    ok (anthropic_provider key settings.anthropic_base_url settings.llm_timeout_seconds)

abbrev pub build_open_ai : ProviderSettings → Option String → Result LlmError Adapter
build_open_ai settings none = err (llm_provider_not_configured "openai")
build_open_ai settings (some key) = ok (
    open_ai_provider key settings.openai_base_url settings.openai_organization
      settings.openai_project settings.llm_timeout_seconds)

unfoldable pub build_provider : String → ProviderSettings → Result LlmError Adapter
build_provider name settings =
    if name == "fake"
    then ok fake_provider
    else if name == "anthropic"
    then build_anthropic settings (given settings.anthropic_api_key)
    else if name == "openai"
    then build_open_ai settings (given settings.openai_api_key)
    else err (llm_provider_not_configured name)

-- `registry[name] = value`
abbrev pub set {ℓ} : {A : Type ℓ} → String → A → List (String × A) → List (String × A)
set name value [] = (name, value) ∷ []
set name value ((k, v) ∷ items) =
    if k == name then (k, value) ∷ items else (k, v) ∷ set name value items

abbrev pub register_built :
    String → Result LlmError Adapter → List (String × Adapter) → List (String × Adapter)
register_built name (ok adapter) registry = set name adapter registry
register_built name (err e) registry = registry

abbrev pub register :
    ProviderSettings → List String → List (String × Adapter) → List (String × Adapter)
register settings [] registry = registry
register settings (name ∷ names) registry =
    register settings names (register_built name (build_provider name settings) registry)

unfoldable pub get_provider_registry : ProviderSettings → List (String × Adapter)
unfolding build_provider
get_provider_registry settings = register settings settings.llm_allowed_providers_list []
