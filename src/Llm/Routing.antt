-- ===== src/Llm/Routing.antt =====
-- backend/app/llm/routing.py and pricing.py, with the settings of core/config.py that they read. A
-- pair of texts of a setting's JSON is an item of a dict. `decimal` reads a price per 1000 tokens in
-- a small unit of money, so that a cost is in thousandths of it.
use pack_verse.Base.{
  ℕ, ◌+◌, ◌*◌, String, not, Option, none, some, List, [], Result, ok, err, ◌>>◌, raise_if,
  if◌then◌else◌, ◌==◌, string_eq, elem,
}
use Prim.Native.String.{◌++◌}
use pack_verse.Base.Int.{ℤ}
use pack_verse.Base.Dict.{lookup, or_else}
use pack_verse.Errors.{LlmError, llm_provider_not_configured}

pub record LlmSettings : Type 0 where
  pub llm_allowed_providers_list : List String
  pub llm_default_provider : Option String
  pub llm_default_model : Option String
  pub anthropic_default_model : Option String
  pub openai_default_model : Option String
  pub llm_model_aliases_map : List (String × List (String × String))
  pub llm_pricing_map : List (String × List (String × String))
  pub llm_max_retries : ℤ
  pub llm_max_output_tokens : ℤ

-- `if name not in allowed: raise …`
abbrev pub check_allowed : LlmSettings → String → Result LlmError String
check_allowed settings name = do
  raise_if (not (elem name settings.llm_allowed_providers_list)) (llm_provider_not_configured name)
  ok name

unfoldable pub resolve_provider_name : Option String → LlmSettings → Result LlmError String
resolve_provider_name (some explicit) settings = check_allowed settings explicit
resolve_provider_name none settings = elim settings.llm_default_provider [
  | some name ↦ check_allowed settings name
  | none ↦ err (llm_provider_not_configured "none")
]

unfoldable pub resolve_model : String → String → LlmSettings → String
resolve_model provider requested settings =
    let aliases = or_else (lookup provider settings.llm_model_aliases_map) [] in
    or_else (lookup requested aliases) requested

-- `model or settings.llm_default_model`
abbrev pub default_or : Option String → LlmSettings → Option String
default_or none settings = settings.llm_default_model
default_or (some model) settings = if model == "" then settings.llm_default_model else some model

unfoldable pub default_model_for : String → LlmSettings → Option String
default_model_for provider settings =
    if provider == "anthropic"
    then default_or settings.anthropic_default_model settings
    else if provider == "openai"
    then default_or settings.openai_default_model settings
    else settings.llm_default_model

abbrev pub price_key : String → String → String
price_key provider model = provider ++ (":" ++ model)

-- `Decimal(entry[key])`, None for a missing key or a malformed number
abbrev pub price : (String → Option ℕ) → String → List (String × String) → Option ℕ
price decimal key entry = elim (lookup key entry) [ none ↦ none | some text ↦ decimal text ]

abbrev pub cost_at : Option ℕ → Option ℕ → ℕ → ℕ → Option ℕ
cost_at (some input_per_1k) (some output_per_1k) input_tokens output_tokens =
    some (input_tokens * input_per_1k + output_tokens * output_per_1k)
cost_at _ _ input_tokens output_tokens = none

unfoldable pub estimate_cost_usd :
    (String → Option ℕ) → LlmSettings → String → String → ℕ → ℕ → Option ℕ
estimate_cost_usd decimal settings provider model input_tokens output_tokens =
    elim (lookup (price_key provider model) settings.llm_pricing_map) [
      | none ↦ none
      | some entry ↦
          cost_at (price decimal "input_per_1k" entry) (price decimal "output_per_1k" entry)
            input_tokens output_tokens
    ]
