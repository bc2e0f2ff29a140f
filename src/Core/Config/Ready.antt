-- ===== src/Core/Config/Ready.antt =====
-- What the rest of the program may rely on once the settings are accepted.
use pack_verse.Base.{
  ◌≡◌, refl, ◌≤◌, String, Bool, true, Bool-cases, inl, inr, Option, none, some, List, [], ◌∷◌, ok,
  All, ◌==◌, string_eq, elem, arith, length, ltb,
}
use pack_verse.Json.{Value}
use pack_verse.Base.Dict.{given}
use pack_verse.Services.Filename.{chars}
use pack_verse.Llm.Routing.{LlmSettings, resolve_provider_name}
use pack_verse.Core.Config.{
  Settings, all_true, validate_environment, validate_storage_backend, validate_llm_default_provider,
  validate_llm_json_config, validate_runtime_max_tool_iterations,
  validate_s3_settings_when_selected, validate_llm_default_provider_is_allowed, is_none_or,
  known_llm_providers, min_jwt_secret_length, all_known, llm_allowed_providers_list,
  validate_llm_allowed_providers, secret_of, passes_validators, get_settings,
}

abbrev pub Known : String → Type 0
Known name = elem name known_llm_providers ≡ true

all_known-All : (names : List String) → all_known names ≡ true → All Known names
all_known-All [] h = tt
all_known-All (name ∷ names) h = (ground arith, all_known-All names (ground arith))

validate_llm_allowed_providers-Known :
    (names : List String)
    → validate_llm_allowed_providers names ≡ true
    → All Known names × (1 ≤ length names)
validate_llm_allowed_providers-Known [] h = absurd (ground arith)
validate_llm_allowed_providers-Known (name ∷ names) h =
    (all_known-All (name ∷ names) h, omega arith)

-- `rest` has the other settings of the gateway.
abbrev pub gateway_settings : List String → Option String → LlmSettings → LlmSettings
gateway_settings names default rest = record rest {
  llm_allowed_providers_list = names;
  llm_default_provider = default;
}

abbrev pub Served : List String → Option String → LlmSettings → Type 0
Served names none rest = Unit
Served names (some name) rest =
    resolve_provider_name none (gateway_settings names (some name) rest) ≡ ok name

served :
    (names : List String) (default : Option String) (rest : LlmSettings)
    → is_none_or (λ name. elem name names) default ≡ true
    → Served names default rest
unfolding resolve_provider_name
served names none rest h = tt
served names (some name) rest h = rw h refl

eq_of_given : (text : Option String) (key : String) → given text ≡ some key → text ≡ some key
eq_of_given none key h = absurd (ground arith)
eq_of_given (some text) key h = elim (Bool-cases (text == "")) [
  | inl e ↦ absurd (ground arith)
  | inr e ↦ ground (arith, e)
]

all_true-All : (bs : List Bool) → all_true bs ≡ true → All (λ b. b ≡ true) bs
all_true-All [] h = tt
all_true-All (b ∷ bs) h = (ground arith, all_true-All bs (ground arith))

module _ (strip : String → String) (loads : String → Option Value) (generated : String) where
  validators_pass :
      (names : List String) (s : Settings)
      → passes_validators strip loads generated names s ≡ true
      → (validate_llm_allowed_providers names ≡ true)
        × (is_none_or (λ name. elem name names) s.llm_default_provider ≡ true)
  validators_pass names s h =
      let all =
        all_true-All
          (validate_environment s
            ∷ validate_storage_backend s
            ∷ validate_llm_default_provider s
            ∷ validate_llm_allowed_providers names
            ∷ validate_llm_json_config strip loads generated s.llm_model_aliases
            ∷ validate_llm_json_config strip loads generated s.llm_pricing_json
            ∷ validate_runtime_max_tool_iterations s.runtime_max_tool_iterations
            ∷ validate_s3_settings_when_selected s
            ∷ validate_llm_default_provider_is_allowed names s
            ∷ [])
          h in
      (all.1.1.1.0, all.1.1.1.1.1.1.1.1.0)

  -- The allowed providers are known and at least one, a default is served, and there is a secret that
  -- is long enough.
  abbrev pub Ready : LlmSettings → Option Settings → Type 0
  Ready rest none = Unit
  Ready rest (some s) =
      let names = llm_allowed_providers_list strip loads generated s.llm_allowed_providers in
      All Known names
      × (1 ≤ length names)
      × Served names s.llm_default_provider rest
      × (key : String) × (s.jwt_secret_key ≡ some key)
      × (min_jwt_secret_length ≤ length (chars key))

  module _ (is_long : min_jwt_secret_length ≤ length (chars generated)) (rest : LlmSettings) where
    given-Ready :
        (key : Option String) (s : Settings)
        → given s.jwt_secret_key ≡ key
        → passes_validators strip loads generated
            (llm_allowed_providers_list strip loads generated s.llm_allowed_providers)
            s
          ≡ true
        → Ready rest (secret_of strip loads generated key s)
    given-Ready none s g h =
        let names = llm_allowed_providers_list strip loads generated s.llm_allowed_providers in
        let (some_known, default_allowed) = validators_pass names s h in
        let (known, there) = validate_llm_allowed_providers-Known names some_known in
        elim (Bool-cases (s.environment == "development")) [
          | inl d ↦ rw d (
            known,
            there,
            served names s.llm_default_provider rest default_allowed,
            generated,
            refl,
            is_long,
          )
          | inr d ↦ rw d tt
        ]
    given-Ready (some key) s g h =
        let names = llm_allowed_providers_list strip loads generated s.llm_allowed_providers in
        let (some_known, default_allowed) = validators_pass names s h in
        let (known, there) = validate_llm_allowed_providers-Known names some_known in
        elim (Bool-cases (ltb (length (chars key)) min_jwt_secret_length)) [
          | inl d ↦ rw d tt
          | inr d ↦ rw d (
            known,
            there,
            served names s.llm_default_provider rest default_allowed,
            key,
            eq_of_given s.jwt_secret_key key g,
            ground arith,
          )
        ]

    -- If the generated secret is long enough and the settings are accepted, then the allowed providers
    -- are known ones and at least one, the gateway resolves a request without a provider to the
    -- default if there is one, and there is a secret of at least 32 characters.
    pub get_settings-Ready : (s : Settings) → Ready rest (get_settings strip loads generated s)
    unfolding get_settings
    get_settings-Ready s =
        let names = llm_allowed_providers_list strip loads generated s.llm_allowed_providers in
        elim (Bool-cases (passes_validators strip loads generated names s)) [
          | inl h ↦ rw h (given-Ready (given s.jwt_secret_key) s refl h)
          | inr h ↦ rw h tt
        ]
