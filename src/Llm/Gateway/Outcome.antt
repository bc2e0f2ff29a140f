-- ===== src/Llm/Gateway/Outcome.antt =====
-- What a call of the gateway promises, by how it ends.
use pack_verse.Base.{
  ◌≡◌, false, refl, sym, String, true, Option, none, some, List, [], ◌∷◌, Result, ok, err, inl, inr,
  Option-cases, Bool-cases, elem, string_eq, ◌⊎◌,
}
use pack_verse.Base.Dict.{lookup}
use pack_verse.Errors.{Exn, llm, LlmError, llm_provider_not_configured, llm_structured_output}
use mathlib.Core.Path.{subst}
use pack_verse.Llm.Models.{
  LlmRequest, LlmResponse, ResponseFormat, Provider, ProviderHealth, ProviderHealthStatus,
}
use pack_verse.Llm.Routing.{
  LlmSettings, check_allowed, resolve_provider_name, resolve_model, estimate_cost_usd,
}
use pack_verse.Llm.Retry.{retry_async}
use pack_verse.Llm.Gateway.{
  Libraries, Gateway, matches_schema, generate, health_reports, health_check, report, health_of,
}

abbrev pub IsAllowed : LlmSettings → String → Type 0
IsAllowed settings name = elem name settings.llm_allowed_providers_list ≡ true

-- The name that a request means: its own, or else the default.
abbrev pub Meant : LlmSettings → Option String → String → Type 0
Meant settings (some explicit) name = explicit ≡ name
Meant settings none name = settings.llm_default_provider ≡ some name

abbrev pub Chosen : LlmSettings → Option String → String → Type 0
Chosen settings explicit name = Meant settings explicit name × IsAllowed settings name

-- The name that is meant is not allowed, or there is none.
abbrev pub IsNotChosen : LlmSettings → Option String → String → Type 0
IsNotChosen settings explicit name =
    (Meant settings explicit name × (elem name settings.llm_allowed_providers_list ≡ false))
    ⊎ ((explicit ≡ none) × (settings.llm_default_provider ≡ none))

abbrev pub Routed : LlmSettings → Option String → Result LlmError String → Type 0
Routed settings explicit (ok name) = Chosen settings explicit name
Routed settings explicit (err e) =
    (name : String) × (e ≡ llm_provider_not_configured name) × IsNotChosen settings explicit name

check_allowed-Routed :
    (settings : LlmSettings) (explicit : Option String) (name : String)
    → Meant settings explicit name
    → Routed settings explicit (check_allowed settings name)
check_allowed-Routed settings explicit name meant =
    elim (Bool-cases (elem name settings.llm_allowed_providers_list)) [
      | inl h ↦ rw h (meant, h)
      | inr h ↦ rw h (name, refl, inl (meant, h))
    ]

-- Routing is to the request's own provider, or else to the default one, if that is allowed; or the
-- error is LLMProviderNotConfigured.
pub resolve_provider_name-Routed :
    (explicit : Option String) (settings : LlmSettings)
    → Routed settings explicit (resolve_provider_name explicit settings)
unfolding resolve_provider_name
resolve_provider_name-Routed (some name) settings =
    check_allowed-Routed settings (some name) name refl
resolve_provider_name-Routed none settings = elim (Option-cases settings.llm_default_provider) [
  | inl n ↦
      subst
        (λ default. Routed settings none (elim default [
          | some d ↦ check_allowed settings d
          | none ↦ err (llm_provider_not_configured "none")
        ]))
        (sym n) ("none", refl, inr (refl, n))
  | inr (name, h) ↦
      subst
        (λ default. Routed settings none (elim default [
          | some d ↦ check_allowed settings d
          | none ↦ err (llm_provider_not_configured "none")
        ]))
        (sym h) (check_allowed-Routed settings none name h)
]

module _ {S Vector : Type 0} (libraries : Libraries S) (gateway : Gateway S Vector) where
  open libraries use {waiting, loads, decimal, text}
  open gateway use {providers, settings}

  -- The text of an answer to a request for structured output matches the schema.
  abbrev pub Matches : String → Option ResponseFormat → Type 0
  Matches content none = Unit
  Matches content (some format) =
      matches_schema libraries gateway (loads content) format.json_schema ≡ true

  abbrev pub Mismatches : String → Option ResponseFormat → Type 0
  Mismatches content none = ⊥
  Mismatches content (some format) =
      matches_schema libraries gateway (loads content) format.json_schema ≡ false

  -- No provider can be chosen under the name: it is not allowed, or has no provider, or it says that
  -- there is no default.
  abbrev pub IsUnserved : LlmSettings → Option String → String → Type 0
  IsUnserved settings' explicit name =
      IsNotChosen settings' explicit name
      ⊎ (Chosen settings' explicit name × (lookup name providers ≡ none))

  -- The request that goes to a provider.
  abbrev pub sent : LlmRequest → String → LlmRequest
  sent request name = record request {
    provider = some name;
    model = resolve_model name request.model settings;
  }

  -- What the provider of a name gives, with retries.
  abbrev pub Replied : LlmRequest → String → S → Result Exn LlmResponse → S → Type 0
  Replied request name s reply t =
      (provider : Provider S Vector) × (lookup name providers ≡ some provider)
      × (retry_async waiting gateway.retry_base_delay settings.llm_max_retries
            (provider.generate (sent request name)) s
          ≡ (reply, t))

  -- What a request ends in. `s` is the state of the world outside before the call. A call that raises
  -- has found no allowed name, or no provider of the name; or the provider's error is passed on, or
  -- its content does not match.
  abbrev pub Answered : LlmRequest → S → Result Exn LlmResponse × S → Type 0
  Answered request s (ok response, t) =
      (name : String) × (Chosen settings request.provider name)
      × (raw : LlmResponse) × Replied request name s (ok raw) t
      × Matches raw.content request.response_format
      × (response ≡ record raw {
        estimated_cost_usd =
            estimate_cost_usd decimal settings name (resolve_model name request.model settings)
              raw.usage.input_tokens raw.usage.output_tokens;
      })
  Answered request s (err e, t) =
      ((name : String) × (e ≡ llm (llm_provider_not_configured name))
        × IsUnserved settings request.provider name
        × (t ≡ s))
      ⊎ ((name : String) × (Chosen settings request.provider name)
          × (Replied request name s (err e) t
              ⊎ ((raw : LlmResponse) × Replied request name s (ok raw) t
                  × (e ≡ llm llm_structured_output)
                  × Mismatches raw.content request.response_format)))

  -- The report on a name, and the state after it: a name without a provider is not configured, a
  -- provider whose check raises is unavailable with the exception's text, and else the report is the
  -- provider's own.
  abbrev pub IsReport : String → ProviderHealth → S → S → Type 0
  IsReport name health s t =
      ((lookup name providers ≡ none)
        × (health.provider ≡ name)
        × (health.status ≡ ProviderHealthStatus.not_configured)
        × (t ≡ s))
      ⊎ ((provider : Provider S Vector) × (lookup name providers ≡ some provider)
          × (((e : Exn) × (provider.health_check s ≡ (err e, t))
                × (health.provider ≡ name)
                × (health.status ≡ ProviderHealthStatus.unavailable)
                × (health.detail ≡ some (text e)))
              ⊎ (provider.health_check s ≡ (ok health, t))))

  -- One report per name, in order.
  abbrev pub AreReports : List String → List ProviderHealth → S → Type 0
  AreReports [] [] s = Unit
  AreReports [] (h ∷ hs) s = ⊥
  AreReports (name ∷ names) [] s = ⊥
  AreReports (name ∷ names) (h ∷ hs) s = (t : S) × IsReport name h s t × AreReports names hs t

  report-IsReport :
      (name : String) (s : S) (provider : Provider S Vector) (r : Result Exn ProviderHealth) (t : S)
      → lookup name providers ≡ some provider
      → provider.health_check s ≡ (r, t)
      → IsReport name (report libraries gateway name r) s t
  report-IsReport name s provider (ok health) t there asked = inr (provider, there, inr asked)
  report-IsReport name s provider (err e) t there asked =
      inr (provider, there, inl (e, asked, refl, refl, refl))

  health_of-IsReport :
      (name : String) (s : S) (o : Option (Provider S Vector))
      → lookup name providers ≡ o
      → let (health, t) = health_of libraries gateway name o s in IsReport name health s t
  health_of-IsReport name s none h = inl (h, refl, refl, refl)
  health_of-IsReport name s (some provider) h =
      report-IsReport name s provider (provider.health_check s).0 (provider.health_check s).1 h refl

  health_reports-AreReports :
      (names : List String) (s : S)
      → AreReports names (health_reports libraries gateway names s).0 s
  unfolding health_reports
  health_reports-AreReports [] s = tt
  health_reports-AreReports (name ∷ names) s =
      let t = (health_of libraries gateway name (lookup name providers) s).1 in
      (t, health_of-IsReport name s (lookup name providers) refl, health_reports-AreReports names t)

  -- the names that a health check reports on
  abbrev pub checked_names : Option String → List String
  checked_names none = settings.llm_allowed_providers_list
  checked_names (some name) = name ∷ []

  -- The health check always reports, once for each allowed provider or for the one that is asked for:
  -- one that is not configured as such, one whose check raises as unavailable, and any other with its
  -- own report.
  pub health_check-AreReports :
      (asked : Option String) (s : S)
      → AreReports (checked_names asked) (health_check libraries gateway asked s).0 s
  unfolding health_check
  health_check-AreReports none s = health_reports-AreReports settings.llm_allowed_providers_list s
  health_check-AreReports (some name) s = health_reports-AreReports (name ∷ []) s
