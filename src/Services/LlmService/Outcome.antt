-- ===== src/Services/LlmService/Outcome.antt =====
-- The audit rows of generate_and_persist and embed_and_persist, and who may read them.
use pack_verse.Base.{
  ℕ, ◌≡◌, refl, sym, ap, ◌∙◌, String, false, Option, none, some, Result, ok, err, arith, inl, inr,
  ◌↔◌, ◌⊎◌, Bool-cases,
}
use pack_verse.Base.Table.{find}
use pack_verse.Base.Dict.{or_else}
use pack_verse.Enums.{admin, user_role_eq}
use pack_verse.Runtime.Service.{User, hidden_from}
use pack_verse.Errors.{Exn, LlmError, domain, llm_request_not_found}
use pack_verse.Effects.{continue, pure, or_raise, raise_when, ◌>>=◌, ◌>>◌}
use pack_verse.Llm.Models.{ResponseFormat}
use pack_verse.Llm.Schemas.{GenerateRequest, GenerateResponse}
use pack_verse.Llm.Routing.{LlmSettings}
use pack_verse.Llm.Gateway.{Libraries, Gateway, generate}
use pack_verse.Llm.Payload.{resolve_generate, to_llm_request, to_generate_response}
use pack_verse.Services.Row.{LlmRequestRecord}
use pack_verse.Services.RequestRow.{Measured, new_record, measured_answer}
use pack_verse.Services.Store.{Store}
use pack_verse.Services.LlmService.{generate_resolved, generate_and_persist, get_request}
use pack_verse.Services.LlmService.Audit.{Requests, Audited, audited-Audited, refuse-Audited}

-- what the bodies of the responses say of the usage
abbrev pub measured_generate : GenerateResponse → Measured
measured_generate response = record {
  usage = record { input_tokens = response.input_tokens; output_tokens = response.output_tokens };
  estimated_cost_usd = response.estimated_cost_usd;
  latency = response.latency;
  metadata = response.metadata;
}

module _ {S V A B : Type 0} where
  -- A response that is made of the gateway's says of the usage what that one says.
  responded :
      (m : A → Measured) (m' : B → Measured) (f : A → B) (id u : ℕ) (before : Requests)
      (r : Result Exn A) (t : Store S V)
      → ((a : A) → m' (f a) ≡ m a)
      → Audited m id u before r t.llm_requests
      → let (r', t') = continue r (λ a. pure (f a)) t in Audited m' id u before r' t'.llm_requests
  responded m m' f id u before (ok a) t same h = rw (same a) h
  responded m m' f id u before (err e) t same h = h

module _ {S V : Type 0} (time new_id : ℕ → ℕ) (libraries : Libraries S) (gateway : Gateway S V)
    (settings : LlmSettings) where
  generate_resolved-Audited :
      (id : ℕ) (payload : GenerateRequest) (user_id : ℕ)
      (r : Result LlmError (String × String × Option ResponseFormat)) (s : Store S V)
      → find (λ x. x.id) id s.llm_requests ≡ none
      → let (r', t) =
          generate_resolved time new_id libraries gateway settings id payload user_id r s in
        Audited measured_generate id user_id s.llm_requests r' t.llm_requests
  unfolding generate_resolved
  generate_resolved-Audited id payload user_id (err e) s missing =
      refuse-Audited time new_id measured_generate id user_id payload.provider payload.model
        payload.metadata e s missing
  generate_resolved-Audited id payload user_id (ok resolved) s missing =
      responded measured_answer measured_generate to_generate_response id user_id s.llm_requests _ _
        (λ a. refl)
        (audited-Audited time new_id measured_answer
          (new_record id user_id resolved.0 resolved.1 payload.metadata) user_id
          (generate libraries gateway (to_llm_request settings id payload resolved)) s refl refl
          missing)

  -- A call with an id that no row has leaves one row of it, the user's: SUCCEEDED with the tokens and
  -- the cost of the response if the call returns, FAILED with the class of the error if it raises an
  -- LLMError, PENDING if it raises another exception. The other rows are as they were.
  pub generate_and_persist-Audited :
      (payload : GenerateRequest) (user_id : ℕ) (s : Store S V)
      → find (λ x. x.id) (new_id s.ids_made) s.llm_requests ≡ none
      → let (r, t) =
          generate_and_persist time new_id libraries gateway settings payload user_id s in
        Audited measured_generate (new_id s.ids_made) user_id s.llm_requests r t.llm_requests
  unfolding generate_and_persist
  generate_and_persist-Audited payload user_id s missing =
      generate_resolved-Audited (new_id s.ids_made) payload user_id
        (resolve_generate settings payload) _ missing

hidden_from_iff :
    (user : User) (owner : Option ℕ)
    → (hidden_from user owner ≡ false) ↔ ((user.role ≡ admin) ⊎ (owner ≡ some user.id))
hidden_from_iff user none = ground (arith, user_role_eq.same_iff user.role admin)
hidden_from_iff user (some owner) = ground (arith, user_role_eq.same_iff user.role admin)

-- the answer for a row that was looked up
answered :
    {S V : Type 0} (request_id : ℕ) (user : User) (s : Store S V) (row : LlmRequestRecord)
    (found : Option LlmRequestRecord)
    → ((or_raise found (domain (llm_request_not_found request_id)) >>= λ r.
            raise_when (hidden_from user r.user_id) (domain (llm_request_not_found request_id))
            >> pure r)
          s
        ≡ (ok row, s))
      ↔ ((found ≡ some row) × (hidden_from user row.user_id ≡ false))
answered request_id user s row none = ground arith
answered request_id user s row (some r) = elim (Bool-cases (hidden_from user r.user_id)) [
  | inl h ↦ rw h (
    λ e. let q = ap (λ p. p.0) e in absurd (ground arith),
    λ (q, shown).
        let same = ap (λ o. hidden_from user (or_else o row).user_id) q in absurd (ground arith),
  )
  | inr h ↦ rw h (
    λ e.
        let q : ok r ≡ ok row = ap (λ p. p.0) e in
        let q' : r ≡ row = ground arith in
        (ap some q', ap (λ x. hidden_from user x.user_id) (sym q') ∙ h),
    λ (q, shown). ap (λ o. (ok (or_else o row), s)) q,
  )
]

-- A user reads the row of a request exactly if it is there and the user's own, or the user is an
-- administrator.
pub get_request_iff :
    {S V : Type 0} (request_id : ℕ) (user : User) (s : Store S V) (row : LlmRequestRecord)
    → (get_request request_id user s ≡ (ok row, s)) ↔ (
        (find (λ r. r.id) request_id s.llm_requests ≡ some row)
        × ((user.role ≡ admin) ⊎ (row.user_id ≡ some user.id)))
unfolding get_request
get_request_iff request_id user s row =
    let read = answered request_id user s row (find (λ r. r.id) request_id s.llm_requests) in
    let owner = hidden_from_iff user row.user_id in
    (
      λ e. let (there, shown) = read.0 e in (there, owner.0 shown),
      λ (there, whose). read.1 (there, owner.1 whose),
    )
