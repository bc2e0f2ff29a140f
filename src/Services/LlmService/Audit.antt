-- ===== src/Services/LlmService/Audit.antt =====
-- The audit row of a call of the gateway.
use pack_verse.Base.{
  ℕ, ◌≡◌, ◌≢◌, refl, ◌∙◌, ap, String, Bool, true, false, Option, none, some, List, [], ◌∷◌, ◌++◌,
  ◌+◌, Result, ok, err, inl, inr, Bool-cases, is_some,
}
use mathlib.Core.Path.{subst}
use pack_verse.Base.Table.{find, save, find-save_self, find-save_ne, find-insert, find-insert_ne}
use pack_verse.Enums.{LlmRequestStatus}
use pack_verse.Errors.{Exn, LlmError, llm, class_name}
use pack_verse.Effects.{Act}
use pack_verse.Services.Row.{LlmRequestRecord}
use pack_verse.Services.RequestRow.{Measured, new_record, failed_record, succeeded_record}
use pack_verse.Services.Store.{Store}
use pack_verse.Services.LlmService.{
  is_llm_error, fail_request, settle, audited, refuse, or_unresolved,
}
use pack_verse.World.{milliseconds}
use pack_verse.Json.{Fields}

abbrev pub Requests : Type 0
Requests = List LlmRequestRecord

-- The row of a call that failed: FAILED with the class of the error, if the error is an LLMError;
-- else the row is still PENDING.
abbrev pub FailedRow : Bool → Exn → LlmRequestRecord → Type 0
FailedRow true e row =
    (row.status ≡ LlmRequestStatus.failed)
    × (row.error_code ≡ some (class_name e))
    × (is_some row.completed_at ≡ true)
FailedRow false e row = row.status ≡ LlmRequestStatus.pending

-- The row of a call that returned: SUCCEEDED with the tokens that were measured.
abbrev pub SucceededRow : Measured → LlmRequestRecord → Type 0
SucceededRow measured row =
    (row.status ≡ LlmRequestStatus.succeeded)
    × (row.input_tokens ≡ some measured.usage.input_tokens)
    × (row.output_tokens ≡ some measured.usage.output_tokens)
    × (row.estimated_cost_usd ≡ measured.estimated_cost_usd)
    × (is_some row.completed_at ≡ true)

abbrev pub AuditedAs : {A : Type 0} → (A → Measured) → Result Exn A → LlmRequestRecord → Type 0
AuditedAs measured (ok a) row = SucceededRow (measured a) row
AuditedAs measured (err e) row = FailedRow (is_llm_error e) e row

-- The table after a call: the row of the call's id, which the user owns, says how the call ended, and
-- no other row is touched.
abbrev pub Audited :
    {A : Type 0} → (A → Measured) → ℕ → ℕ → Requests → Result Exn A → Requests → Type 0
Audited measured id user_id before r after =
    ((row : LlmRequestRecord) × (find (λ x. x.id) id after ≡ some row)
      × (row.user_id ≡ some user_id)
      × AuditedAs measured r row)
    × ((k : ℕ) → k ≢ id → find (λ x. x.id) k after ≡ find (λ x. x.id) k before)

-- The table after a new row and, in its place, its successor.
replaced :
    (before : Requests) (row row' : LlmRequestRecord)
    → row'.id ≡ row.id
    → find (λ x. x.id) row.id before ≡ none
    → (find (λ x. x.id) row.id (save (λ x. x.id) row' (before ++ (row ∷ []))) ≡ some row')
      × ((k : ℕ)
          → k ≢ row.id
          → find (λ x. x.id) k (save (λ x. x.id) row' (before ++ (row ∷ [])))
            ≡ find (λ x. x.id) k before)
replaced before row row' same missing =
    let there : is_some (find (λ x. x.id) row.id (before ++ (row ∷ []))) ≡ true =
      ap is_some (find-insert (λ x. x.id) row before missing) in
    (
      subst
          (λ k.
            is_some (find (λ x. x.id) k (before ++ (row ∷ []))) ≡ true
            → find (λ x. x.id) k (save (λ x. x.id) row' (before ++ (row ∷ []))) ≡ some row')
          same (find-save_self (λ x. x.id) row' (before ++ (row ∷ []))) there,
      λ k differs.
          find-save_ne (λ x. x.id) k row' (before ++ (row ∷ [])) (λ e. differs (e ∙ same))
          ∙ find-insert_ne (λ x. x.id) k row before differs,
    )

module _ {S V : Type 0} (time new_id : ℕ → ℕ) {A : Type 0} (measured : A → Measured) where
  -- The row of a call that ended, in the place of the one that was PENDING.
  settle-Audited :
      (row : LlmRequestRecord) (u started : ℕ) (before : Requests) (r : Result Exn A)
      (s : Store S V)
      → row.status ≡ LlmRequestStatus.pending
      → row.user_id ≡ some u
      → find (λ x. x.id) row.id before ≡ none
      → s.llm_requests ≡ before ++ (row ∷ [])
      → let (r', t) = settle time new_id row started measured r s in
        Audited measured row.id u before r' t.llm_requests
  unfolding settle fail_request
  settle-Audited row u started before (ok a) s pending owned missing e =
      let row' = succeeded_record row (measured a) (time s.clock_reads) in
      let (there, others) = replaced before row row' refl missing in
      rw e ((row', there, owned, (refl, refl, refl, refl, refl)), others)
  settle-Audited row u started before (err x) s pending owned missing e =
      elim (Bool-cases (is_llm_error x)) [
        | inl h ↦
            let started' = milliseconds started (time s.clock_reads) in
            let row' = failed_record row x (some started') (time (s.clock_reads + 1)) in
            let (there, others) = replaced before row row' refl missing in
            rw (h, e) ((row', there, owned, rw h (refl, refl, refl)), others)
        | inr h ↦
            rw (h, e)
              (
                (row, find-insert (λ y. y.id) row before missing, owned, rw h pending),
                λ k differs. find-insert_ne (λ y. y.id) k row before differs,
              )
      ]

  -- The table after a call with its audit row.
  pub audited-Audited :
      (row : LlmRequestRecord) (u : ℕ) (call : Act S A) (s : Store S V)
      → row.status ≡ LlmRequestStatus.pending
      → row.user_id ≡ some u
      → find (λ x. x.id) row.id s.llm_requests ≡ none
      → let (r, t) = audited time new_id row measured call s in
        Audited measured row.id u s.llm_requests r t.llm_requests
  unfolding audited
  audited-Audited row u call s pending owned missing =
      settle-Audited row u (time s.clock_reads) s.llm_requests (call s.outside).0 _ pending owned
        missing refl

  pub refuse-Audited :
      (id user_id : ℕ) (provider : Option String) (model : String) (metadata : Fields)
      (e : LlmError) (s : Store S V)
      → find (λ x. x.id) id s.llm_requests ≡ none
      → let (r, t) = refuse time new_id {A = A} id user_id provider model metadata e s in
        Audited measured id user_id s.llm_requests r t.llm_requests
  unfolding refuse
  refuse-Audited id user_id provider model metadata e s missing =
      let row = new_record id user_id (or_unresolved provider) model metadata in
      let row' = failed_record row (llm e) none (time s.clock_reads) in
      (
        (row', find-insert (λ y. y.id) row' s.llm_requests missing, refl, (refl, refl, refl)),
        λ k differs. find-insert_ne (λ y. y.id) k row' s.llm_requests differs,
      )
