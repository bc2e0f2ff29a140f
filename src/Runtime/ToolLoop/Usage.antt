-- ===== src/Runtime/ToolLoop/Usage.antt =====
-- The usage that the tool loop of runtime/executor.py accumulates, and what is persisted of it.
use pack_verse.Base.{ℕ, ◌+◌, ◌≡◌, Option, some, List, [], ◌∷◌, arith, length}
use pack_verse.Runtime.Row.{AgentRun}
use pack_verse.Runtime.Prompt.{GenerateResponse}
use pack_verse.Runtime.ToolLoop.{
  ToolLoopUsage, new_usage, record_call, add_cost, persist_tool_loop_usage,
}

unfoldable pub record_calls : List GenerateResponse → ToolLoopUsage → ToolLoopUsage
record_calls [] u = u
record_calls (r ∷ rs) u = record_calls rs (record_call r u)

abbrev pub sum_of : (GenerateResponse → ℕ) → List GenerateResponse → ℕ
sum_of f [] = 0
sum_of f (r ∷ rs) = f r + sum_of f rs

-- The sum of the costs, unknown if any of them is.
abbrev pub known_total : List GenerateResponse → Option ℕ
known_total [] = some 0
known_total (r ∷ rs) = add_cost r.estimated_cost_usd (known_total rs)

record_calls-tokens :
    (rs : List GenerateResponse) (u : ToolLoopUsage)
    → ((record_calls rs u).calls_made ≡ u.calls_made + length rs)
      × ((record_calls rs u).total_input_tokens
          ≡ u.total_input_tokens + sum_of (λ r. r.input_tokens) rs)
      × ((record_calls rs u).total_output_tokens
          ≡ u.total_output_tokens + sum_of (λ r. r.output_tokens) rs)
unfolding record_calls record_call
record_calls-tokens [] u = omega arith
record_calls-tokens (r ∷ rs) u = omega (arith, record_calls-tokens rs (record_call r u))

record_calls-cost :
    (rs : List GenerateResponse) (u : ToolLoopUsage)
    → (record_calls rs u).total_cost_usd ≡ add_cost u.total_cost_usd (known_total rs)
unfolding record_calls record_call
record_calls-cost [] u = ground arith
record_calls-cost (r ∷ rs) u = ground (arith, record_calls-cost rs (record_call r u))

-- After the calls `r ∷ rs` of one run, the row that is persisted has their token totals and the sum of
-- their costs, or no cost if the cost of any of them is unknown; with no call it is unchanged.
pub persist-record_calls :
    (run : AgentRun) (r : GenerateResponse) (rs : List GenerateResponse)
    → let row = persist_tool_loop_usage run (record_calls (r ∷ rs) new_usage) in
      (row.input_tokens ≡ some (sum_of (λ x. x.input_tokens) (r ∷ rs)))
      × (row.output_tokens ≡ some (sum_of (λ x. x.output_tokens) (r ∷ rs)))
      × (row.total_tokens
          ≡ some (sum_of (λ x. x.input_tokens) (r ∷ rs) + sum_of (λ x. x.output_tokens) (r ∷ rs)))
      × (row.estimated_cost_usd ≡ known_total (r ∷ rs))
      × (persist_tool_loop_usage run new_usage ≡ run)
unfolding persist_tool_loop_usage new_usage
persist-record_calls run r rs =
    ground (arith, record_calls-tokens (r ∷ rs) new_usage, record_calls-cost (r ∷ rs) new_usage)
