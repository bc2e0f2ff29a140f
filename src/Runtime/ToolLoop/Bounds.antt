-- ===== src/Runtime/ToolLoop/Bounds.antt =====
-- The bound of the tool loop: how many calls of the model it makes.
use pack_verse.Base.{
  ℕ, zero, suc, ◌+◌, ◌≤◌, ◌≡◌, refl, String, Option, none, some, List, [], ◌∷◌, arith,
}
use pack_verse.Json.{Fields, get, as_name}
use pack_verse.Effects.{Act, continue_keeps}
use pack_verse.Runtime.Row.{AgentDefinition}
use pack_verse.Runtime.Prompt.{ToolCall, GenerateRequest, GenerateResponse, build_generate_request}
use pack_verse.Runtime.ToolLoop.{
  Services, LoopState, new_usage, record_call, call_tools, answer, iterate, offer_tools,
  run_tool_loop,
}

calls-new_usage : new_usage.calls_made ≡ 0
unfolding new_usage
calls-new_usage = refl

module _ (services : Services) where
  open services use {Outside, printing}

  abbrev pub calls : LoopState Outside → ℕ
  calls s = s.usage.calls_made

  calls-call_tools :
      (server : String) (iteration request_id : ℕ) (cs : List ToolCall) (messages : List String)
      (s : LoopState Outside)
      → calls (call_tools services server iteration request_id cs messages s).1 ≡ calls s
  unfolding call_tools
  calls-call_tools server iteration request_id [] messages s = refl
  calls-call_tools server iteration request_id (c ∷ cs) messages s =
      let reply = services.call_tool server c.name c.arguments s.outside in
      continue_keeps (λ t. calls t ≡ calls s) reply.0 _ (record s { outside = reply.1 }) refl
        (λ result. calls-call_tools server iteration request_id cs _ _)

  calls-answer :
      (agent : AgentDefinition) (server : Option String) (iteration left : ℕ)
      (payload : GenerateRequest) (response : GenerateResponse)
      (again : GenerateRequest → Act (LoopState Outside) GenerateResponse) (cs : List ToolCall)
      (s : LoopState Outside)
      → ((next : GenerateRequest) (t : LoopState Outside) → calls (again next t).1 ≤ calls t + left)
      → calls (answer services agent server iteration payload response again cs s).1
        ≤ calls s + left
  unfolding answer
  calls-answer agent server iteration left payload response again [] s h = omega arith
  calls-answer agent none iteration left payload response again (c ∷ cs) s h = omega arith
  calls-answer agent (some server) iteration left payload response again (c ∷ cs) s h =
      let sent =
        call_tools services server iteration response.request_id (c ∷ cs) payload.messages s in
      let same =
        calls-call_tools server iteration response.request_id (c ∷ cs) payload.messages s in
      continue_keeps (λ t. calls t ≤ calls s + left) sent.0 _ sent.1 (omega (arith, same))
        (λ messages. omega (arith, same, h (record payload { messages = messages }) sent.1))

  calls-iterate :
      (agent : AgentDefinition) (server : Option String)
      (owner_id max_iterations left iteration : ℕ) (payload : GenerateRequest)
      (s : LoopState Outside)
      → calls (iterate services agent server owner_id max_iterations left iteration payload s).1
        ≤ calls s + left
  unfolding iterate record_call
  calls-iterate agent server owner_id max_iterations zero iteration payload s = omega arith
  calls-iterate agent server owner_id max_iterations (suc left) iteration payload s =
      let reply = services.generate payload owner_id s.outside in
      continue_keeps (λ t. calls t ≤ calls s + suc left) reply.0 _ (record s { outside = reply.1 })
        (omega arith)
        (λ response. omega (
          arith,
          calls-answer agent server iteration left payload response
              (iterate services agent server owner_id max_iterations left (suc iteration))
              response.tool_calls
              (record s { outside = reply.1; usage = record_call response s.usage })
              (λ next t.
                calls-iterate agent server owner_id max_iterations left (suc iteration) next t),
        ))

  calls-offer_tools :
      (server : Option String) (s : LoopState Outside)
      → calls (offer_tools services server s).1 ≡ calls s
  unfolding offer_tools
  calls-offer_tools none s = refl
  calls-offer_tools (some server) s = ground arith

  -- However it ends, a run of the loop records at most `runtime_max_tool_iterations` calls of the model.
  pub calls-run_tool_loop :
      (max_iterations : ℕ) (agent : AgentDefinition) (user_input : String) (context : Option Fields)
      (owner_id : ℕ) (o : Outside)
      → calls
          (run_tool_loop services max_iterations agent user_input context owner_id
            (record { outside = o; usage = new_usage })).1
        ≤ max_iterations
  unfolding run_tool_loop
  calls-run_tool_loop max_iterations agent user_input context owner_id o =
      let start : LoopState Outside = record { outside = o; usage = new_usage } in
      let server = as_name (get "mcp_server" agent.configuration_json) in
      let offered = offer_tools services server start in
      let none_yet : calls offered.1 ≤ max_iterations =
        omega (arith, calls-offer_tools server start, calls-new_usage) in
      continue_keeps (λ t. calls t ≤ max_iterations) offered.0 _ offered.1 none_yet
        (λ tools.
          continue_keeps (λ t. calls t ≤ max_iterations)
            (build_generate_request printing agent user_input context tools) _ offered.1 none_yet
            (λ payload. omega (
              arith,
              calls-iterate agent server owner_id max_iterations max_iterations 1 payload offered.1,
              calls-offer_tools server start,
              calls-new_usage,
            )))
