-- ===== src/Runtime/ToolLoop.antt =====
-- `_ToolLoopUsage`, `_persist_tool_loop_usage` and `_run_tool_loop` of backend/app/runtime/executor.py.
-- The LLM service and the MCP client are an interface over the world outside, which each call may
-- change. `usage` is mutated by the loop, so it is part of the state and outlives an exception.
pub mod Usage
pub mod Bounds
use pack_verse.Base.{
  ℕ, zero, suc, ◌+◌, String, Bool, true, false, Option, none, some, List, [], ◌∷◌, Result, ok, err,
  map, if◌then◌else◌, ◌==◌, string_eq, ℕ_eq, ◌++◌ as append,
}
use Prim.Native.String.{◌++◌}
use pack_verse.Json.{Fields, get, as_name}
use pack_verse.Errors.{
  Exn, runtime, mcp, McpError, mcp_server_not_configured, no_mcp_server, tool_loop_limit_exceeded,
}
use pack_verse.Effects.{Act, pure, raise, lift, raise_when, modify, ◌>>=◌, ◌>>◌}
use pack_verse.Runtime.Row.{AgentDefinition, AgentRun, TraceEntry}
use pack_verse.Runtime.Prompt.{
  Printing, ToolDefinition, ToolCall, GenerateRequest, GenerateResponse, bad_tools,
  validation_error, build_generate_request,
}

pub record ToolResult : Type 0 where
  pub content : String
  pub is_error : Bool

-- `generate` is services/llm_service.py's `generate_and_persist` on behalf of a user; `list_tools`
-- and `call_tool` are methods of mcp/client.py for a server by its name, and `mcp_configured` says
-- whether mcp/factory.py knows the server.
pub record Services : Type 1 where
  pub Outside : Type 0
  pub printing : Printing
  pub generate : GenerateRequest → ℕ → Outside → Result Exn GenerateResponse × Outside
  pub mcp_configured : String → Bool
  pub list_tools : String → Outside → Result Exn (List ToolDefinition) × Outside
  pub call_tool : String → String → Fields → Outside → Result Exn ToolResult × Outside

pub record ToolLoopUsage : Type 0 where
  pub trace : List TraceEntry
  pub calls_made : ℕ
  pub total_input_tokens : ℕ
  pub total_output_tokens : ℕ
  pub total_cost_usd : Option ℕ

unfoldable pub new_usage : ToolLoopUsage
new_usage = record {
  trace = [];
  calls_made = 0;
  total_input_tokens = 0;
  total_output_tokens = 0;
  total_cost_usd = some 0;
}

-- an unknown cost makes the total unknown, for good
abbrev pub add_cost : Option ℕ → Option ℕ → Option ℕ
add_cost none cost = none
add_cost (some total) none = none
add_cost (some total) (some cost) = some (total + cost)

unfoldable pub record_call : GenerateResponse → ToolLoopUsage → ToolLoopUsage
record_call response usage = record usage {
  calls_made = usage.calls_made + 1;
  total_input_tokens = usage.total_input_tokens + response.input_tokens;
  total_output_tokens = usage.total_output_tokens + response.output_tokens;
  total_cost_usd = add_cost usage.total_cost_usd response.estimated_cost_usd;
}

abbrev pub or_none : List TraceEntry → Option (List TraceEntry)
or_none [] = none
or_none (e ∷ es) = some (e ∷ es)

unfoldable pub persist_tool_loop_usage : AgentRun → ToolLoopUsage → AgentRun
persist_tool_loop_usage run usage = if usage.calls_made == 0 then run else record run {
  input_tokens = some usage.total_input_tokens;
  output_tokens = some usage.total_output_tokens;
  total_tokens = some (usage.total_input_tokens + usage.total_output_tokens);
  estimated_cost_usd = usage.total_cost_usd;
  tool_calls_json = or_none usage.trace;
}

-- The state of the loop: the world outside and the usage so far.
pub record LoopState (O : Type 0) : Type 0 where
  pub outside : O
  pub usage : ToolLoopUsage

module _ (services : Services) where
  open services use {Outside, printing, generate, mcp_configured, list_tools, call_tool}

  -- a call to the world outside, which leaves the usage alone
  abbrev pub reach : {A : Type 0} → (Outside → Result Exn A × Outside) → Act (LoopState Outside) A
  reach m s = let (r, o) = m s.outside in (r, record s { outside = o })

  abbrev pub record_in : (ToolLoopUsage → ToolLoopUsage) → Act (LoopState Outside) Unit
  record_in f = modify (λ s. record s { usage = f s.usage })

  abbrev pub tool_message : ToolCall → ToolResult → String
  tool_message call result =
      "Tool "
      ++ (printing.repr_text call.name
          ++ (" was called with "
              ++ (printing.repr_dict call.arguments ++ (" and returned: " ++ result.content))))

  -- `for call in response.tool_calls`, with the messages to send next
  unfoldable pub call_tools :
      String → ℕ → ℕ → List ToolCall → List String → Act (LoopState Outside) (List String)
  call_tools server iteration request_id [] messages = pure messages
  call_tools server iteration request_id (call ∷ calls) messages = do
    result ← reach (call_tool server call.name call.arguments)
    record_in (λ u. record u {
      trace = append u.trace (
          record {
            iteration = iteration;
            llm_request_id = request_id;
            tool_name = call.name;
            arguments = call.arguments;
            result = result.content;
            is_error = result.is_error;
          }
          ∷ []);
    })
    call_tools server iteration request_id calls (append messages (tool_message call result ∷ []))

  -- `if not response.tool_calls`, `if mcp_client is None`, and the calls
  unfoldable pub answer :
      AgentDefinition
      → Option String
      → ℕ
      → GenerateRequest
      → GenerateResponse
      → (GenerateRequest → Act (LoopState Outside) GenerateResponse)
      → List ToolCall
      → Act (LoopState Outside) GenerateResponse
  unfolding call_tools
  answer agent server iteration payload response again [] = pure response
  answer agent none iteration payload response again (call ∷ calls) =
      raise (runtime (no_mcp_server agent.id))
  answer agent (some server) iteration payload response again (call ∷ calls) = do
    messages ← call_tools server iteration response.request_id (call ∷ calls) payload.messages
    again (record payload { messages = messages })

  -- `for iteration in range(1, max + 1)`, on the rounds left
  unfoldable pub iterate :
      AgentDefinition
      → Option String
      → ℕ
      → ℕ
      → ℕ
      → ℕ
      → GenerateRequest
      → Act (LoopState Outside) GenerateResponse
  unfolding answer record_call
  iterate agent server owner_id max_iterations zero iteration payload =
      raise (runtime (tool_loop_limit_exceeded agent.id max_iterations))
  iterate agent server owner_id max_iterations (suc left) iteration payload = do
    response ← reach (generate payload owner_id)
    record_in (record_call response)
    answer agent server iteration payload response
        (iterate agent server owner_id max_iterations left (suc iteration)) response.tool_calls

  -- the tools of the agent's server, if it names one
  unfoldable pub offer_tools :
      Option String → Act (LoopState Outside) (Option (List ToolDefinition))
  offer_tools none = pure none
  offer_tools (some server) = do
    raise_when (if mcp_configured server then false else true)
        (mcp (mcp_server_not_configured server))
    tools ← reach (list_tools server)
    raise_when (bad_tools (some tools)) validation_error
    pure (some tools)

  unfoldable pub run_tool_loop :
      ℕ → AgentDefinition → String → Option Fields → ℕ → Act (LoopState Outside) GenerateResponse
  unfolding iterate offer_tools build_generate_request
  run_tool_loop max_iterations agent user_input context owner_id = do
    let server = as_name (get "mcp_server" agent.configuration_json)
    tools ← offer_tools server
    payload ← lift (build_generate_request printing agent user_input context tools)
    iterate agent server owner_id max_iterations max_iterations 1 payload
