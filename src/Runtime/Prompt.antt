-- ===== src/Runtime/Prompt.antt =====
-- backend/app/runtime/prompt_builder.py, with the requests and responses of schemas/llm.py that it
-- builds and the limits that those declare. Python's `str`, `repr` and `json.dumps` on values that
-- are not texts, and the range test of a temperature, are parameters.
use pack_verse.Base.{
  ℕ, zero, suc, String, Bool, true, false, ◌||◌, not, Option, none, some, List, [], ◌∷◌, Result, ok,
  err, ◌>>=◌, ◌>>◌, raise_if, if◌then◌else◌, ◌==◌, string_eq,
}
use pack_verse.Base.Int.{ℤ, pos, negsuc}
use pack_verse.Json.{
  Value, null, boolean, int, real, str, arr, obj, nil, cons, Fields, end, field, get, as_str,
}
use pack_verse.Errors.{Exn, runtime, other, agent_configuration}
use pack_verse.Runtime.Row.{AgentDefinition}
use Prim.Native.String.{◌++◌}

pub record ToolDefinition : Type 0 where
  pub name : String
  pub description : String
  pub input_schema : Fields

pub record ToolCall : Type 0 where
  pub name : String
  pub arguments : Fields

-- `GenerateRequest`; every message that the runtime sends has the role "user"
pub record GenerateRequest : Type 0 where
  pub provider : Option String
  pub model : String
  pub system_prompt : String
  pub messages : List String
  pub temperature : Option Value
  pub max_tokens : Option ℤ
  pub tools : Option (List ToolDefinition)
  pub agent_id : ℕ

-- `GenerateResponse`, the fields that the runtime reads; no tool calls is the empty list
pub record GenerateResponse : Type 0 where
  pub request_id : ℕ
  pub provider : String
  pub model : String
  pub content : String
  pub input_tokens : ℕ
  pub output_tokens : ℕ
  pub estimated_cost_usd : Option ℕ
  pub tool_calls : List ToolCall

-- What Python's builtins make of a value.
pub record Printing : Type 0 where
  pub str_of : Value → String
  pub repr_text : String → String
  pub repr_dict : Fields → String
  pub dumps : Fields → String
  pub real_is_zero : String → Bool
  pub temperature_in_range : Value → Bool

-- `not v`
abbrev pub falsy : Printing → Option Value → Bool
falsy p none = true
falsy p (some null) = true
falsy p (some (boolean b)) = not b
falsy p (some (int (pos zero))) = true
falsy p (some (int _)) = false
falsy p (some (real r)) = p.real_is_zero r
falsy p (some (str s)) = s == ""
falsy p (some (arr nil)) = true
falsy p (some (arr (cons _ _))) = false
falsy p (some (obj end)) = true
falsy p (some (obj (field _ _ _))) = false

-- `str(config[key])`
abbrev pub to_str : Printing → Option Value → String
to_str p none = ""
to_str p (some (str s)) = s
to_str p (some v) = p.str_of v

-- `v if isinstance(v, (int, float)) else None`; a bool is an int
abbrev pub as_number : Option Value → Option Value
as_number (some (int n)) = some (int n)
as_number (some (real r)) = some (real r)
as_number (some (boolean b)) = some (boolean b)
as_number _ = none

-- `int(v) if isinstance(v, int) else None`
abbrev pub as_int : Option Value → Option ℤ
as_int (some (int n)) = some n
as_int (some (boolean true)) = some (pos 1)
as_int (some (boolean false)) = some (pos 0)
as_int _ = none

abbrev pub validation_error : Exn
validation_error = other "ValidationError"

unfoldable pub require_config : Printing → AgentDefinition → Result Exn Fields
require_config p agent =
    if falsy p (get "system_prompt" agent.configuration_json)
      || falsy p (get "model" agent.configuration_json)
    then err (runtime (agent_configuration agent.id))
    else ok agent.configuration_json

unfoldable pub render_user_message : Printing → String → Option Fields → String
render_user_message p user_input none = user_input
render_user_message p user_input (some end) = user_input
render_user_message p user_input (some (field k v fs)) =
    user_input ++ ("\n\n---\nContext:\n" ++ p.dumps (field k v fs))

-- `ToolDefinitionIn`: a name and a description of at least one character
abbrev pub bad_tools : Option (List ToolDefinition) → Bool
bad_tools none = false
bad_tools (some []) = false
bad_tools (some (t ∷ ts)) = t.name == "" || (t.description == "" || bad_tools (some ts))

-- `Field(gt=0)`
abbrev pub bad_max_tokens : Option ℤ → Bool
bad_max_tokens none = false
bad_max_tokens (some (pos zero)) = true
bad_max_tokens (some (pos (suc n))) = false
bad_max_tokens (some (negsuc n)) = true

abbrev pub bad_temperature : Printing → Option Value → Bool
bad_temperature p none = false
bad_temperature p (some v) = not (p.temperature_in_range v)

unfoldable pub build_generate_request :
    Printing
    → AgentDefinition
    → String
    → Option Fields
    → Option (List ToolDefinition)
    → Result Exn GenerateRequest
unfolding require_config render_user_message
build_generate_request p agent user_input context tools = do
  config ← require_config p agent
  let message = render_user_message p user_input context
  raise_if (message == "") validation_error
  let temperature = as_number (get "temperature" config)
  let max_tokens = as_int (get "max_tokens" config)
  raise_if (bad_temperature p temperature || bad_max_tokens max_tokens) validation_error
  ok (record {
    provider = as_str (get "provider" config);
    model = to_str p (get "model" config);
    system_prompt = to_str p (get "system_prompt" config);
    messages = message ∷ [];
    temperature = temperature;
    max_tokens = max_tokens;
    tools = tools;
    agent_id = agent.id;
  })
