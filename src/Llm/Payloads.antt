-- ===== src/Llm/Payloads.antt =====
-- The bodies of the requests that anthropic.py and openai_compatible.py of backend/app/llm/providers
-- send. `str.strip` and the printing of a JSON schema are parameters.
use pack_verse.Base.{
  zero, suc, String, Bool, true, not, Option, none, some, List, [], ◌∷◌, ◌==◌, string_eq, map, keep,
}
use pack_verse.Base.Int.{ℤ, pos, negsuc}
use Prim.Native.String.{◌++◌}
use pack_verse.Base.Dict.{given}
use pack_verse.Json.{Value, boolean, int, str, obj, arr, Fields, end, field, Items, nil, cons}
use pack_verse.Runtime.Prompt.{ToolDefinition}
use pack_verse.Rag.Extraction.{join_texts}
use pack_verse.Llm.Models.{LlmRequest, Message, MessageRole, ResponseFormat}

abbrev pub items_of : List Value → Items
items_of [] = nil
items_of (v ∷ vs) = cons v (items_of vs)

-- `if value: payload[key] = value`, with the fields that are set later
abbrev pub optional : String → Option Value → Fields → Fields
optional key none later = later
optional key (some value) later = field key value later

abbrev pub str_of_text : Option String → Option Value
str_of_text none = none
str_of_text (some text) = some (str text)

abbrev pub int_value : Option ℤ → Option Value
int_value none = none
int_value (some n) = some (int n)

abbrev pub role_text : MessageRole → String
role_text MessageRole.system = "system"
role_text MessageRole.user = "user"
role_text MessageRole.assistant = "assistant"

abbrev pub message_value : String → String → Value
message_value role content = obj (field "role" (str role) (field "content" (str content) end))

abbrev pub value_of_message : Message → Value
value_of_message m = message_value (role_text m.role) m.content

-- `if request.tools:`
abbrev pub tools_value : (ToolDefinition → Value) → Option (List ToolDefinition) → Option Value
tools_value f none = none
tools_value f (some []) = none
tools_value f (some (t ∷ ts)) = some (arr (items_of (map f (t ∷ ts))))

abbrev pub function_tool : ToolDefinition → Value
function_tool tool = obj (
    field "type" (str "function") (
      field "function"
        (obj (
          field "name" (str tool.name) (
            field "description" (str tool.description)
              (field "parameters" (obj tool.input_schema) end))))
        end))

abbrev pub format_value : Option ResponseFormat → Option Value
format_value none = none
format_value (some format) = some (
    obj (
      field "type" (str "json_schema") (
        field "json_schema"
          (obj (
            field "name" (str format.name)
              (field "schema" (obj format.json_schema) (field "strict" (boolean true) end))))
          end)))

abbrev pub system_messages : Option String → List Value
system_messages none = []
system_messages (some text) = message_value "system" text ∷ []

-- `messages.extend(…)`
abbrev pub with_system : List Value → List Value → List Value
with_system [] messages = messages
with_system (v ∷ vs) messages = v ∷ with_system vs messages

unfoldable pub open_ai_payload : LlmRequest → Fields
open_ai_payload request = field "model" (str request.model) (
    field "messages"
      (arr (
        items_of (
          with_system (system_messages (given request.system_prompt))
            (map value_of_message request.messages))))
      (optional "temperature" request.temperature (
        optional "max_tokens" (int_value request.max_tokens) (
          optional "response_format" (format_value request.response_format)
            (optional "tools" (tools_value function_tool request.tools) end)))))

module _ (strip : String → String) (print : Fields → String) where
  abbrev pub default_max_tokens : ℤ
  default_max_tokens = pos 1024

  -- `request.max_tokens or _DEFAULT_MAX_TOKENS`
  abbrev pub max_tokens_of : Option ℤ → ℤ
  max_tokens_of none = default_max_tokens
  max_tokens_of (some (pos zero)) = default_max_tokens
  max_tokens_of (some (pos (suc n))) = pos (suc n)
  max_tokens_of (some (negsuc n)) = negsuc n

  abbrev pub is_system : Message → Bool
  is_system m = role_text m.role == "system"

  -- the prompt of the request, or the system messages joined
  abbrev pub system_prompt_of : LlmRequest → Option String
  system_prompt_of request = elim (given request.system_prompt) [
    | some prompt ↦ some prompt
    | none ↦
        given (some (join_texts "\n\n" (map (λ m. m.content) (keep is_system request.messages))))
  ]

  abbrev pub schema_hint : ResponseFormat → String
  schema_hint format =
      "Respond with ONLY a single JSON object matching this JSON Schema, "
      ++ ("no prose, no markdown code fences:\n" ++ print format.json_schema)

  abbrev pub hinted : ResponseFormat → String → String
  hinted format existing = strip (existing ++ ("\n\n" ++ schema_hint format))

  -- the value of "system" where a prompt has set it before
  abbrev pub early_system : Option ResponseFormat → Option String → Option String
  early_system format none = none
  early_system none (some prompt) = some prompt
  early_system (some format) (some prompt) = some (hinted format prompt)

  -- and where only the response format sets it
  abbrev pub late_system : Option ResponseFormat → Option String → Option String
  late_system format (some prompt) = none
  late_system none none = none
  late_system (some format) none = some (hinted format "")

  abbrev pub plain_tool : ToolDefinition → Value
  plain_tool tool = obj (
      field "name" (str tool.name) (
        field "description" (str tool.description)
          (field "input_schema" (obj tool.input_schema) end)))

  unfoldable pub anthropic_payload : LlmRequest → Fields
  anthropic_payload request =
      let prompt = system_prompt_of request in
      field "model" (str request.model) (
        field "max_tokens" (int (max_tokens_of request.max_tokens)) (
          field "messages"
            (arr (items_of (map value_of_message (keep (λ m. not (is_system m)) request.messages))))
            (optional "system" (str_of_text (early_system request.response_format prompt)) (
              optional "temperature" request.temperature (
                optional "system" (str_of_text (late_system request.response_format prompt))
                  (optional "tools" (tools_value plain_tool request.tools) end))))))
