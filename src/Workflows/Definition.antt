-- ===== src/Workflows/Definition.antt =====
-- backend/app/workflows/definition.py: the parser of a workflow's definition. `parse_uuid` is Python's
-- `uuid.UUID(text)`, None where it raises ValueError. The two lists that the first pass builds are
-- sorted by the same keys and zipped; here they are one list of entries.
pub mod WellFormed
pub mod Reading
pub mod Refusal
pub mod Sorting
use pack_verse.Base.{
  ℕ, String, Bool, true, false, ◌&&◌, ◌||◌, not, Option, none, some, List, [], ◌∷◌, ◌++◌, Result,
  ok, err, map, ◌>>=◌, ◌>>◌, raise_if, if◌then◌else◌, ◌==◌, string_eq, elem,
}
use pack_verse.Base.Int.{ℤ, leb_ℤ, ℤ_eq}
use pack_verse.Json.{
  Value, null, boolean, int, real, str, arr, obj, Items, nil, cons, Fields, get, as_str, as_name,
  as_order,
}
use pack_verse.Errors.{
  Exn, workflow, other, definition_invalid, DefinitionProblem, no_steps, step_not_object,
  missing_step_id, duplicate_step_id, bad_order, duplicate_order, missing_name, agent_id_not_string,
  agent_id_not_uuid, mapping_not_object, unsupported_source, previous_on_first, missing_reference,
  self_reference, not_earlier, static_not_string,
}

pub data Source : Type 0 where
  workflow_input previous_output step_output static : Source

pub record InputMapping : Type 0 where
  pub source : Source
  pub step_id : Option String
  pub value : Option String

pub record WorkflowStepSpec : Type 0 where
  pub step_id : String
  pub name : String
  pub agent_definition_id : ℕ
  pub order : ℤ
  pub input_mapping : InputMapping

abbrev pub plain : Source → InputMapping
plain s = record { source = s; step_id = none; value = none }

-- What `source not in _MAPPING_SOURCES` finds: a source, none, or the TypeError that Python raises
-- when it hashes a list or an object.
pub data Lookup : Type 0 where
  known : Source → Lookup
  unknown : Lookup
  unhashable : Lookup

abbrev pub source_named : String → Lookup
source_named s =
    if s == "workflow_input"
    then known workflow_input
    else if s == "previous_output"
    then known previous_output
    else if s == "step_output"
    then known step_output
    else if s == "static"
    then known static
    else unknown

unfoldable pub find_source : Option Value → Lookup
find_source (some (str s)) = source_named s
find_source (some (arr xs)) = unhashable
find_source (some (obj fs)) = unhashable
find_source _ = unknown

-- What the first pass keeps of a step: its fields and the raw step.
pub record Entry : Type 0 where
  pub order : ℤ
  pub step_id : String
  pub name : String
  pub agent_definition_id : ℕ
  pub raw_step : Fields

abbrev pub insert_by_order : Entry → List Entry → List Entry
insert_by_order e [] = e ∷ []
insert_by_order e (x ∷ xs) = if leb_ℤ e.order x.order then e ∷ x ∷ xs else x ∷ insert_by_order e xs

-- `list.sort(key=order)`, which keeps the sequence of equal keys
abbrev pub sort_by_order : List Entry → List Entry
sort_by_order [] = []
sort_by_order (e ∷ es) = insert_by_order e (sort_by_order es)

-- the specification of a step that was read, with its mapping
abbrev pub as_spec : Entry → InputMapping → WorkflowStepSpec
as_spec e mapping = record {
  step_id = e.step_id;
  name = e.name;
  agent_definition_id = e.agent_definition_id;
  order = e.order;
  input_mapping = mapping;
}

module _ (workflow_id : ℕ) where
  abbrev pub invalid : {A : Type 0} → DefinitionProblem → Result Exn A
  invalid p = err (workflow (definition_invalid workflow_id p))

  abbrev pub invalid_if : Bool → DefinitionProblem → Result Exn Unit
  invalid_if test p = raise_if test (workflow (definition_invalid workflow_id p))

  abbrev pub require : {A : Type 0} → Option A → DefinitionProblem → Result Exn A
  require none p = invalid p
  require (some a) p = ok a

  -- the branches of `_parse_input_mapping` behind the test of the source
  unfoldable pub parse_source :
      String → Fields → List String → Bool → Lookup → Result Exn InputMapping
  parse_source step_id raw known_earlier is_first_step unhashable = err (other "TypeError")
  parse_source step_id raw known_earlier is_first_step unknown =
      invalid (unsupported_source step_id)
  parse_source step_id raw known_earlier is_first_step (known workflow_input) =
      ok (plain workflow_input)
  parse_source step_id raw known_earlier is_first_step (known previous_output) = do
    invalid_if is_first_step (previous_on_first step_id)
    ok (plain previous_output)
  parse_source step_id raw known_earlier is_first_step (known step_output) = do
    ref ← require (as_name (get "step_id" raw)) (missing_reference step_id)
    invalid_if (ref == step_id) (self_reference step_id)
    invalid_if (not (elem ref known_earlier)) (not_earlier step_id ref)
    ok (record { source = step_output; step_id = some ref; value = none })
  parse_source step_id raw known_earlier is_first_step (known static) = do
    value ← require (as_str (get "value" raw)) (static_not_string step_id)
    ok (record { source = static; step_id = none; value = some value })

  unfoldable pub parse_input_mapping : String → Value → List String → Bool → Result Exn InputMapping
  unfolding parse_source find_source
  parse_input_mapping step_id (obj raw) known_earlier is_first_step =
      parse_source step_id raw known_earlier is_first_step (find_source (get "source" raw))
  parse_input_mapping step_id _ known_earlier is_first_step = invalid (mapping_not_object step_id)

  -- the mapping of a step behind the `resolved` ones
  unfoldable pub resolve_mapping :
      List WorkflowStepSpec → String → Option Value → Result Exn InputMapping
  resolve_mapping [] step_id none = ok (plain workflow_input)
  resolve_mapping [] step_id (some null) = ok (plain workflow_input)
  resolve_mapping (r ∷ rs) step_id none = ok (plain previous_output)
  resolve_mapping (r ∷ rs) step_id (some null) = ok (plain previous_output)
  resolve_mapping [] step_id (some raw) = parse_input_mapping step_id raw [] true
  resolve_mapping (r ∷ rs) step_id (some raw) =
      parse_input_mapping step_id raw (map (λ x. x.step_id) (r ∷ rs)) false

  -- the second pass
  unfoldable pub resolve : List WorkflowStepSpec → List Entry → Result Exn (List WorkflowStepSpec)
  resolve resolved [] = ok resolved
  resolve resolved (e ∷ es) = do
    mapping ← resolve_mapping resolved e.step_id (get "input_mapping" e.raw_step)
    resolve (resolved ++ (as_spec e mapping ∷ [])) es

  module _ (parse_uuid : String → Option ℕ) where
    -- one round of the first pass, behind the steps `seen`
    unfoldable pub read_step : List Entry → Value → Result Exn Entry
    read_step seen (obj raw) = do
      step_id ← require (as_name (get "step_id" raw)) missing_step_id
      invalid_if (elem step_id (map (λ x. x.step_id) seen)) (duplicate_step_id step_id)
      order ← require (as_order (get "order" raw)) (bad_order step_id)
      invalid_if (elem order (map (λ x. x.order) seen)) (duplicate_order order)
      name ← require (as_name (get "name" raw)) (missing_name step_id)
      id_text ← require (as_str (get "agent_definition_id" raw)) (agent_id_not_string step_id)
      agent_definition_id ← require (parse_uuid id_text) (agent_id_not_uuid step_id)
      ok (record {
        order = order;
        step_id = step_id;
        name = name;
        agent_definition_id = agent_definition_id;
        raw_step = raw;
      })
    read_step seen _ = invalid step_not_object

    unfoldable pub read_steps : List Entry → Items → Result Exn (List Entry)
    read_steps seen nil = ok seen
    read_steps seen (cons v vs) = do e ← read_step seen v; read_steps (seen ++ (e ∷ [])) vs

    unfoldable pub parse_steps : Option Value → Result Exn (List WorkflowStepSpec)
    parse_steps (some (arr (cons v vs))) = do
      parsed ← read_steps [] (cons v vs)
      resolve [] (sort_by_order parsed)
    parse_steps _ = invalid no_steps

    unfoldable pub parse_workflow_steps : Fields → Result Exn (List WorkflowStepSpec)
    parse_workflow_steps definition_json = parse_steps (get "steps" definition_json)
