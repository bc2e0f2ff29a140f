-- ===== src/Tests/Definitions.antt =====
-- The parser on a definition that it accepts and on two that it refuses.
use pack_verse.Base.{◌≡◌, refl, true, none, some, List, [], ◌∷◌, ok, err}
use pack_verse.Base.Int.{pos}
use pack_verse.Json.{arr, obj, nil, cons, Fields, end, field}
use pack_verse.Errors.{workflow, other, definition_invalid, no_steps}
use pack_verse.Workflows.Definition.{
  workflow_input, step_output, WorkflowStepSpec, plain, parse_workflow_steps, parse_steps,
  read_steps, read_step, resolve, resolve_mapping, parse_input_mapping,
}
use pack_verse.Workflows.Definition.WellFormed.{IsWellFormed, parse_workflow_steps-IsWellFormed}
use pack_verse.Workflows.Definition.Refusal.{is_refusal, parse_workflow_steps-refuses}
use pack_verse.Tests.Samples.{step_json, sample_definition, parse_five}

abbrev sample_steps : List WorkflowStepSpec
sample_steps =
    (record {
      step_id = "draft";
      name = "draft";
      agent_definition_id = 5;
      order = pos 1;
      input_mapping = plain workflow_input;
    })
    ∷ (record {
      step_id = "revise";
      name = "revise";
      agent_definition_id = 5;
      order = pos 2;
      input_mapping = record { source = step_output; step_id = some "draft"; value = none };
    })
    ∷ []

parsed : parse_workflow_steps 3 parse_five sample_definition ≡ ok sample_steps
unfolding parse_workflow_steps parse_steps read_steps read_step resolve resolve_mapping
    parse_input_mapping
parsed = refl

parse_workflow_steps-IsWellFormed_example : IsWellFormed sample_definition sample_steps
parse_workflow_steps-IsWellFormed_example =
    parse_workflow_steps-IsWellFormed 3 parse_five sample_definition sample_steps parsed

-- the source of the step's mapping is a list
abbrev unhashable_source : Fields
unhashable_source =
    field "steps"
      (arr (
        cons (step_json "draft" 1 (field "input_mapping" (obj (field "source" (arr nil) end)) end))
          nil))
      end

raises_type_error : parse_workflow_steps 3 parse_five unhashable_source ≡ err (other "TypeError")
unfolding parse_workflow_steps parse_steps read_steps read_step resolve resolve_mapping
    parse_input_mapping
raises_type_error = refl

refused_empty :
    parse_workflow_steps 3 parse_five end ≡ err (workflow (definition_invalid 3 no_steps))
unfolding parse_workflow_steps parse_steps read_steps read_step resolve resolve_mapping
    parse_input_mapping
refused_empty = refl

parse_workflow_steps-refuses_example :
    is_refusal 3 (workflow (definition_invalid 3 no_steps)) ≡ true
parse_workflow_steps-refuses_example = parse_workflow_steps-refuses 3 parse_five end _ refused_empty
