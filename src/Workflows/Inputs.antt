-- ===== src/Workflows/Inputs.antt =====
-- backend/app/workflows/input_builder.py: the text that a step's agent is given. The dictionary of
-- outputs is an association list, the latest entry first.
use pack_verse.Base.{
  String, Option, none, some, List, [], ◌∷◌, Result, ok, err, if◌then◌else◌, ◌==◌, string_eq,
}
use pack_verse.Errors.{Exn, workflow, other, input_resolution}
use pack_verse.Workflows.Definition.{
  workflow_input, previous_output, step_output, static, WorkflowStepSpec,
}

-- `step_outputs.get(step_id)`
abbrev pub output_of : String → List (String × String) → Option String
output_of step_id [] = none
output_of step_id (o ∷ os) = if o.0 == step_id then some o.1 else output_of step_id os

-- `step_outputs[ref]`, or the error for a step without a recorded output
abbrev pub recorded : String → Option String → List (String × String) → Result Exn String
recorded step_id none outputs = err (workflow (input_resolution step_id))
recorded step_id (some ref) outputs = elim (output_of ref outputs) [
  | none ↦ err (workflow (input_resolution step_id))
  | some output ↦ ok output
]

-- the text of a static mapping, or the failed assertion
abbrev pub static_text : Option String → Result Exn String
static_text none = err (other "AssertionError")
static_text (some value) = ok value

unfoldable pub build_step_input :
    WorkflowStepSpec → String → Option String → List (String × String) → Result Exn String
build_step_input step user_input previous_step_id step_outputs = elim step.input_mapping.source [
  | workflow_input ↦ ok user_input
  | static ↦ static_text step.input_mapping.value
  | previous_output ↦ recorded step.step_id previous_step_id step_outputs
  | step_output ↦ recorded step.step_id step.input_mapping.step_id step_outputs
]
