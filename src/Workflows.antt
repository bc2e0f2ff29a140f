-- ===== src/Workflows.antt =====
-- Workflow orchestration: backend/app/workflows/ and the rows of models/workflow_definition.py,
-- workflow_run.py and workflow_step_run.py.
pub mod Row
pub mod Machine
pub mod Definition
pub mod Inputs
pub mod Service
pub mod Executor
