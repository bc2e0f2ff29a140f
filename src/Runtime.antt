-- ===== src/Runtime.antt =====
-- The agent runtime: backend/app/runtime/models.py (the state machine), models/agent_run.py and
-- agent_definition.py (the rows), runtime/service.py, prompt_builder.py and executor.py.
pub mod Machine
pub mod Row
pub mod Prompt
pub mod ToolLoop
pub mod Service
pub mod Executor
