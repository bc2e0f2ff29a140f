-- ===== src/World.antt =====
-- The state that the program's coroutines share: the database tables, the world outside, and how far
-- the clock and the generator of ids have been read. The program's host gives the reading of the
-- clock, the ids of `uuid.uuid4` and the text of an exception (`str(exc)`).
use pack_verse.Base.{ℕ, ◌+◌, ◌-◌, ◌/◌, String, List, [], ◌∷◌, ◌++◌, ok}
use pack_verse.Base.Table
use pack_verse.Errors.{Exn}
use pack_verse.Effects.{Act}
use pack_verse.Jobs.Row.{Job}
use pack_verse.Runtime.Row.{AgentDefinition, AgentRun}
use pack_verse.Runtime.ToolLoop.{Services}
use pack_verse.Workflows.Row.{WorkflowDefinition, WorkflowRun, WorkflowStepRun}

pub record Host : Type 1 where
  pub services : Services
  pub time : ℕ → ℕ
  pub new_id : ℕ → ℕ
  pub text : Exn → String

pub record World (O : Type 0) : Type 0 where
  pub outside : O
  pub clock_reads : ℕ
  pub ids_made : ℕ
  pub agents : List AgentDefinition
  pub agent_runs : List AgentRun
  pub workflows : List WorkflowDefinition
  pub workflow_runs : List WorkflowRun
  pub step_runs : List WorkflowStepRun
  pub jobs : List Job

module _ {O : Type 0} where
  -- `datetime.now(timezone.utc)` and `time.monotonic()`
  abbrev pub read_clock : (ℕ → ℕ) → Act (World O) ℕ
  read_clock time w = (ok (time w.clock_reads), record w { clock_reads = w.clock_reads + 1 })

  -- `uuid.uuid4()`
  abbrev pub make_id : (ℕ → ℕ) → Act (World O) ℕ
  make_id new_id w = (ok (new_id w.ids_made), record w { ids_made = w.ids_made + 1 })

  abbrev pub save_agent_run : AgentRun → Act (World O) Unit
  save_agent_run r w = (ok tt, record w { agent_runs = Table.save (λ x. x.id) r w.agent_runs })

  abbrev pub insert_agent_run : AgentRun → Act (World O) Unit
  insert_agent_run r w = (ok tt, record w { agent_runs = w.agent_runs ++ (r ∷ []) })

  abbrev pub save_workflow_run : WorkflowRun → Act (World O) Unit
  save_workflow_run r w =
      (ok tt, record w { workflow_runs = Table.save (λ x. x.id) r w.workflow_runs })

  abbrev pub insert_workflow_run : WorkflowRun → Act (World O) Unit
  insert_workflow_run r w = (ok tt, record w { workflow_runs = w.workflow_runs ++ (r ∷ []) })

  abbrev pub save_step_run : WorkflowStepRun → Act (World O) Unit
  save_step_run r w = (ok tt, record w { step_runs = Table.save (λ x. x.id) r w.step_runs })

  abbrev pub save_job : Job → Act (World O) Unit
  save_job j w = (ok tt, record w { jobs = Table.save (λ x. x.id) j w.jobs })

  abbrev pub insert_job : Job → Act (World O) Unit
  insert_job j w = (ok tt, record w { jobs = w.jobs ++ (j ∷ []) })

-- `int((later - earlier).total_seconds() * 1000)`, of times in microseconds
abbrev pub milliseconds : ℕ → ℕ → ℕ
milliseconds earlier later = (later - earlier) / 1000
