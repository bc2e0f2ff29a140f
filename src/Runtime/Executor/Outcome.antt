-- ===== src/Runtime/Executor/Outcome.antt =====
-- What `execute_run` leaves behind, by how it ends.
use pack_verse.Base.{
  ℕ, ◌+◌, ◌≡◌, ◌≢◌, refl, sym, ap, ◌∙◌, String, true, Option, some, List, Result, ok, err, arith,
  is_some, ◌⊎◌, inl, inr,
}
use mathlib.Core.Path.{subst}
use pack_verse.Base.Table.{find, save, find-save_self}
use pack_verse.Enums.{AgentRunStatus, agent_run_status_eq}
use pack_verse.Json.{Fields}
use pack_verse.Errors.{
  Exn, runtime, llm, mcp, job, workflow, domain, other, class_name, invalid_run_transition,
  from_mcp, McpError,
}
use pack_verse.Runtime.Row.{AgentRun}
use pack_verse.Runtime.Prompt.{GenerateResponse}
use pack_verse.Runtime.ToolLoop.{ToolLoopUsage, persist_tool_loop_usage}
use pack_verse.World.{Host, World}
use pack_verse.Runtime.Executor.{
  try_body, fail_run, handle, complete_run, failed_row, completed_row, finish, execute_run,
}

-- the row of a run in the table
abbrev pub row_of : {O : Type 0} → AgentRun → World O → Option AgentRun
row_of run w = find (λ r. r.id) run.id w.agent_runs

-- The row that a failed run leaves: FAILED, with the class of the exception.
abbrev pub FailedWith : Exn → Option AgentRun → Type 0
FailedWith e row =
    (r : AgentRun) × (row ≡ some r)
    × (r.status ≡ AgentRunStatus.failed)
    × (r.error_code ≡ some (class_name e))
    × (is_some r.completed_at ≡ true)

abbrev pub LeftRunning : Option AgentRun → Type 0
LeftRunning row = (r : AgentRun) × (row ≡ some r) × (r.status ≡ AgentRunStatus.running)

-- A result with the row that stands in the table when it is returned.
abbrev pub Settled : Result Exn AgentRun → Option AgentRun → Type 0
Settled (ok run) row =
    (row ≡ some run)
    × (run.status ≡ AgentRunStatus.completed)
    × (is_some run.output_text ≡ true)
    × (is_some run.completed_at ≡ true)
Settled (err (llm e)) row = FailedWith (llm e) row
Settled (err (runtime e)) row =
    FailedWith (runtime e) row ⊎ ((m : McpError) × (e ≡ from_mcp m) × FailedWith (mcp m) row)
Settled (err (mcp e)) row = ⊥
Settled (err (job e)) row = LeftRunning row
Settled (err (workflow e)) row = LeftRunning row
Settled (err (domain e)) row = LeftRunning row
Settled (err (other name)) row = LeftRunning row

id-persist :
    (run : AgentRun) (usage : ToolLoopUsage) → (persist_tool_loop_usage run usage).id ≡ run.id
unfolding persist_tool_loop_usage
id-persist run usage = ground arith

text-persist :
    (run : AgentRun) (usage : ToolLoopUsage)
    → ((persist_tool_loop_usage run usage).output_text ≡ run.output_text)
      × ((persist_tool_loop_usage run usage).status ≡ run.status)
unfolding persist_tool_loop_usage
text-persist run usage = ground arith

-- A row that was written is read back.
written :
    (key : ℕ) (r : AgentRun) (rows : List AgentRun)
    → r.id ≡ key
    → is_some (find (λ x. x.id) key rows) ≡ true
    → find (λ x. x.id) key (save (λ x. x.id) r rows) ≡ some r
written key r rows e h =
    subst
      (λ k.
        is_some (find (λ x. x.id) k rows) ≡ true
        → find (λ x. x.id) k (save (λ x. x.id) r rows) ≡ some r)
      e (find-save_self (λ x. x.id) r rows) h

module _ (host : Host) (max_tool_iterations : ℕ) where
  open host use {services}
  open services use {Outside}

  agent_runs-try_body :
      (run : AgentRun) (user_input : String) (context : Option Fields) (w : World Outside)
      → (try_body host max_tool_iterations run user_input context w).2.agent_runs ≡ w.agent_runs
  unfolding try_body
  agent_runs-try_body run user_input context w = ground arith

  fail_run-FailedWith :
      (run : AgentRun) (usage : ToolLoopUsage) (started : ℕ) (exc reraised : Exn)
      (w : World Outside)
      → run.status ≡ AgentRunStatus.running
      → is_some (row_of run w) ≡ true
      → let (r, w') = fail_run host max_tool_iterations run usage started exc reraised w in
        (r ≡ err reraised) × FailedWith exc (row_of run w')
  unfolding fail_run
  fail_run-FailedWith run usage started exc reraised w running there =
      let row =
        failed_row host max_tool_iterations run usage started (host.time w.clock_reads)
          (host.time (w.clock_reads + 1)) exc in
      let saved = written run.id row w.agent_runs (id-persist run usage) there in
      (ground arith, (row, ground (arith, saved), refl, refl, refl))

  completed_row_facts :
      (run : AgentRun) (usage : ToolLoopUsage) (started ended now : ℕ) (response : GenerateResponse)
      → let row = completed_row host max_tool_iterations run usage started ended now response in
        (row.id ≡ run.id)
        × (row.status ≡ AgentRunStatus.completed)
        × (is_some row.output_text ≡ true)
        × (is_some row.completed_at ≡ true)
  unfolding completed_row
  completed_row_facts run usage started ended now response = ground arith

  complete_run_lem :
      (run : AgentRun) (usage : ToolLoopUsage) (started : ℕ) (response : GenerateResponse)
      (w : World Outside)
      → run.status ≡ AgentRunStatus.running
      → let row =
          completed_row host max_tool_iterations run usage started
            (host.time w.clock_reads)
            (host.time (w.clock_reads + 1))
            response in
        complete_run host max_tool_iterations run usage started response w ≡ (
          ok row,
          record w {
            clock_reads = w.clock_reads + 1 + 1;
            agent_runs = save (λ x. x.id) row w.agent_runs;
          },
        )
  unfolding complete_run
  complete_run_lem run usage started response w running = ground arith

  complete_run-Settled :
      (run : AgentRun) (usage : ToolLoopUsage) (started : ℕ) (response : GenerateResponse)
      (w : World Outside)
      → run.status ≡ AgentRunStatus.running
      → is_some (row_of run w) ≡ true
      → let (r, w') = complete_run host max_tool_iterations run usage started response w in
        Settled r (row_of run w')
  complete_run-Settled run usage started response w running there =
      let facts =
        completed_row_facts run usage started (host.time w.clock_reads)
          (host.time (w.clock_reads + 1)) response in
      let row =
        completed_row host max_tool_iterations run usage started (host.time w.clock_reads)
          (host.time (w.clock_reads + 1)) response in
      subst (λ (p : Result Exn AgentRun × World Outside). Settled p.0 (row_of run p.1))
        (sym (complete_run_lem run usage started response w running))
        (written run.id row w.agent_runs facts.0 there, facts.1, facts.2, facts.3)

  handle-Settled :
      (run : AgentRun) (usage : ToolLoopUsage) (started : ℕ) (e : Exn) (w : World Outside)
      → run.status ≡ AgentRunStatus.running
      → row_of run w ≡ some run
      → let (r, w') = handle host max_tool_iterations run usage started e w in
        Settled r (row_of run w')
  unfolding handle
  handle-Settled run usage started (llm e) w running there =
      let p = fail_run host max_tool_iterations run usage started (llm e) (llm e) w in
      let (q, f) =
        fail_run-FailedWith run usage started (llm e) (llm e) w running (ground (arith, there)) in
      subst (λ r. Settled r (row_of run p.1)) (sym q) f
  handle-Settled run usage started (runtime e) w running there =
      let p = fail_run host max_tool_iterations run usage started (runtime e) (runtime e) w in
      let (q, f) =
        fail_run-FailedWith run usage started (runtime e) (runtime e) w running
          (ground (arith, there)) in
      subst (λ r. Settled r (row_of run p.1)) (sym q) (inl f)
  handle-Settled run usage started (mcp e) w running there =
      let p =
        fail_run host max_tool_iterations run usage started (mcp e) (runtime (from_mcp e)) w in
      let (q, f) =
        fail_run-FailedWith run usage started (mcp e) (runtime (from_mcp e)) w running
          (ground (arith, there)) in
      subst (λ r. Settled r (row_of run p.1)) (sym q) (inr (e, refl, f))
  handle-Settled run usage started (job e) w running there = (run, there, running)
  handle-Settled run usage started (workflow e) w running there = (run, there, running)
  handle-Settled run usage started (domain e) w running there = (run, there, running)
  handle-Settled run usage started (other e) w running there = (run, there, running)

  finish-Settled :
      (run : AgentRun) (started : ℕ) (r : Result Exn GenerateResponse) (usage : ToolLoopUsage)
      (w : World Outside)
      → run.status ≡ AgentRunStatus.running
      → row_of run w ≡ some run
      → let (r', w') = finish host max_tool_iterations run started (r, usage, w) in
        Settled r' (row_of run w')
  unfolding finish
  finish-Settled run started (ok response) usage w running there =
      complete_run-Settled run usage started response w running (ground (arith, there))
  finish-Settled run started (err e) usage w running there =
      handle-Settled run usage started e w running there

  -- A run that is not QUEUED is refused: the call raises and changes nothing.
  pub execute_run_refused :
      (run : AgentRun) (user_input : String) (context : Option Fields) (w : World Outside)
      → run.status ≢ AgentRunStatus.queued
      → execute_run host max_tool_iterations run user_input context w
        ≡ (err (runtime (invalid_run_transition run.status AgentRunStatus.running)), w)
  unfolding execute_run
  execute_run_refused run user_input context w h = ground arith

  abbrev started_row : AgentRun → World Outside → AgentRun
  started_row run w = record run {
    status = AgentRunStatus.running;
    started_at = some (host.time w.clock_reads);
  }

  abbrev started_world : AgentRun → World Outside → World Outside
  started_world run w = record w {
    clock_reads = w.clock_reads + 1 + 1;
    agent_runs = save (λ x. x.id) (started_row run w) w.agent_runs;
  }

  execute_run_lem :
      (run : AgentRun) (user_input : String) (context : Option Fields) (w : World Outside)
      → run.status ≡ AgentRunStatus.queued
      → execute_run host max_tool_iterations run user_input context w
        ≡ finish host max_tool_iterations (started_row run w) (host.time (w.clock_reads + 1)) (
            try_body host max_tool_iterations
              (started_row run w)
              user_input
              context
              (started_world run w))
  unfolding execute_run
  execute_run_lem run user_input context w queued = rw queued

  -- A QUEUED run that is in the table ends in one of four ways. It returns COMPLETED with an output;
  -- it raises an `LLMError` or a `RuntimeDomainError` and the row is FAILED with its class, or with
  -- that of the `MCPError` it is made from; or it raises another exception and the row is left
  -- RUNNING. It never raises an `MCPError`.
  pub execute_run-Settled :
      (run : AgentRun) (user_input : String) (context : Option Fields) (w : World Outside)
      → run.status ≡ AgentRunStatus.queued
      → is_some (row_of run w) ≡ true
      → let (r, w') = execute_run host max_tool_iterations run user_input context w in
        Settled r (row_of run w')
  execute_run-Settled run user_input context w queued there =
      let tried =
        try_body host max_tool_iterations (started_row run w) user_input context
          (started_world run w) in
      let kept = agent_runs-try_body (started_row run w) user_input context (started_world run w) in
      let saved = written run.id (started_row run w) w.agent_runs refl there in
      subst (λ (p : Result Exn AgentRun × World Outside). Settled p.0 (row_of run p.1))
        (sym (execute_run_lem run user_input context w queued))
        (finish-Settled (started_row run w) (host.time (w.clock_reads + 1)) tried.0 tried.1 tried.2
          refl (ap (find (λ r. r.id) run.id) kept ∙ saved))
