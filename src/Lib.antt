-- ===== src/Lib.antt =====
-- PackVerse: the backend's job queue, agent runtime, workflow engine and worker; its LLM gateway; and
-- its services for assets, ingestion, retrieval, LLM requests, products and users.
--
-- A client enqueues an agent run or a workflow run as a row of its own and a job that names it. A
-- worker claims the oldest job that is due, keeps its lease alive, and dispatches it: an agent run
-- goes through the runtime's executor, which calls the model and its tools in a bounded loop; a
-- workflow run goes through the workflow executor, which runs the parsed steps in order, each as an
-- agent run of its own. A recovery pass reclaims the jobs whose lease has expired.
--
-- Documents are assets: an upload goes to the storage and then to its table, an ingestion job cuts
-- the extracted text into chunks and stores each with its embedding, and a search ranks the chunks by
-- their distance from a query. Every call of a model goes through the gateway, which routes it to a
-- provider and retries it; the LLM service keeps an audit row of it.
--
-- The files and the code they model, under backend/app/:
--   Base/*                  lists, equality tests, results, integers and tables of rows with an id.
--   Enums, Errors, Json     models/enums.py, the exceptions of each package, and JSON values.
--   Jobs/*                  jobs/models.py, jobs/queue.py and models/job.py: a row is `Job`, each
--                           function of the queue is one of the same name. `Claim` and `Recover`
--                           work on the whole table, `Queue` on a row; `Lifecycle` runs all of them
--                           as events on one job. `Service` is jobs/service.py for runs,
--                           `Ingestion` the same for asset ingestion.
--   Runtime/*               runtime/models.py, service.py, prompt_builder.py and executor.py:
--                           `execute_run` with the parts of its `try` as definitions of their own,
--                           and `run_tool_loop`.
--   Workflows/*             workflows/models.py, definition.py, input_builder.py, service.py and
--                           executor.py; `Steps` and `Outcome` follow an execution to its end.
--   Worker/*                worker/dispatch.py, `Dispatch` for agent and workflow jobs and `Ingest` for
--                           asset ingestion and the choice of the branch; `Loop` is worker/runner.py.
--   Rag/*                   rag/chunking.py and rag/extraction.py.
--   Llm/*                   llm/models.py, base.py, routing.py, pricing.py and gateway.py; `Retry` is
--                           `_retry_async`. `Factory` is llm/factory.py,
--                           `Http` and `Payloads` the errors and the request bodies of
--                           llm/providers/. `Schemas` is schemas/llm.py and `Payload` what
--                           services/llm_service.py makes of it.
--   Services/*              services/asset_service.py (`AssetService`, with `Upload` and `Filename`),
--                           ingestion_service.py, retrieval_service.py with rag/retrieval.py,
--                           llm_service.py with `RequestRow`, user_service.py (`Accounts`) and
--                           product_service.py; `Row` is models/, `Storage` is storage/base.py and
--                           `Store` the state that they share.
--   Storage/Local           storage/local.py.
--   Api/Auth                core/security.py and api/deps.py.
--   Core/Config             the validators of core/config.py.
--   World, Effects          the state that the coroutines share and their monad: a call returns or
--                           raises, and the state comes back in both cases.
--   Tests/*                 the theorems at concrete inputs.
--
-- State. A table is a list of rows in the order of their insertion; a commit writes the changed row
-- under its id. Ids are numbers, times are microseconds, costs are numbers of a small unit. The
-- clock and `uuid.uuid4` are functions of how often they were read. Where two sessions could write
-- one row at a time, the row that a session holds is the row of the table.
--
-- Parameters, for code that is not the repository's or that only does I/O: what the runtime calls of
-- the LLM service and the MCP client (`Services`, over a world that each call may change), the
-- providers of models, the storage backend and its file system, `uuid.UUID`, SHA-256, Argon2, PyJWT,
-- pypdf, JSON Schema, Unicode normalization, Python's printing of values (`Printing`), the distance of
-- vectors, which rows other transactions lock or commit meanwhile, and what `AsyncSession.get` returns
-- for the job that a worker holds.
--
-- Bounds. The loop of the chunker runs on fuel, the length of the text, which is enough since each
-- round moves its start forward.
-- The tool loop recurses on the iterations that are left, the retries of a call on the retries that
-- are left, and the worker's loop on the rounds before its shutdown. All else is structural.
--
-- Not modelled: how the adapters of the providers read a response, the MCP client, the S3 backend of
-- the storage, the routes of the HTTP API and migrations; the gateway's streaming; a failing commit
-- but for the unique constraints; the renewal of a lease while its job runs, and
-- what a worker that has lost its lease writes from its copy of the job.
pub mod Base
pub mod Llm
pub mod Services
pub mod Enums
pub mod Json
pub mod Errors
pub mod Jobs
pub mod Effects
pub mod Runtime
pub mod Workflows
pub mod World
pub mod Worker
pub mod Rag
pub mod Storage
pub mod Api
pub mod Core
mod Tests
