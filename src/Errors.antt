-- ===== src/Errors.antt =====
-- The exception classes of backend/app/jobs/exceptions.py, runtime/exceptions.py,
-- workflows/exceptions.py, llm/exceptions.py, mcp/exceptions.py and services/exceptions.py. A
-- constructor is a class, its fields are what the class keeps; of a message's text only what tells
-- it from the others is kept. `class_name` is `type(exc).__name__`.
use pack_verse.Base.{ℕ, String, Bool, true, false}
use pack_verse.Base.Int.{ℤ}
use pack_verse.Enums.{JobStatus, AgentRunStatus, WorkflowRunStatus, WorkflowStepRunStatus}

pub data JobDomainError : Type 0 where
  job_not_found : ℕ → JobDomainError
  invalid_job_transition : JobStatus → JobStatus → JobDomainError
  job_already_running : ℕ → JobDomainError

pub data McpError : Type 0 where
  mcp_server_not_configured mcp_connection mcp_timeout mcp_protocol : String → McpError
  mcp_tool_call : String → String → McpError

-- `RuntimeDomainError` itself is raised with three texts: no owning user, a tool call with no
-- `mcp_server`, and an `MCPError` that is re-raised.
pub data RuntimeDomainError : Type 0 where
  no_owning_user no_mcp_server : ℕ → RuntimeDomainError
  from_mcp : McpError → RuntimeDomainError
  agent_not_found agent_not_active agent_run_not_found : ℕ → RuntimeDomainError
  agent_configuration : ℕ → RuntimeDomainError
  tool_loop_limit_exceeded : ℕ → ℕ → RuntimeDomainError
  invalid_run_transition : AgentRunStatus → AgentRunStatus → RuntimeDomainError

-- The `detail` texts of `WorkflowDefinitionInvalidError`.
pub data DefinitionProblem : Type 0 where
  no_steps step_not_object missing_step_id : DefinitionProblem
  duplicate_step_id bad_order missing_name agent_id_not_string agent_id_not_uuid :
      String → DefinitionProblem
  duplicate_order : ℤ → DefinitionProblem
  mapping_not_object unsupported_source previous_on_first : String → DefinitionProblem
  missing_reference self_reference static_not_string : String → DefinitionProblem
  not_earlier : String → String → DefinitionProblem

pub data WorkflowDomainError : Type 0 where
  workflow_not_found workflow_not_active workflow_run_not_found : ℕ → WorkflowDomainError
  definition_invalid : ℕ → DefinitionProblem → WorkflowDomainError
  invalid_workflow_run_transition : WorkflowRunStatus → WorkflowRunStatus → WorkflowDomainError
  invalid_step_run_transition : WorkflowStepRunStatus → WorkflowStepRunStatus → WorkflowDomainError
  input_resolution : String → WorkflowDomainError
  cancelled_during_execution : ℕ → WorkflowDomainError

pub data LlmError : Type 0 where
  llm_provider_not_configured llm_authentication llm_rate_limit llm_timeout : String → LlmError
  llm_provider_unavailable llm_invalid_request llm_embedding_not_supported : String → LlmError
  llm_response : String → LlmError
  llm_unsupported_model : String → String → LlmError
  llm_structured_output : LlmError

-- `retryable`, the class attribute
abbrev pub retryable : LlmError → Bool
retryable (llm_rate_limit _) = true
retryable (llm_timeout _) = true
retryable (llm_provider_unavailable _) = true
retryable _ = false

-- storage/exceptions.py
pub data StorageError : Type 0 where
  storage_not_found storage_write_failed storage_delete_failed : String → StorageError
  storage_unavailable : StorageError

-- rag/exceptions.py
pub data ExtractionError : Type 0 where
  unsupported_content_type : String → ExtractionError
  text_decoding pdf_extraction : ExtractionError

-- services/exceptions.py
pub data DomainError : Type 0 where
  product_not_found user_not_found llm_request_not_found : ℕ → DomainError
  duplicate_slug duplicate_email : String → DomainError
  invalid_credentials empty_file invalid_filename empty_query : DomainError
  unsupported_file_type : String → DomainError
  file_too_large : ℕ → ℕ → DomainError
  asset_not_found asset_deleted asset_not_ingestable asset_already_ingested : ℕ → DomainError
  asset_storage_failed : String → DomainError
  extraction_failed empty_extracted_text : ℕ → DomainError
  embedding_mismatch : ℕ → ℕ → ℕ → DomainError
  ingestion_already_queued : ℕ → DomainError

-- Any exception: one of the hierarchies, or another class, by its name.
pub data Exn : Type 0 where
  job : JobDomainError → Exn
  runtime : RuntimeDomainError → Exn
  workflow : WorkflowDomainError → Exn
  llm : LlmError → Exn
  mcp : McpError → Exn
  domain : DomainError → Exn
  other : String → Exn

abbrev pub runtime_name : RuntimeDomainError → String
runtime_name (agent_not_found _) = "AgentNotFoundError"
runtime_name (agent_not_active _) = "AgentNotActiveError"
runtime_name (agent_configuration _) = "AgentConfigurationError"
runtime_name (agent_run_not_found _) = "AgentRunNotFoundError"
runtime_name (tool_loop_limit_exceeded _ _) = "ToolLoopLimitExceededError"
runtime_name (invalid_run_transition _ _) = "InvalidRunTransitionError"
runtime_name _ = "RuntimeDomainError"

abbrev pub workflow_name : WorkflowDomainError → String
workflow_name (workflow_not_found _) = "WorkflowNotFoundError"
workflow_name (workflow_not_active _) = "WorkflowNotActiveError"
workflow_name (workflow_run_not_found _) = "WorkflowRunNotFoundError"
workflow_name (definition_invalid _ _) = "WorkflowDefinitionInvalidError"
workflow_name (invalid_workflow_run_transition _ _) = "InvalidWorkflowRunTransitionError"
workflow_name (invalid_step_run_transition _ _) = "InvalidStepRunTransitionError"
workflow_name (input_resolution _) = "WorkflowInputResolutionError"
workflow_name (cancelled_during_execution _) = "WorkflowRunCancelledDuringExecutionError"

abbrev pub llm_name : LlmError → String
llm_name (llm_provider_not_configured _) = "LLMProviderNotConfigured"
llm_name (llm_authentication _) = "LLMAuthenticationError"
llm_name (llm_rate_limit _) = "LLMRateLimitError"
llm_name (llm_timeout _) = "LLMTimeoutError"
llm_name (llm_provider_unavailable _) = "LLMProviderUnavailable"
llm_name (llm_invalid_request _) = "LLMInvalidRequest"
llm_name (llm_embedding_not_supported _) = "LLMEmbeddingNotSupported"
llm_name (llm_response _) = "LLMResponseError"
llm_name (llm_unsupported_model _ _) = "LLMUnsupportedModel"
llm_name llm_structured_output = "LLMStructuredOutputError"

abbrev pub mcp_name : McpError → String
mcp_name (mcp_server_not_configured _) = "MCPServerNotConfigured"
mcp_name (mcp_connection _) = "MCPConnectionError"
mcp_name (mcp_timeout _) = "MCPTimeoutError"
mcp_name (mcp_protocol _) = "MCPProtocolError"
mcp_name (mcp_tool_call _ _) = "MCPToolCallError"

abbrev pub domain_name : DomainError → String
domain_name (product_not_found _) = "ProductNotFoundError"
domain_name (user_not_found _) = "UserNotFoundError"
domain_name (llm_request_not_found _) = "LLMRequestNotFoundError"
domain_name (duplicate_slug _) = "DuplicateSlugError"
domain_name (duplicate_email _) = "DuplicateEmailError"
domain_name invalid_credentials = "InvalidCredentialsError"
domain_name empty_file = "EmptyFileError"
domain_name invalid_filename = "InvalidFilenameError"
domain_name empty_query = "EmptyQueryError"
domain_name (unsupported_file_type _) = "UnsupportedFileTypeError"
domain_name (file_too_large _ _) = "FileTooLargeError"
domain_name (asset_not_found _) = "AssetNotFoundError"
domain_name (asset_deleted _) = "AssetDeletedError"
domain_name (asset_not_ingestable _) = "AssetNotIngestableError"
domain_name (asset_already_ingested _) = "AssetAlreadyIngestedError"
domain_name (asset_storage_failed _) = "AssetStorageOperationFailedError"
domain_name (extraction_failed _) = "IngestionExtractionFailedError"
domain_name (empty_extracted_text _) = "EmptyExtractedTextError"
domain_name (embedding_mismatch _ _ _) = "IngestionEmbeddingMismatchError"
domain_name (ingestion_already_queued _) = "AssetIngestionAlreadyQueuedError"

abbrev pub job_error_name : JobDomainError → String
job_error_name (job_not_found _) = "JobNotFoundError"
job_error_name (invalid_job_transition _ _) = "InvalidJobTransitionError"
job_error_name (job_already_running _) = "JobAlreadyRunningError"

abbrev pub class_name : Exn → String
class_name (job e) = job_error_name e
class_name (runtime e) = runtime_name e
class_name (workflow e) = workflow_name e
class_name (llm e) = llm_name e
class_name (mcp e) = mcp_name e
class_name (domain e) = domain_name e
class_name (other name) = name
