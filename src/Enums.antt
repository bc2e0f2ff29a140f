-- ===== src/Enums.antt =====
-- The enumerations of backend/app/models/enums.py that the modelled code branches on, each with the
-- equality that Python's `==` and `in` use.
use pack_verse.Base.{◌≡◌, ◌↔◌, Bool, true, false, arith, HasEq}

pub data JobStatus : Type 0 where
  queued running retrying completed failed cancelled : JobStatus

abbrev pub same_job_status : JobStatus → JobStatus → Bool
same_job_status JobStatus.queued JobStatus.queued = true
same_job_status JobStatus.running JobStatus.running = true
same_job_status JobStatus.retrying JobStatus.retrying = true
same_job_status JobStatus.completed JobStatus.completed = true
same_job_status JobStatus.failed JobStatus.failed = true
same_job_status JobStatus.cancelled JobStatus.cancelled = true
same_job_status _ _ = false

pub same_job_status_iff : (a b : JobStatus) → (same_job_status a b ≡ true) ↔ (a ≡ b)
same_job_status_iff a b = ground arith

instance abbrev pub job_status_eq : HasEq JobStatus
job_status_eq = record { same = same_job_status; same_iff = same_job_status_iff }

pub data AgentRunStatus : Type 0 where
  queued running completed failed cancelled : AgentRunStatus

abbrev pub same_agent_run_status : AgentRunStatus → AgentRunStatus → Bool
same_agent_run_status AgentRunStatus.queued AgentRunStatus.queued = true
same_agent_run_status AgentRunStatus.running AgentRunStatus.running = true
same_agent_run_status AgentRunStatus.completed AgentRunStatus.completed = true
same_agent_run_status AgentRunStatus.failed AgentRunStatus.failed = true
same_agent_run_status AgentRunStatus.cancelled AgentRunStatus.cancelled = true
same_agent_run_status _ _ = false

pub same_agent_run_status_iff :
    (a b : AgentRunStatus) → (same_agent_run_status a b ≡ true) ↔ (a ≡ b)
same_agent_run_status_iff a b = ground arith

instance abbrev pub agent_run_status_eq : HasEq AgentRunStatus
agent_run_status_eq = record { same = same_agent_run_status; same_iff = same_agent_run_status_iff }

pub data WorkflowRunStatus : Type 0 where
  queued running completed failed cancelled : WorkflowRunStatus

abbrev pub same_workflow_run_status : WorkflowRunStatus → WorkflowRunStatus → Bool
same_workflow_run_status WorkflowRunStatus.queued WorkflowRunStatus.queued = true
same_workflow_run_status WorkflowRunStatus.running WorkflowRunStatus.running = true
same_workflow_run_status WorkflowRunStatus.completed WorkflowRunStatus.completed = true
same_workflow_run_status WorkflowRunStatus.failed WorkflowRunStatus.failed = true
same_workflow_run_status WorkflowRunStatus.cancelled WorkflowRunStatus.cancelled = true
same_workflow_run_status _ _ = false

pub same_workflow_run_status_iff :
    (a b : WorkflowRunStatus) → (same_workflow_run_status a b ≡ true) ↔ (a ≡ b)
same_workflow_run_status_iff a b = ground arith

instance abbrev pub workflow_run_status_eq : HasEq WorkflowRunStatus
workflow_run_status_eq = record {
  same = same_workflow_run_status;
  same_iff = same_workflow_run_status_iff;
}

pub data WorkflowStepRunStatus : Type 0 where
  pending running completed failed cancelled skipped : WorkflowStepRunStatus

abbrev pub same_step_run_status : WorkflowStepRunStatus → WorkflowStepRunStatus → Bool
same_step_run_status WorkflowStepRunStatus.pending WorkflowStepRunStatus.pending = true
same_step_run_status WorkflowStepRunStatus.running WorkflowStepRunStatus.running = true
same_step_run_status WorkflowStepRunStatus.completed WorkflowStepRunStatus.completed = true
same_step_run_status WorkflowStepRunStatus.failed WorkflowStepRunStatus.failed = true
same_step_run_status WorkflowStepRunStatus.cancelled WorkflowStepRunStatus.cancelled = true
same_step_run_status WorkflowStepRunStatus.skipped WorkflowStepRunStatus.skipped = true
same_step_run_status _ _ = false

pub same_step_run_status_iff :
    (a b : WorkflowStepRunStatus) → (same_step_run_status a b ≡ true) ↔ (a ≡ b)
same_step_run_status_iff a b = ground arith

instance abbrev pub step_run_status_eq : HasEq WorkflowStepRunStatus
step_run_status_eq = record { same = same_step_run_status; same_iff = same_step_run_status_iff }

pub data AgentStatus : Type 0 where
  draft active deprecated : AgentStatus

abbrev pub same_agent_status : AgentStatus → AgentStatus → Bool
same_agent_status AgentStatus.draft AgentStatus.draft = true
same_agent_status AgentStatus.active AgentStatus.active = true
same_agent_status AgentStatus.deprecated AgentStatus.deprecated = true
same_agent_status _ _ = false

pub same_agent_status_iff : (a b : AgentStatus) → (same_agent_status a b ≡ true) ↔ (a ≡ b)
same_agent_status_iff a b = ground arith

instance abbrev pub agent_status_eq : HasEq AgentStatus
agent_status_eq = record { same = same_agent_status; same_iff = same_agent_status_iff }

pub data WorkflowStatus : Type 0 where
  draft active deprecated : WorkflowStatus

abbrev pub same_workflow_status : WorkflowStatus → WorkflowStatus → Bool
same_workflow_status WorkflowStatus.draft WorkflowStatus.draft = true
same_workflow_status WorkflowStatus.active WorkflowStatus.active = true
same_workflow_status WorkflowStatus.deprecated WorkflowStatus.deprecated = true
same_workflow_status _ _ = false

pub same_workflow_status_iff : (a b : WorkflowStatus) → (same_workflow_status a b ≡ true) ↔ (a ≡ b)
same_workflow_status_iff a b = ground arith

instance abbrev pub workflow_status_eq : HasEq WorkflowStatus
workflow_status_eq = record { same = same_workflow_status; same_iff = same_workflow_status_iff }

pub data UserRole : Type 0 where
  viewer operator admin : UserRole

abbrev pub same_user_role : UserRole → UserRole → Bool
same_user_role UserRole.viewer UserRole.viewer = true
same_user_role UserRole.operator UserRole.operator = true
same_user_role UserRole.admin UserRole.admin = true
same_user_role _ _ = false

pub same_user_role_iff : (a b : UserRole) → (same_user_role a b ≡ true) ↔ (a ≡ b)
same_user_role_iff a b = ground arith

instance abbrev pub user_role_eq : HasEq UserRole
user_role_eq = record { same = same_user_role; same_iff = same_user_role_iff }

pub data AssetStatus : Type 0 where
  pending available failed deleted : AssetStatus

abbrev pub same_asset_status : AssetStatus → AssetStatus → Bool
same_asset_status AssetStatus.pending AssetStatus.pending = true
same_asset_status AssetStatus.available AssetStatus.available = true
same_asset_status AssetStatus.failed AssetStatus.failed = true
same_asset_status AssetStatus.deleted AssetStatus.deleted = true
same_asset_status _ _ = false

pub same_asset_status_iff : (a b : AssetStatus) → (same_asset_status a b ≡ true) ↔ (a ≡ b)
same_asset_status_iff a b = ground arith

instance abbrev pub asset_status_eq : HasEq AssetStatus
asset_status_eq = record { same = same_asset_status; same_iff = same_asset_status_iff }

pub data UserStatus : Type 0 where
  pending active disabled : UserStatus

abbrev pub same_user_status : UserStatus → UserStatus → Bool
same_user_status UserStatus.pending UserStatus.pending = true
same_user_status UserStatus.active UserStatus.active = true
same_user_status UserStatus.disabled UserStatus.disabled = true
same_user_status _ _ = false

pub same_user_status_iff : (a b : UserStatus) → (same_user_status a b ≡ true) ↔ (a ≡ b)
same_user_status_iff a b = ground arith

instance abbrev pub user_status_eq : HasEq UserStatus
user_status_eq = record { same = same_user_status; same_iff = same_user_status_iff }

pub data LlmRequestStatus : Type 0 where
  pending succeeded failed : LlmRequestStatus

pub data StorageProvider : Type 0 where
  local s3 : StorageProvider

pub data ProductStatus : Type 0 where
  draft active archived : ProductStatus

pub data ProductType : Type 0 where
  brand_kit prompt_pack texture_pack svg_pack mockup_pack preset_pack tattoo_pack : ProductType
  stl_pack : ProductType
