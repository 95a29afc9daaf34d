-- ===== src/Claims.antt =====
-- The authority that a claimed job carries: the execution context of
-- multinexus/agentd/execution_context.py, the executor binding of
-- multinexus/agentd/executor_binding.py, and the admission of a claim in
-- multinexus/agentd/worker.py.
use multinexus.Base.{ℕ, String, Option, List}
pub mod Snapshot
pub mod Validators
pub mod Parse
pub mod Fields
pub mod Accepted
pub mod Confined
pub mod Document
pub mod Binding
pub mod Response
pub mod Gate
mod Examples

-- `ExecutionContextError` and `ExecutorBindingError`
pub data ClaimError : Type 0 where
  execution_context_error executor_binding_error : ClaimError

-- The `log_handle`; its `kind` is always `coordinate_job`.
pub record LogHandle : Type 0 where
  pub job_id : String
  pub logs_path : Option String

pub record ExecutionContext : Type 0 where
  pub context_id : String
  pub job_id : String
  pub workspace_id : String
  pub task_id : Option String
  pub assigned_agent : String
  pub host_id : String
  pub workspace_path : String
  pub worktree_path : String
  pub harness_root : String
  pub branch : Option String
  pub session_scope_id : String
  pub legacy_scope_ids : List String
  pub log_handle : LogHandle

pub record ExecutorBinding : Type 0 where
  pub binding_id : String
  pub source_id : String
  pub source_version : ℕ
  pub catalog_hash : String
  pub executor_definition_id : String
  pub executor_instance_id : String
  pub runner_profile_id : String
  pub provider : String
  pub adapter : String
  pub capabilities : List String
