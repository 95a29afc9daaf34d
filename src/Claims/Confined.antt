-- ===== src/Claims/Confined.antt =====
-- The authority of an accepted execution context, multinexus/agentd/execution_context.py: its paths,
-- its session scopes and its log handle.
use multinexus.Base.{◌≤◌, ◌≡◌, true, [], length}
use multinexus.Base.Text.{codes}
use multinexus.Base.Value.{Value, Members}
use multinexus.Base.Result.{ok}
use multinexus.Lease.{Platform}
use multinexus.Claims.{ExecutionContext}
use multinexus.Claims.Validators.{is_authority_path, is_scope}
use multinexus.Claims.Fields.{
  validate_path-eq-ok, validate_scope-eq-ok, AreFresh, legacy_scope_ids_of-AreFresh, IsLogsPath,
  logs_path_of-eq-ok, IsLogHandle, validate_log_handle-IsLogHandle,
}
use multinexus.Claims.Parse.{ExpectedIdentity, parse_execution_context}
use multinexus.Claims.Accepted.{
  ContextFields, IsIdentified, IsRead, IsAccepted, parse_execution_context-IsAccepted,
}

-- Absolute paths without line breaks or traversal; at most ten legacy scopes, each a safe label that is
-- neither the session scope nor another legacy scope; a log handle of the same job.
unfoldable pub IsConfined : ExecutionContext → Type 0
IsConfined c =
    (is_authority_path (codes c.workspace_path) ≡ true)
    × (is_authority_path (codes c.worktree_path) ≡ true)
    × (is_authority_path (codes c.harness_root) ≡ true)
    × (is_scope (codes c.session_scope_id) ≡ true)
    × (length c.legacy_scope_ids ≤ 10)
    × AreFresh c.session_scope_id [] c.legacy_scope_ids
    × (c.log_handle.job_id ≡ c.job_id)
    × IsLogsPath c.log_handle.logs_path

log_handle_lem :
    (c : ExecutionContext) (v : Value)
    → IsLogHandle c.job_id v c.log_handle
    → (c.log_handle.job_id ≡ c.job_id) × IsLogsPath c.log_handle.logs_path
unfolding IsLogHandle
log_handle_lem c v (ms, e1, e2, e3, e4) = (e3, (logs_path_of-eq-ok _ _ e4).1)

fields-IsConfined : (ms : Members) (c : ExecutionContext) → ContextFields ms c → IsConfined c
unfolding ContextFields IsConfined
fields-IsConfined ms c (e1, e2, e3, e4, e5, e6, e7, e8, e9, e10, e11, e12, e13) =
    let legacy = legacy_scope_ids_of-AreFresh _ _ _ e12 in
    let log = log_handle_lem c _ (validate_log_handle-IsLogHandle _ _ _ e13) in
    (
      (validate_path-eq-ok _ _ e6).1,
      (validate_path-eq-ok _ _ e7).1,
      (validate_path-eq-ok _ _ e8).1,
      (validate_scope-eq-ok _ _ e9).1,
      legacy.1,
      legacy.2,
      log.0,
      log.1,
    )

pub parse_execution_context-IsConfined :
    (p : Platform) (x : ExpectedIdentity) (v : Value) (c : ExecutionContext)
    → parse_execution_context p x v ≡ ok c
    → IsConfined c × IsIdentified p x c
unfolding IsAccepted IsRead
parse_execution_context-IsConfined p x v c h =
    let (ms, e0, e1, e2, read) = parse_execution_context-IsAccepted p x v c h in
    (fields-IsConfined ms c read.0, read.1)
