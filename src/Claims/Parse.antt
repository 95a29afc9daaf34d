-- ===== src/Claims/Parse.antt =====
-- `parse_execution_context` of multinexus/agentd/execution_context.py.
use multinexus.Base.{String, Bool, true, false, List, [], ◌∷◌, ◌==◌, string_eq}
use multinexus.Base.Text.{codes, same_codes}
use multinexus.Base.Value.{Value, Members, get, has_keys}
use Value.{null, text, object}
use multinexus.Base.Result.{Result, ok, err, ◌>>=◌, ◌>>◌, require}
use multinexus.Lease.{Platform}
use multinexus.Claims.{ClaimError, execution_context_error, ExecutionContext}
use multinexus.Claims.Snapshot.{compute_context_id}
use multinexus.Claims.Validators.{
  context_id_of, validate_required_string, validate_path, validate_scope, nullable_string,
  legacy_scope_ids_of, validate_log_handle, equals_one,
}

abbrev pub snapshot_keys : List String
snapshot_keys =
    "assigned_agent" ∷ "branch" ∷ "contract_version" ∷ "context_id" ∷ "harness_root" ∷ "host_id"
    ∷ "job_id" ∷ "legacy_scope_ids" ∷ "log_handle" ∷ "session_scope_id" ∷ "task_id"
    ∷ "worktree_path" ∷ "workspace_id" ∷ "workspace_path" ∷ []

-- The keyword arguments of `parse_execution_context`, where `null` is `None`.
pub record ExpectedIdentity : Type 0 where
  pub job_id : Value
  pub workspace_id : Value
  pub assigned_agent : Value

-- `expected is None or s == expected`
unfoldable pub agrees_expected : Value → String → Bool
agrees_expected null s = true
agrees_expected (text t) s = s == t
agrees_expected _ s = false

-- The digest, then the expected identity.
unfoldable pub check_identity :
    Platform → ExpectedIdentity → ExecutionContext → Result ClaimError ExecutionContext
check_identity p x c = do
  require (same_codes (compute_context_id p c) (codes c.context_id)) execution_context_error
  require (agrees_expected x.job_id c.job_id) execution_context_error
  require (agrees_expected x.workspace_id c.workspace_id) execution_context_error
  require (agrees_expected x.assigned_agent c.assigned_agent) execution_context_error
  ok c

-- The fields in the order in which the parser reads them.
unfoldable pub parse_context_fields :
    Platform → ExpectedIdentity → Members → Result ClaimError ExecutionContext
parse_context_fields p x ms = do
  context_id ← context_id_of (get "context_id" ms)
  job_id ← validate_required_string (get "job_id" ms)
  workspace_id ← validate_required_string (get "workspace_id" ms)
  assigned_agent ← validate_required_string (get "assigned_agent" ms)
  host_id ← validate_required_string (get "host_id" ms)
  workspace_path ← validate_path (get "workspace_path" ms)
  worktree_path ← validate_path (get "worktree_path" ms)
  harness_root ← validate_path (get "harness_root" ms)
  session_scope_id ← validate_scope (get "session_scope_id" ms)
  branch ← nullable_string (get "branch" ms)
  task_id ← nullable_string (get "task_id" ms)
  legacy_scope_ids ← legacy_scope_ids_of session_scope_id (get "legacy_scope_ids" ms)
  log_handle ← validate_log_handle job_id (get "log_handle" ms)
  check_identity p x (record {
    context_id = context_id;
    job_id = job_id;
    workspace_id = workspace_id;
    task_id = task_id;
    assigned_agent = assigned_agent;
    host_id = host_id;
    workspace_path = workspace_path;
    worktree_path = worktree_path;
    harness_root = harness_root;
    branch = branch;
    session_scope_id = session_scope_id;
    legacy_scope_ids = legacy_scope_ids;
    log_handle = log_handle;
  })

unfoldable pub parse_execution_context :
    Platform → ExpectedIdentity → Value → Result ClaimError ExecutionContext
parse_execution_context p x (object ms) = do
  require (has_keys snapshot_keys ms) execution_context_error
  require (equals_one (get "contract_version" ms)) execution_context_error
  parse_context_fields p x ms
parse_execution_context p x _ = err execution_context_error
