-- ===== src/Lease/Validate.antt =====
-- `validate_execution_lease` of multinexus/agentd/execution_lease.py.
use multinexus.Base.{ℕ, String, Bool, true, false, Option, none, some, ◌==◌, string_eq, eqb}
use multinexus.Base.Text.{codes, same_codes}
use multinexus.Base.Value.{Value, Members, get}
use Value.{text, object}
use multinexus.Base.Result.{Result, ok, err, ◌>>=◌, ◌>>◌, require}
use multinexus.Lease.{Platform, LeaseError, lease_error, resource_identity_error, ExecutionLease}
use multinexus.Lease.Parse.{parse_execution_lease}
use multinexus.Lease.Resource.{normalize_worktree_path, is_host_id, compute_resource_key}

-- The keyword arguments of `validate_execution_lease`.
pub record Expectation : Type 0 where
  pub agent_id : String
  pub job_id : Option String
  pub attempt_token : Option ℕ
  pub execution_context : Option Value
  pub executor_binding : Option Value

unfoldable pub agrees_text : Option String → String → Bool
agrees_text none s = true
agrees_text (some t) s = s == t

unfoldable pub agrees_number : Option ℕ → ℕ → Bool
agrees_number none n = true
agrees_number (some m) n = eqb n m

-- `members.get(key) == s`
unfoldable pub holds : String → String → Members → Bool
holds key s ms = elim (get key ms) [ text t ↦ t == s | _ ↦ false ]

-- `normalize_worktree_path(path) == path` and the key of the resource.
unfoldable pub check_resource : Platform → ExecutionLease → Result LeaseError (Unit {0})
check_resource p l = do
  path ← normalize_worktree_path p (codes l.normalized_path)
  require (same_codes path (codes l.normalized_path)) lease_error
  require (is_host_id (codes l.host_id)) resource_identity_error
  again ← normalize_worktree_path p (codes l.normalized_path)
  require (same_codes (compute_resource_key p (codes l.host_id) again) (codes l.resource_key))
      lease_error

unfoldable pub check_context : Option Value → ExecutionLease → Result LeaseError (Unit {0})
check_context none l = ok tt
check_context (some (object ms)) l = do
  require (holds "job_id" l.job_id ms) lease_error
  require (holds "assigned_agent" l.agent_id ms) lease_error
  require (holds "host_id" l.host_id ms) lease_error
  require (holds "worktree_path" l.normalized_path ms) lease_error
check_context (some _) l = err lease_error

unfoldable pub check_binding : Option Value → ExecutionLease → Result LeaseError (Unit {0})
check_binding none l = ok tt
check_binding (some (object ms)) l = do
  require (holds "executor_instance_id" l.agent_id ms) lease_error
  require (holds "runner_profile_id" l.runner_profile_id ms) lease_error
check_binding (some _) l = err lease_error

unfoldable pub validate_execution_lease :
    Platform → Value → Expectation → Result LeaseError ExecutionLease
unfolding agrees_text agrees_number
validate_execution_lease p envelope x = do
  l ← parse_execution_lease p envelope
  require (l.agent_id == x.agent_id) lease_error
  require (agrees_text x.job_id l.job_id) lease_error
  require (agrees_number x.attempt_token l.attempt_token) lease_error
  check_resource p l
  check_context x.execution_context l
  check_binding x.executor_binding l
  ok l
