-- ===== src/Claims/Document.antt =====
-- `ExecutionContextV1.to_dict` of multinexus/agentd/execution_context.py, and its round trip through
-- the parser.
use mathlib.Core.Path.{sym}
use multinexus.Base.{◌≡◌, ap, ◌∙◌, refl, true, String, ==_iff, string_eq}
use multinexus.Base.Text.{eq-same_codes}
use multinexus.Base.Value.{pos, Value, Members, empty, member, get, has_keys}
use Value.{int, text, array, object}
use multinexus.Base.Result.{ok, bind_ok, require_ok}
use multinexus.Lease.{Platform}
use multinexus.Claims.{execution_context_error, LogHandle, ExecutionContext}
use multinexus.Claims.Validators.{
  context_id_of, validate_required_string, validate_path, validate_scope, nullable_string,
  legacy_scope_ids_of, validate_log_handle, logs_path_of, nonempty, is_text, equals_one,
}
use multinexus.Claims.Fields.{
  context_id_of-eq-ok, validate_required_string-eq-ok, validate_path-eq-ok, validate_scope-eq-ok,
  nullable_string-eq-ok, nullable_value, scopes_value, legacy_scope_ids_of-AreFresh, nonempty-eq-ok,
  logs_path_of-eq-ok, IsLogHandle, validate_log_handle-IsLogHandle,
}
use multinexus.Claims.Parse.{
  ExpectedIdentity, check_identity, parse_context_fields, parse_execution_context, snapshot_keys,
}
use multinexus.Claims.Accepted.{
  ContextFields, IsIdentified, IsRead, IsAccepted, parse_execution_context-IsAccepted,
}

unfoldable pub log_handle_dict : LogHandle → Members
log_handle_dict h =
    member "kind" (text "coordinate_job")
      (member "job_id" (text h.job_id) (member "logs_path" (nullable_value h.logs_path) empty))

unfoldable pub to_dict : ExecutionContext → Members
to_dict c = member "contract_version" (int (pos 1)) (
    member "context_id" (text c.context_id) (
      member "job_id" (text c.job_id) (
        member "workspace_id" (text c.workspace_id) (
          member "task_id" (nullable_value c.task_id) (
            member "assigned_agent" (text c.assigned_agent) (
              member "host_id" (text c.host_id) (
                member "workspace_path" (text c.workspace_path) (
                  member "worktree_path" (text c.worktree_path) (
                    member "harness_root" (text c.harness_root) (
                      member "branch" (nullable_value c.branch) (
                        member "session_scope_id" (text c.session_scope_id) (
                          member "legacy_scope_ids" (array (scopes_value c.legacy_scope_ids)) (
                            member "log_handle" (object (log_handle_dict c.log_handle))
                              empty)))))))))))))

again {ℓ} : {A B : Type ℓ} (f : A → B) {v w : A} {b : B} → v ≡ w → f v ≡ b → f w ≡ b
again f e h = sym (ap f e) ∙ h

log_handle-again :
    (job : String) (v : Value) (l : LogHandle)
    → IsLogHandle job v l
    → validate_log_handle job (object (log_handle_dict l)) ≡ ok l
unfolding IsLogHandle validate_log_handle log_handle_dict has_keys get is_text
log_handle-again job v l (ms, e0, e1, e2, e3) = require_ok _ execution_context_error _ refl (
    require_ok _ execution_context_error _ refl (
      bind_ok _ _ (again nonempty (nonempty-eq-ok _ _ e1) e1) (
        require_ok _ _ _ ((==_iff _ _).1 e2)
          (bind_ok _ _ (again logs_path_of (logs_path_of-eq-ok _ _ e3).0 e3) refl))))

fields-again :
    (ms : Members) (c : ExecutionContext) → ContextFields ms c → ContextFields (to_dict c) c
unfolding ContextFields to_dict get
fields-again ms c (e1, e2, e3, e4, e5, e6, e7, e8, e9, e10, e11, e12, e13) = (
  again context_id_of (context_id_of-eq-ok _ _ e1) e1,
  again validate_required_string (validate_required_string-eq-ok _ _ e2) e2,
  again validate_required_string (validate_required_string-eq-ok _ _ e3) e3,
  again validate_required_string (validate_required_string-eq-ok _ _ e4) e4,
  again validate_required_string (validate_required_string-eq-ok _ _ e5) e5,
  again validate_path (validate_path-eq-ok _ _ e6).0 e6,
  again validate_path (validate_path-eq-ok _ _ e7).0 e7,
  again validate_path (validate_path-eq-ok _ _ e8).0 e8,
  again validate_scope (validate_scope-eq-ok _ _ e9).0 e9,
  again nullable_string (nullable_string-eq-ok _ _ e10) e10,
  again nullable_string (nullable_string-eq-ok _ _ e11) e11,
  again (legacy_scope_ids_of c.session_scope_id) (legacy_scope_ids_of-AreFresh _ _ _ e12).0 e12,
  log_handle-again _ _ _ (validate_log_handle-IsLogHandle _ _ _ e13),
)

check_identity-again :
    (p : Platform) (x : ExpectedIdentity) (c : ExecutionContext)
    → IsIdentified p x c
    → check_identity p x c ≡ ok c
unfolding IsIdentified check_identity
check_identity-again p x c (e1, e2, e3, e4) =
    require_ok _ _ _ (eq-same_codes _ _ e1)
      (require_ok _ _ _ e2 (require_ok _ _ _ e3 (require_ok _ _ _ e4 refl)))

fields-parse :
    (p : Platform) (x : ExpectedIdentity) (ms : Members) (c : ExecutionContext)
    → ContextFields ms c
    → IsIdentified p x c
    → parse_context_fields p x ms ≡ ok c
unfolding ContextFields parse_context_fields
fields-parse p x ms c (e1, e2, e3, e4, e5, e6, e7, e8, e9, e10, e11, e12, e13) identity =
    bind_ok _ _ e1 (
      bind_ok _ _ e2 (
        bind_ok _ _ e3 (
          bind_ok _ _ e4 (
            bind_ok _ _ e5 (
              bind_ok _ _ e6 (
                bind_ok _ _ e7 (
                  bind_ok _ _ e8 (
                    bind_ok _ _ e9 (
                      bind_ok _ _ e10 (
                        bind_ok _ _ e11 (
                          bind_ok _ _ e12
                            (bind_ok _ _ e13 (check_identity-again p x c identity)))))))))))))

to_dict-keys : (c : ExecutionContext) → has_keys snapshot_keys (to_dict c) ≡ true
unfolding has_keys to_dict
to_dict-keys c = refl

version : (c : ExecutionContext) → equals_one (get "contract_version" (to_dict c)) ≡ true
unfolding equals_one to_dict get
version c = refl

-- The dictionary of an accepted context is accepted again, under the same expected identity, as the
-- same context.
pub parse_execution_context-to_dict :
    (p : Platform) (x : ExpectedIdentity) (v : Value) (c : ExecutionContext)
    → parse_execution_context p x v ≡ ok c
    → parse_execution_context p x (object (to_dict c)) ≡ ok c
unfolding IsAccepted IsRead
parse_execution_context-to_dict p x v c h =
    let (ms, e0, e1, e2, read) = parse_execution_context-IsAccepted p x v c h in
    unfold parse_execution_context in
    require_ok _ _ _ (to_dict-keys c) (
      require_ok _ _ _ (version c)
        (fields-parse p x (to_dict c) c (fields-again ms c read.0) read.1))
