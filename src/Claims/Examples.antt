-- ===== src/Claims/Examples.antt =====
-- A concrete claim through multinexus/agentd/execution_context.py, executor_binding.py and worker.py,
-- on the platform of the example of the lease.
use multinexus.Base.{◌≡◌, refl, String, true, none, some, [], ◌∷◌}
use multinexus.Base.Same.{same_int}
use multinexus.Base.Order.{codes_leb}
use multinexus.Base.Text.{strip, drop_while, is_space}
use multinexus.Base.Value.{
  items_length, pos, Value, Members, empty, member, get, lookup, has_keys, nil, item,
}
use Value.{null, boolean, int, text, array, object}
use multinexus.Base.Result.{ok, err}
use multinexus.Lease.{
  ExecutionLease, is_lease_id, match_all, is_digest, is_timestamp, is_label, is_label_char,
  has_control,
}
use multinexus.Lease.Validators.{
  required_string, bounded_label, lease_id_of, digest_of, timestamp_of, path_of, positive_int,
  ttl_of, max_concurrent_jobs_of, is_windows_drive, is_windows_unc, is_slash, has_drive_root,
  is_posix_absolute, is_absolute_worktree_path,
}
use multinexus.Lease.Parse.{
  has_envelope_keys, is_contract_version, parse_iso, check_times, parse_fields,
  parse_execution_lease,
}
use multinexus.Lease.Resource.{
  split_slash, resolve, join_slash, posix_normpath, normalize_posix, normalize_worktree_path,
  is_host_id, compute_resource_key,
}
use multinexus.Lease.Validate.{
  agrees_text, agrees_number, check_resource, check_context, check_binding, holds,
  validate_execution_lease,
}
use multinexus.Lease.Examples.{platform, lease, lease_members}
use multinexus.Claims.{ExecutionContext, ExecutorBinding}
use multinexus.Claims.Snapshot.{compute_context_id}
use multinexus.Claims.Validators.{
  is_of_class, is_scope_char, is_windows_absolute, is_absolute, has_traversal, has_line_break,
  segments, is_authority_path, validate_path, validate_required_string, nullable_string, is_scope,
  validate_scope, context_id_of, equals_one, is_in, legacy_scopes, legacy_scope_ids_of, is_text,
  nonempty, logs_path_of, validate_log_handle,
}
use multinexus.Claims.Fields.{nullable_value, scopes_value}
use multinexus.Claims.Parse.{
  ExpectedIdentity, agrees_expected, check_identity, parse_context_fields, parse_execution_context,
}
use multinexus.Claims.Accepted.{parse_execution_context-identified}
use multinexus.Claims.Document.{to_dict, log_handle_dict}
use multinexus.Claims.Binding.{
  is_bounded_label, validate_bounded_label, insert_sorted, sorted, capability_items,
  validate_capabilities, validate_binding_id, is_catalog_hash, validate_catalog_hash,
  validate_positive_int, compute_binding_id, check_binding_digest, parse_binding_fields,
  parse_executor_binding, validate_executor_binding,
}
use multinexus.Claims.Binding.Bound.{IsBoundTo, validate_executor_binding-IsBoundTo}
use multinexus.Claims.Response.{
  truthy, as_int, integer, positive, dictionary, same_nullable, Claim, check_job,
  validate_claim_response,
}
use multinexus.Claims.Gate.{
  refused_with, raised, Admission, Agent, on_error, present, job_of, extract_payload, lease_report,
  lease_refusal, expect_agent, expect_claim, response_of, admit_managed, admit, admit_with,
}
use multinexus.Claims.Gate.Admitted.{IsAdmitted, admit-IsAdmitted}
use multinexus.Claims.Gate.Reports.{IsReport, admit-IsReport}

abbrev digest : String
digest = "sha256:aaaaaaaaaaaaaaaaaaaaaaaaaaaaaaaaaaaaaaaaaaaaaaaaaaaaaaaaaaaaaaaa"

abbrev context : ExecutionContext
context = record {
  context_id = digest;
  job_id = "job 7";
  workspace_id = "ws";
  task_id = none;
  assigned_agent = "codex";
  host_id = "host-1";
  workspace_path = "/srv";
  worktree_path = "/srv/work";
  harness_root = "C:\\harness";
  branch = some "main";
  session_scope_id = "workspace:ws:job";
  legacy_scope_ids = "old" ∷ "older" ∷ [];
  log_handle = record { job_id = "job 7"; logs_path = some "/var/log" };
}

abbrev expected : ExpectedIdentity
expected = record { job_id = text "job 7"; workspace_id = null; assigned_agent = text "codex" }

context_accepted : parse_execution_context platform expected (object (to_dict context)) ≡ ok context
unfolding parse_execution_context parse_context_fields check_identity compute_context_id
    agrees_expected is_of_class is_scope_char is_windows_absolute is_absolute has_traversal
    has_line_break segments is_authority_path validate_path validate_required_string nullable_string
    is_scope validate_scope context_id_of equals_one items_length is_in legacy_scopes
    legacy_scope_ids_of is_text nonempty logs_path_of validate_log_handle to_dict log_handle_dict
    nullable_value scopes_value get has_keys match_all is_digest strip drop_while is_space
    split_slash
context_accepted = refl

parse_execution_context-identified_example : context ≡ context
parse_execution_context-identified_example =
    parse_execution_context-identified platform expected expected (object (to_dict context))
      (object (to_dict context)) context context context_accepted context_accepted refl (λ h. refl)

abbrev binding : ExecutorBinding
binding = record {
  binding_id = digest;
  source_id = "registry";
  source_version = 0;
  catalog_hash = "aaaaaaaaaaaaaaaaaaaaaaaaaaaaaaaaaaaaaaaaaaaaaaaaaaaaaaaaaaaaaaaa";
  executor_definition_id = "coder";
  executor_instance_id = "codex";
  runner_profile_id = "codex";
  provider = "any";
  adapter = "cli";
  capabilities = "chat" ∷ "code" ∷ [];
}

abbrev binding_members : ExecutorBinding → Members
binding_members b = member "contract_version" (int (pos 1)) (
    member "binding_id" (text b.binding_id) (
      member "source_id" (text b.source_id) (
        member "source_version" (int (pos b.source_version)) (
          member "catalog_hash" (text b.catalog_hash) (
            member "executor_definition_id" (text b.executor_definition_id) (
              member "executor_instance_id" (text b.executor_instance_id) (
                member "runner_profile_id" (text b.runner_profile_id) (
                  member "provider" (text b.provider) (
                    member "adapter" (text b.adapter) (
                      member "capabilities" (array (item (text "chat") (item (text "code") nil)))
                        empty))))))))))

binding_accepted :
    validate_executor_binding platform "codex" "cli" (object (binding_members binding))
    ≡ ok (some binding)
unfolding validate_executor_binding parse_executor_binding parse_binding_fields check_binding_digest
    compute_binding_id is_bounded_label validate_bounded_label codes_leb insert_sorted sorted
    capability_items validate_capabilities validate_binding_id is_catalog_hash validate_catalog_hash
    validate_positive_int items_length is_in get has_keys match_all is_digest strip drop_while
    is_space is_label is_label_char
binding_accepted = refl

validate_executor_binding-IsBoundTo_example :
    IsBoundTo platform "codex" "cli" (object (binding_members binding)) (some binding)
validate_executor_binding-IsBoundTo_example =
    validate_executor_binding-IsBoundTo platform "codex" "cli" (object (binding_members binding))
      (some binding) binding_accepted

abbrev agent : Agent
agent = record { id = "codex"; adapter = "cli" }

abbrev own_lease : ExecutionLease
own_lease = record lease { runner_profile_id = "codex" }

abbrev payload : Members
payload =
    member "prompt" (text "hello")
      (member "executor_binding" (object (binding_members binding)) empty)

abbrev job : Members → Members
job fields = member "id" (text "job 7") (
    member "workspace_id" (text "ws")
      (member "attempt_count" (int (pos 2)) (member "payload" (object fields) empty)))

abbrev claim_result : Members → Members
claim_result fields = member "claimed" (boolean true) (
    member "job" (object (job fields)) (
      member "attempt_token" (int (pos 2)) (
        member "execution_context" (object (to_dict context))
          (member "execution_lease" (object (lease_members own_lease)) empty))))

abbrev claim : Claim
claim = record { job = job payload; context = context; attempt_token = 2 }

claim_accepted :
    validate_claim_response platform "codex" null (response_of (claim_result payload)) ≡ ok claim
unfolding validate_claim_response check_job truthy as_int integer same_int positive dictionary
    same_nullable response_of parse_execution_context parse_context_fields check_identity
    compute_context_id agrees_expected is_of_class is_scope_char is_windows_absolute is_absolute
    has_traversal has_line_break segments is_authority_path validate_path validate_required_string
    nullable_string is_scope validate_scope context_id_of equals_one items_length is_in
    legacy_scopes legacy_scope_ids_of is_text nonempty logs_path_of validate_log_handle to_dict
    log_handle_dict nullable_value scopes_value get has_keys match_all is_digest strip drop_while
    is_space split_slash
claim_accepted = refl

abbrev admission : Admission
admission = record {
  lease = some own_lease;
  binding = some binding;
  claim = claim;
  payload = payload;
}

admitted : admit platform (λ s. none) agent (claim_result payload) ≡ ok admission
unfolding admit admit_with admit_managed on_error present job_of extract_payload expect_agent
    expect_claim lease_refusal lookup get validate_claim_response check_job truthy as_int integer
    same_int positive dictionary same_nullable response_of parse_execution_context
    parse_context_fields check_identity compute_context_id agrees_expected is_of_class is_scope_char
    is_windows_absolute is_absolute has_traversal has_line_break segments is_authority_path
    validate_path validate_required_string nullable_string is_scope validate_scope context_id_of
    equals_one items_length is_in legacy_scopes legacy_scope_ids_of is_text nonempty logs_path_of
    validate_log_handle to_dict log_handle_dict nullable_value scopes_value has_keys match_all
    is_digest strip drop_while is_space split_slash validate_executor_binding parse_executor_binding
    parse_binding_fields check_binding_digest compute_binding_id is_bounded_label
    validate_bounded_label codes_leb insert_sorted sorted capability_items validate_capabilities
    validate_binding_id is_catalog_hash validate_catalog_hash validate_positive_int is_label
    is_label_char validate_execution_lease parse_execution_lease parse_fields check_times parse_iso
    has_envelope_keys is_contract_version required_string bounded_label lease_id_of digest_of
    timestamp_of path_of positive_int ttl_of max_concurrent_jobs_of is_windows_drive is_windows_unc
    is_slash has_drive_root is_posix_absolute is_absolute_worktree_path is_lease_id is_timestamp
    has_control resolve join_slash posix_normpath normalize_posix normalize_worktree_path is_host_id
    compute_resource_key check_resource check_context check_binding agrees_text agrees_number holds
admitted = refl

admit-IsAdmitted_example : IsAdmitted platform agent (claim_result payload) admission
admit-IsAdmitted_example =
    admit-IsAdmitted platform (λ s. none) agent (claim_result payload) admission admitted

-- Without the binding in the payload, the claim fails under the identity of its lease.
unbound :
    admit platform (λ s. none) agent (claim_result empty)
    ≡ err (refused_with (lease_report own_lease own_lease.lease_id))
unfolding admit admit_with admit_managed on_error present job_of extract_payload expect_agent
    lease_report lease_refusal lookup get has_keys match_all is_digest strip drop_while is_space
    split_slash is_label is_label_char validate_execution_lease parse_execution_lease parse_fields
    check_times parse_iso has_envelope_keys is_contract_version required_string bounded_label
    lease_id_of digest_of timestamp_of path_of positive_int ttl_of max_concurrent_jobs_of
    is_windows_drive is_windows_unc is_slash has_drive_root is_posix_absolute
    is_absolute_worktree_path is_lease_id is_timestamp has_control resolve join_slash posix_normpath
    normalize_posix normalize_worktree_path is_host_id compute_resource_key check_resource
    check_context check_binding agrees_text agrees_number
unbound = refl

admit-IsReport_example :
    IsReport platform agent (claim_result empty) (lease_report own_lease own_lease.lease_id)
admit-IsReport_example =
    admit-IsReport platform (λ s. none) agent (claim_result empty)
      (lease_report own_lease own_lease.lease_id) unbound

-- A lease of a host name that ends in a line feed raises out of the worker.
escaped :
    admit platform
      (λ s. none)
      agent
      (member "execution_lease"
        (object (lease_members (record own_lease { host_id = "host-1\n" })))
        empty)
    ≡ err raised
unfolding admit admit_with on_error expect_agent lease_refusal lookup get has_keys match_all
    is_digest strip drop_while is_space split_slash is_label is_label_char validate_execution_lease
    parse_execution_lease parse_fields check_times parse_iso has_envelope_keys is_contract_version
    required_string bounded_label lease_id_of digest_of timestamp_of path_of positive_int ttl_of
    max_concurrent_jobs_of is_windows_drive is_windows_unc is_slash has_drive_root is_posix_absolute
    is_absolute_worktree_path is_lease_id is_timestamp has_control resolve join_slash posix_normpath
    normalize_posix normalize_worktree_path is_host_id compute_resource_key check_resource
    check_context check_binding agrees_text agrees_number
escaped = refl
