-- ===== src/Lease/Examples.antt =====
-- A concrete lease through multinexus/agentd/execution_lease.py, on a platform that knows three dates,
-- leaves normal texts as they are and has one digest.
use multinexus.Base.{
  ℕ, ◌≡◌, refl, String, true, Option, none, some, [], ◌∷◌, ◌==◌, string_eq, if◌then◌else◌,
}
use multinexus.Base.Text.{codes, is_digit, is_ascii_letter, strip, drop_while, is_space}
use multinexus.Base.Value.{pos, Value, Members, empty, member, get, has_keys}
use Value.{int, text, object}
use multinexus.Base.Result.{ok, err}
use multinexus.Lease.{
  Platform, resource_identity_error, ExecutionLease, is_lease_id, match_all, is_digest,
  is_timestamp, is_label, is_label_char, has_control, times,
}
use multinexus.Lease.Validators.{
  required_string, bounded_label, lease_id_of, digest_of, timestamp_of, path_of, positive_int,
  ttl_of, max_concurrent_jobs_of, is_windows_drive, is_windows_unc, is_slash, has_drive_root,
  is_posix_absolute, is_absolute_worktree_path,
}
use multinexus.Lease.Parse.{
  has_envelope_keys, is_contract_version, parse_iso, check_times, parse_fields,
  parse_execution_lease,
}
use multinexus.Lease.Resource.{
  split_slash, resolve, join_slash, posix_normpath, normalize_posix, normalize_worktree_path,
  is_host_id, compute_resource_key,
}
use multinexus.Lease.Validate.{
  Expectation, agrees_text, agrees_number, check_resource, check_context, check_binding,
  validate_execution_lease,
}
use multinexus.Lease.Accepted.{IsResource, IsExpected, validate-IsExpected}
use multinexus.Lease.Bounds.{IsBounded, IsRunning}

abbrev pub date_of : String → Option ℕ
date_of s =
    if s == "2026-01-01T00:00:00Z"
    then some 1000
    else if s == "2026-01-01T00:00:10Z"
    then some 1010
    else if s == "2026-01-01T00:01:00Z"
    then some 1060
    else none

abbrev pub platform : Platform
platform = record {
  is_decimal = is_digit;
  is_alpha = is_ascii_letter;
  strptime = date_of;
  ntpath_normpath = λ s. s;
  nfc = λ s. s;
  lower = λ c. c ∷ [];
  casefold = λ s. s;
  sha256_hex = λ s. times 64 b'a' [];
}

abbrev pub lease : ExecutionLease
lease = record {
  lease_id = "01234567-89ab-cdef-0123-456789abcdef";
  job_id = "job 7";
  attempt_token = 2;
  agent_id = "codex";
  runner_profile_id = "default";
  host_id = "host-1";
  resource_kind = "worktree";
  resource_key = "sha256:aaaaaaaaaaaaaaaaaaaaaaaaaaaaaaaaaaaaaaaaaaaaaaaaaaaaaaaaaaaaaaaa";
  normalized_path = "/srv/work";
  capacity_policy_id = "sha256:aaaaaaaaaaaaaaaaaaaaaaaaaaaaaaaaaaaaaaaaaaaaaaaaaaaaaaaaaaaaaaaa";
  max_concurrent_jobs = 1;
  acquired_at = "2026-01-01T00:00:00Z";
  expires_at = "2026-01-01T00:01:00Z";
  server_now = "2026-01-01T00:00:10Z";
  ttl_seconds = 60;
  renew_interval_seconds = 20;
}

abbrev pub lease_members : ExecutionLease → Members
lease_members l = member "contract_version" (int (pos 1)) (
    member "lease_id" (text l.lease_id) (
      member "job_id" (text l.job_id) (
        member "attempt_token" (int (pos l.attempt_token)) (
          member "agent_id" (text l.agent_id) (
            member "runner_profile_id" (text l.runner_profile_id) (
              member "host_id" (text l.host_id) (
                member "resource_kind" (text l.resource_kind) (
                  member "resource_key" (text l.resource_key) (
                    member "normalized_path" (text l.normalized_path) (
                      member "capacity_policy_id" (text l.capacity_policy_id) (
                        member "max_concurrent_jobs" (int (pos l.max_concurrent_jobs)) (
                          member "acquired_at" (text l.acquired_at) (
                            member "expires_at" (text l.expires_at) (
                              member "server_now" (text l.server_now) (
                                member "ttl_seconds" (int (pos l.ttl_seconds)) (
                                  member "renew_interval_seconds"
                                    (int (pos l.renew_interval_seconds)) empty))))))))))))))))

abbrev claim : Expectation
claim = record {
  agent_id = "codex";
  job_id = some "job 7";
  attempt_token = some 2;
  execution_context = none;
  executor_binding = none;
}

lease_accepted : validate_execution_lease platform (object (lease_members lease)) claim ≡ ok lease
unfolding validate_execution_lease parse_execution_lease parse_fields check_times parse_iso
    has_envelope_keys is_contract_version required_string bounded_label lease_id_of digest_of
    timestamp_of path_of positive_int ttl_of max_concurrent_jobs_of is_windows_drive is_windows_unc
    is_slash has_drive_root is_posix_absolute is_absolute_worktree_path is_lease_id match_all
    is_digest is_timestamp is_label is_label_char has_control strip drop_while is_space split_slash
    resolve join_slash posix_normpath normalize_posix normalize_worktree_path is_host_id
    compute_resource_key check_resource check_context check_binding get agrees_text agrees_number
    has_keys
lease_accepted = refl

validate-IsExpected_example :
    IsBounded lease × IsRunning platform lease × IsResource platform lease × IsExpected claim lease
validate-IsExpected_example =
    validate-IsExpected platform (object (lease_members lease)) claim lease lease_accepted

-- A host name that ends in a line feed passes the pattern of labels and is refused by the check of the
-- resource, with the other error.
host_feed :
    validate_execution_lease platform
      (object (lease_members (record lease { host_id = "host-1\n" })))
      claim
    ≡ err resource_identity_error
unfolding validate_execution_lease parse_execution_lease parse_fields check_times parse_iso
    has_envelope_keys is_contract_version required_string bounded_label lease_id_of digest_of
    timestamp_of path_of positive_int ttl_of max_concurrent_jobs_of is_windows_drive is_windows_unc
    is_slash has_drive_root is_posix_absolute is_absolute_worktree_path is_lease_id match_all
    is_digest is_timestamp is_label is_label_char has_control strip drop_while is_space split_slash
    resolve join_slash posix_normpath normalize_posix normalize_worktree_path is_host_id
    compute_resource_key check_resource check_context check_binding get agrees_text agrees_number
    has_keys
host_feed = refl

-- So does a lease identity.
id_feed : is_lease_id (codes "01234567-89ab-cdef-0123-456789abcdef\n") ≡ true
unfolding is_lease_id match_all
id_feed = refl
