-- ===== src/Lease/Parse.antt =====
-- `parse_execution_lease` of multinexus/agentd/execution_lease.py and what an accepted envelope is.
use mathlib.Core.Path.{subst, sym}
use multinexus.Base.{
  ℕ, ◌-◌, ◌<◌, ◌≡◌, String, Bool, false, ◌&&◌, none, some, List, [], ◌∷◌, ◌==◌, ==_iff, string_eq,
  ltb, ltb→lt, leb, eqb,
}
use multinexus.Base.Value.{pos, Value, Members, get, has_keys}
use Value.{int, object}
use multinexus.Base.Result.{Result, ok, err, ◌>>=◌, ◌>>◌, require, after_bind, after_require}
use multinexus.Lease.{Platform, LeaseError, lease_error, ExecutionLease}
use multinexus.Lease.Validators.{
  required_string, bounded_label, lease_id_of, digest_of, timestamp_of, path_of, positive_int,
  ttl_of, max_concurrent_jobs_of,
}

abbrev pub envelope_keys : List String
envelope_keys =
    "contract_version" ∷ "lease_id" ∷ "job_id" ∷ "attempt_token" ∷ "agent_id" ∷ "runner_profile_id"
    ∷ "host_id" ∷ "resource_kind" ∷ "resource_key" ∷ "normalized_path" ∷ "capacity_policy_id"
    ∷ "max_concurrent_jobs" ∷ "acquired_at" ∷ "expires_at" ∷ "server_now" ∷ "ttl_seconds"
    ∷ "renew_interval_seconds" ∷ []

-- `set(data.keys()) == _V1_ENVELOPE_KEYS`
unfoldable pub has_envelope_keys : Members → Bool
has_envelope_keys ms = has_keys envelope_keys ms

unfoldable pub is_contract_version : Value → Bool
is_contract_version (int (pos n)) = eqb n 1
is_contract_version _ = false

-- `_parse_iso` on a text that `_validate_timestamp` has accepted, so that it does not fail.
unfoldable pub parse_iso : Platform → String → Result LeaseError ℕ
parse_iso p s = elim (p.strptime s) [ none ↦ err lease_error | some n ↦ ok n ]

-- `acquired_dt <= server_dt < expires_dt`, and the interval is `ttl_seconds`.
unfoldable pub check_times : Platform → ExecutionLease → Result LeaseError ExecutionLease
check_times p l = do
  acquired ← parse_iso p l.acquired_at
  expires ← parse_iso p l.expires_at
  server ← parse_iso p l.server_now
  require (leb acquired server && ltb server expires) lease_error
  require (eqb (expires - acquired) l.ttl_seconds) lease_error
  ok l

-- The fields in the order in which the parser reads them.
unfoldable pub parse_fields : Platform → Members → Result LeaseError ExecutionLease
parse_fields p ms = do
  lease_id ← lease_id_of (get "lease_id" ms)
  job_id ← required_string (get "job_id" ms)
  attempt_token ← positive_int (get "attempt_token" ms)
  agent_id ← bounded_label (get "agent_id" ms)
  runner_profile_id ← bounded_label (get "runner_profile_id" ms)
  host_id ← bounded_label (get "host_id" ms)
  resource_kind ← bounded_label (get "resource_kind" ms)
  require (resource_kind == "worktree") lease_error
  resource_key ← digest_of (get "resource_key" ms)
  normalized_path ← path_of p (get "normalized_path" ms)
  capacity_policy_id ← digest_of (get "capacity_policy_id" ms)
  max_concurrent_jobs ← max_concurrent_jobs_of (get "max_concurrent_jobs" ms)
  acquired_at ← timestamp_of p (get "acquired_at" ms)
  expires_at ← timestamp_of p (get "expires_at" ms)
  server_now ← timestamp_of p (get "server_now" ms)
  ttl_seconds ← ttl_of (get "ttl_seconds" ms)
  renew_interval_seconds ← positive_int (get "renew_interval_seconds" ms)
  require (ltb renew_interval_seconds ttl_seconds) lease_error
  check_times p (record {
    lease_id = lease_id;
    job_id = job_id;
    attempt_token = attempt_token;
    agent_id = agent_id;
    runner_profile_id = runner_profile_id;
    host_id = host_id;
    resource_kind = resource_kind;
    resource_key = resource_key;
    normalized_path = normalized_path;
    capacity_policy_id = capacity_policy_id;
    max_concurrent_jobs = max_concurrent_jobs;
    acquired_at = acquired_at;
    expires_at = expires_at;
    server_now = server_now;
    ttl_seconds = ttl_seconds;
    renew_interval_seconds = renew_interval_seconds;
  })

unfoldable pub parse_execution_lease : Platform → Value → Result LeaseError ExecutionLease
parse_execution_lease p (object ms) = do
  require (has_envelope_keys ms) lease_error
  require (is_contract_version (get "contract_version" ms)) lease_error
  parse_fields p ms
parse_execution_lease p _ = err lease_error

-- Each field that was read, under the validator of its key.
unfoldable pub FieldsOf : Platform → Members → ExecutionLease → Type 0
FieldsOf p ms l =
    (lease_id_of (get "lease_id" ms) ≡ ok l.lease_id)
    × (required_string (get "job_id" ms) ≡ ok l.job_id)
    × (positive_int (get "attempt_token" ms) ≡ ok l.attempt_token)
    × (bounded_label (get "agent_id" ms) ≡ ok l.agent_id)
    × (bounded_label (get "runner_profile_id" ms) ≡ ok l.runner_profile_id)
    × (bounded_label (get "host_id" ms) ≡ ok l.host_id)
    × (l.resource_kind ≡ "worktree")
    × (digest_of (get "resource_key" ms) ≡ ok l.resource_key)
    × (path_of p (get "normalized_path" ms) ≡ ok l.normalized_path)
    × (digest_of (get "capacity_policy_id" ms) ≡ ok l.capacity_policy_id)
    × (max_concurrent_jobs_of (get "max_concurrent_jobs" ms) ≡ ok l.max_concurrent_jobs)
    × (ttl_of (get "ttl_seconds" ms) ≡ ok l.ttl_seconds)
    × (positive_int (get "renew_interval_seconds" ms) ≡ ok l.renew_interval_seconds)
    × (l.renew_interval_seconds < l.ttl_seconds)
    × (check_times p l ≡ ok l)

check_times-same : (p : Platform) (l l' : ExecutionLease) → check_times p l ≡ ok l' → l ≡ l'
unfolding check_times
check_times-same p l l' h = after_bind (parse_iso p l.acquired_at) _ h λ acquired e1 h1.
    after_bind (parse_iso p l.expires_at) _ h1 λ expires e2 h2.
      after_bind (parse_iso p l.server_now) _ h2 λ server e3 h3.
        after_require (leb acquired server && ltb server expires) lease_error _ h3 λ e4 h4.
          after_require (eqb (expires - acquired) l.ttl_seconds) lease_error _ h4 λ e5 h5. cc

fields_lem :
    (p : Platform) (ms : Members) (l l' : ExecutionLease)
    → check_times p l ≡ ok l'
    → lease_id_of (get "lease_id" ms) ≡ ok l.lease_id
    → required_string (get "job_id" ms) ≡ ok l.job_id
    → positive_int (get "attempt_token" ms) ≡ ok l.attempt_token
    → bounded_label (get "agent_id" ms) ≡ ok l.agent_id
    → bounded_label (get "runner_profile_id" ms) ≡ ok l.runner_profile_id
    → bounded_label (get "host_id" ms) ≡ ok l.host_id
    → l.resource_kind ≡ "worktree"
    → digest_of (get "resource_key" ms) ≡ ok l.resource_key
    → path_of p (get "normalized_path" ms) ≡ ok l.normalized_path
    → digest_of (get "capacity_policy_id" ms) ≡ ok l.capacity_policy_id
    → max_concurrent_jobs_of (get "max_concurrent_jobs" ms) ≡ ok l.max_concurrent_jobs
    → ttl_of (get "ttl_seconds" ms) ≡ ok l.ttl_seconds
    → positive_int (get "renew_interval_seconds" ms) ≡ ok l.renew_interval_seconds
    → l.renew_interval_seconds < l.ttl_seconds
    → FieldsOf p ms l'
fields_lem p ms l l' h a b c d e f g i j k m n o q =
    let same = check_times-same p l l' h in
    subst (FieldsOf p ms) same (
      unfold FieldsOf in
      (a, b, c, d, e, f, g, i, j, k, m, n, o, q, subst (λ r. check_times p l ≡ ok r) (sym same) h))

pub parse_fields-FieldsOf :
    (p : Platform) (ms : Members) (l : ExecutionLease) → parse_fields p ms ≡ ok l → FieldsOf p ms l
unfolding parse_fields
parse_fields-FieldsOf p ms l h = after_bind (lease_id_of (get "lease_id" ms)) _ h λ lease_id e1 h1.
    after_bind (required_string (get "job_id" ms)) _ h1 λ job_id e2 h2.
      after_bind (positive_int (get "attempt_token" ms)) _ h2 λ attempt e3 h3.
        after_bind (bounded_label (get "agent_id" ms)) _ h3 λ agent e4 h4.
          after_bind (bounded_label (get "runner_profile_id" ms)) _ h4 λ profile e5 h5.
            after_bind (bounded_label (get "host_id" ms)) _ h5 λ host e6 h6.
              after_bind (bounded_label (get "resource_kind" ms)) _ h6 λ kind e7 h7.
                after_require (kind == "worktree") lease_error _ h7 λ e8 h8.
                  after_bind (digest_of (get "resource_key" ms)) _ h8 λ key e9 h9.
                    after_bind (path_of p (get "normalized_path" ms)) _ h9 λ path e10 h10.
                      after_bind (digest_of (get "capacity_policy_id" ms)) _ h10 λ policy e11 h11.
                        after_bind (max_concurrent_jobs_of (get "max_concurrent_jobs" ms)) _ h11
                          λ jobs e12 h12.
                            after_bind (timestamp_of p (get "acquired_at" ms)) _ h12
                              λ acquired e13 h13.
                                after_bind (timestamp_of p (get "expires_at" ms)) _ h13
                                  λ expires e14 h14.
                                    after_bind (timestamp_of p (get "server_now" ms)) _ h14
                                      λ now e15 h15.
                                        after_bind (ttl_of (get "ttl_seconds" ms)) _ h15
                                          λ ttl e16 h16.
                                            after_bind
                                              (positive_int (get "renew_interval_seconds" ms)) _ h16
                                              λ renew e17 h17.
                                                after_require (ltb renew ttl) lease_error _ h17
                                                  λ e18 h18.
                                                    fields_lem p ms _ l h18 e1 e2 e3 e4 e5 e6
                                                      ((==_iff kind "worktree").0 e8) e9 e10 e11 e12
                                                      e16 e17 (ltb→lt renew ttl e18)
