-- ===== src/Claims/Gate.antt =====
-- The admission of a claim by `_process_job` of multinexus/agentd/worker.py, up to the call of the
-- provider: the lease, the payload, the executor binding, the execution context, and their cross-checks.
-- A claim that is not admitted returns early: dropped, reported as failed, or with an exception that
-- leaves the worker.
use multinexus.Base.{
  ℕ, ◌≡◌, String, Bool, true, false, not, Option, none, some, List, [], ◌∷◌, ◌++◌, ◌==◌, string_eq,
  if◌then◌else◌,
}
use multinexus.Base.Text.{codes, same_codes}
use multinexus.Base.Value.{ℤ, pos, Value, Members, empty, member, lookup, get}
use Value.{null, boolean, int, float, decimal, text, array, object}
use multinexus.Base.Result.{Result, ok, err, ◌>>=◌, ◌>>◌, require}
use multinexus.Lease.{Platform, LeaseError, lease_error, resource_identity_error, ExecutionLease}
use multinexus.Lease.Validate.{Expectation, validate_execution_lease}
use multinexus.Claims.{ClaimError, ExecutorBinding}
use multinexus.Claims.Document.{to_dict}
use multinexus.Claims.Binding.{validate_executor_binding}
use multinexus.Claims.Response.{truthy, as_int, Claim, validate_claim_response}
pub mod Admitted
pub mod Reports

-- The identity with which a job is reported.
pub record Report : Type 0 where
  pub job_id : Value
  pub attempt_token : ℤ
  pub lease_id : Option String

pub data Refusal : Type 0 where
  dropped raised : Refusal
  refused_with : Report → Refusal

-- What is carried to the provider; no lease and no binding in the legacy path.
pub record Admission : Type 0 where
  pub lease : Option ExecutionLease
  pub binding : Option ExecutorBinding
  pub claim : Claim
  pub payload : Members

-- The configuration of the agent: its name and the name of its adapter.
pub record Agent : Type 0 where
  pub id : String
  pub adapter : String

-- `except ...: return`
unfoldable pub on_error : {E A : Type 0} → (E → Refusal) → Result E A → Result Refusal A
on_error f (ok a) = ok a
on_error f (err e) = err (f e)

unfoldable pub present : {A : Type 0} → Refusal → Option A → Result Refusal A
present r none = err r
present r (some a) = ok a

-- `claim_result.get("job") or {}`, where a job that is no dictionary has no `get`.
unfoldable pub job_of : Value → Result Refusal Members
job_of (object ms) = ok ms
job_of v = if truthy v then err raised else ok empty

-- `ValueError`
pub data PayloadError : Type 0 where
  payload_error : PayloadError

unfoldable pub decoded_payload : Option Value → Result PayloadError Members
decoded_payload (some (object ms)) = ok ms
decoded_payload _ = err payload_error

unfoldable pub payload_of_json : (String → Option Value) → Value → Result PayloadError Members
payload_of_json loads null = ok empty
payload_of_json loads (object ms) = ok ms
payload_of_json loads (text s) = if s == "" then ok empty else decoded_payload (loads s)
payload_of_json loads _ = err payload_error

-- `_extract_payload`, where `loads` is `json.loads`, and `none` its `JSONDecodeError`.
unfoldable pub extract_payload : (String → Option Value) → Members → Result PayloadError Members
unfolding payload_of_json decoded_payload
extract_payload loads job = elim (get "payload" job) [
  | object ms ↦ ok ms
  | null ↦ payload_of_json loads (get "payload_json" job)
  | _ ↦ err payload_error
]

unfoldable pub lowered : Platform → List ℕ → List ℕ
lowered p [] = []
lowered p (c ∷ cs) = p.lower c ++ lowered p cs

-- `config.adapter.lower() == "desktop-native"`
unfoldable pub is_native : Platform → Agent → Bool
unfolding lowered
is_native p a = same_codes (lowered p (codes a.adapter)) (codes "desktop-native")

unfoldable pub lease_report : ExecutionLease → String → Report
lease_report l lease_id = record {
  job_id = text l.job_id;
  attempt_token = pos l.attempt_token;
  lease_id = some lease_id;
}

-- The handler of `ExecutionLeaseError`; another exception is not handled.
unfoldable pub lease_refusal : Refusal → LeaseError → Refusal
lease_refusal r lease_error = r
lease_refusal r resource_identity_error = raised

unfoldable pub expect_agent : Agent → Expectation
expect_agent a = record {
  agent_id = a.id;
  job_id = none;
  attempt_token = none;
  execution_context = none;
  executor_binding = none;
}

unfoldable pub expect_claim : Agent → Claim → Option Value → Expectation
expect_claim a c snapshot = record {
  agent_id = a.id;
  job_id = some c.context.job_id;
  attempt_token = some c.attempt_token;
  execution_context = some (object (to_dict c.context));
  executor_binding = snapshot;
}

unfoldable pub response_of : Members → Value
response_of ms = object (member "result" (object ms) empty)

-- A claim with a valid lease: every refusal is reported with the lease's identity.
unfoldable pub admit_managed :
    Platform
    → (String → Option Value)
    → Agent
    → Members
    → Value
    → ExecutionLease
    → Result Refusal Admission
unfolding response_of
admit_managed p loads a ms raw l =
    let failed = refused_with (lease_report l l.lease_id) in
    do
      job ← job_of (get "job" ms)
      payload ← on_error (λ e. failed) (extract_payload loads job)
      snapshot ← present failed (lookup "executor_binding" payload)
      found ← on_error (λ e. failed) (validate_executor_binding p a.id a.adapter snapshot)
      binding ← present failed found
      claim ← on_error (λ e. failed) (validate_claim_response p a.id null (response_of ms))
      second ←
          on_error (lease_refusal failed)
            (validate_execution_lease p raw (expect_claim a claim none))
      third ←
          on_error (lease_refusal (refused_with (lease_report l second.lease_id)))
            (validate_execution_lease p raw (expect_claim a claim (some snapshot)))
      ok (record { lease = some third; binding = some binding; claim = claim; payload = payload })

-- `raw_job.get("id", "?")`
unfoldable pub job_id_of : Members → Value
job_id_of job = elim (lookup "id" job) [ none ↦ text "?" | some v ↦ v ]

unfoldable pub legacy_refusal : Members → Option ℤ → Refusal
legacy_refusal job none = dropped
legacy_refusal job (some n) =
    refused_with (record { job_id = job_id_of job; attempt_token = n; lease_id = none })

unfoldable pub is_absent : {A : Type 0} → Option A → Bool
is_absent none = true
is_absent (some a) = false

-- A claim without a lease, which may have no executor binding either.
unfoldable pub admit_legacy :
    Platform → (String → Option Value) → Agent → Members → Result Refusal Admission
unfolding response_of job_id_of legacy_refusal is_absent
admit_legacy p loads a ms = do
  job ← job_of (get "job" ms)
  require (not (is_native p a)) dropped
  payload ← on_error (λ e. dropped) (extract_payload loads job)
  require (is_absent (lookup "executor_binding" payload)) dropped
  claim ←
      on_error (λ e. legacy_refusal job (as_int (get "attempt_token" ms)))
        (validate_claim_response p a.id null (response_of ms))
  ok (record { lease = none; binding = none; claim = claim; payload = payload })

-- The claim by its lease field, if there is one.
unfoldable pub admit_with :
    Platform → (String → Option Value) → Agent → Members → Option Value → Result Refusal Admission
admit_with p loads a ms none = admit_legacy p loads a ms
admit_with p loads a ms (some (object raw)) = do
  l ← on_error (lease_refusal dropped) (validate_execution_lease p (object raw) (expect_agent a))
  admit_managed p loads a ms (object raw) l
admit_with p loads a ms (some _) = err dropped

unfoldable pub admit :
    Platform → (String → Option Value) → Agent → Members → Result Refusal Admission
admit p loads a ms = admit_with p loads a ms (lookup "execution_lease" ms)
