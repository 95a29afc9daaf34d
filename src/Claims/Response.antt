-- ===== src/Claims/Response.antt =====
-- `validate_claim_response` of multinexus/agentd/execution_context.py.
use mathlib.Core.Path.{subst, sym}
use multinexus.Base.{
  ℕ, zero, suc, ◌≤◌, ◌≡◌, refl, String, Bool, true, false, not, ◌||◌, Option, none, some, ◌==◌,
  string_eq, eqb, all, ap, ◌∙◌, inl, inr, Option-cases, arith,
}
use multinexus.Base.Text.{codes, is_empty}
use multinexus.Base.Same.{same_int, same_int-eq}
use multinexus.Base.Value.{
  ℤ, pos, negsuc, finite, special, Value, nil, item, Members, empty, member, get,
}
use Value.{null, boolean, int, float, decimal, text, array, object}
use multinexus.Base.Result.{
  Result, ok, err, ◌>>=◌, ◌>>◌, require, after_bind, after_require, ok-injective,
}
use multinexus.Lease.{Platform}
use multinexus.Claims.{ClaimError, execution_context_error, ExecutionContext}
use multinexus.Claims.Parse.{ExpectedIdentity, agrees_expected, parse_execution_context}

-- `bool(value)`
unfoldable pub truthy : Value → Bool
truthy null = false
truthy (boolean b) = b
truthy (int (pos n)) = not (eqb n 0)
truthy (int (negsuc n)) = true
truthy (float s) = not (s == "0.0" || s == "-0.0")
truthy (decimal (finite negative digits exponent)) = not (all (λ d. eqb d 0) digits)
truthy (decimal special) = true
truthy (text s) = not (is_empty (codes s))
truthy (array nil) = false
truthy (array (item v vs)) = true
truthy (object empty) = false
truthy (object (member k v ms)) = true

-- A value that is an `int` for `isinstance`: a Boolean is one too.
unfoldable pub as_int : Value → Option ℤ
as_int (int n) = some n
as_int (boolean true) = some (pos 1)
as_int (boolean false) = some (pos 0)
as_int _ = none

unfoldable pub integer : Value → Result ClaimError ℤ
integer v = elim (as_int v) [ none ↦ err execution_context_error | some n ↦ ok n ]

unfoldable pub positive : ℤ → Result ClaimError ℕ
positive (pos (suc n)) = ok (suc n)
positive _ = err execution_context_error

unfoldable pub dictionary : Value → Result ClaimError Members
dictionary (object ms) = ok ms
dictionary _ = err execution_context_error

-- `context_value == job_value` on a nullable text
unfoldable pub same_nullable : Option String → Value → Bool
same_nullable none null = true
same_nullable (some s) (text t) = s == t
same_nullable _ _ = false

-- The job, the context and the attempt token of a claim.
pub record Claim : Type 0 where
  pub job : Members
  pub context : ExecutionContext
  pub attempt_token : ℕ

-- The job envelope against the context and the attempt token.
unfoldable pub check_job : Members → ExecutionContext → ℤ → Result ClaimError Claim
check_job job c attempt = do
  require (same_nullable c.task_id (get "task_id" job)) execution_context_error
  require (agrees_expected (get "workspace_id" job) c.workspace_id) execution_context_error
  require (agrees_expected (get "assigned_agent" job) c.assigned_agent) execution_context_error
  count ← integer (get "attempt_count" job)
  require (same_int attempt count) execution_context_error
  token ← positive attempt
  ok (record { job = job; context = c; attempt_token = token })

-- A response is a dictionary or `None`; `workspace_id` is null for `None`.
unfoldable pub validate_claim_response : Platform → String → Value → Value → Result ClaimError Claim
validate_claim_response p agent_id workspace_id response = do
  fields ← dictionary response
  result ← dictionary (get "result" fields)
  require (truthy (get "claimed" result)) execution_context_error
  job ← dictionary (get "job" result)
  attempt ← integer (get "attempt_token" result)
  raw_context ← dictionary (get "execution_context" result)
  c ←
      parse_execution_context p
        (record {
          job_id = get "id" job;
          workspace_id = workspace_id;
          assigned_agent = text agent_id;
        })
        (object raw_context)
  check_job job c attempt

as_int-integer : (v : Value) (n : ℤ) → integer v ≡ ok n → as_int v ≡ some n
unfolding integer
as_int-integer v n h = elim (Option-cases (as_int v)) [
  | inl e ↦ absurd (ground (arith, e))
  | inr (m, e) ↦ ground (arith, e)
]

positive-eq : (n : ℤ) (m : ℕ) → positive n ≡ ok m → (n ≡ pos m) × (1 ≤ m)
unfolding positive
positive-eq (pos zero) m h = cc
positive-eq (pos (suc n)) m h =
    let e : suc n ≡ m = ok-injective _ _ _ refl h in (ap pos e, omega (arith, e))
positive-eq (negsuc n) m h = cc

-- What `check_job` accepts, and with it the whole claim.
unfoldable pub IsJob : Claim → Type 0
IsJob m =
    (same_nullable m.context.task_id (get "task_id" m.job) ≡ true)
    × (agrees_expected (get "workspace_id" m.job) m.context.workspace_id ≡ true)
    × (agrees_expected (get "assigned_agent" m.job) m.context.assigned_agent ≡ true)
    × (as_int (get "attempt_count" m.job) ≡ some (pos m.attempt_token))
    × (1 ≤ m.attempt_token)

check_job-IsJob :
    (job : Members) (c : ExecutionContext) (n : ℤ) (m : Claim)
    → check_job job c n ≡ ok m
    → (m.job ≡ job) × (m.context ≡ c) × IsJob m
unfolding check_job
check_job-IsJob job c n m h =
    after_require (same_nullable c.task_id (get "task_id" job)) _ _ h λ e1 h1.
      after_require (agrees_expected (get "workspace_id" job) c.workspace_id) _ _ h1 λ e2 h2.
        after_require (agrees_expected (get "assigned_agent" job) c.assigned_agent) _ _ h2 λ e3 h3.
          after_bind (integer (get "attempt_count" job)) _ h3 λ count e4 h4.
            after_require (same_int n count) _ _ h4 λ e5 h5.
              after_bind (positive n) _ h5 λ token e6 h6.
                let number = positive-eq n token e6 in
                let same : pos token ≡ count = sym number.0 ∙ same_int-eq n count e5 in
                subst (λ r. (r.job ≡ job) × (r.context ≡ c) × IsJob r) (ok-injective _ _ _ refl h6)
                  (
                    refl,
                    refl,
                    unfold IsJob in
                        (e1, e2, e3, as_int-integer _ _ e4 ∙ ap some (sym same), number.1),
                  )

-- An accepted claim response has an accepted context under the identity of the job, the given workspace
-- and the agent; the job's own task, workspace, agent and attempt agree with the context and the token,
-- and the token is positive.
pub validate_claim_response-IsJob :
    (p : Platform) (agent_id : String) (workspace_id response : Value) (m : Claim)
    → validate_claim_response p agent_id workspace_id response ≡ ok m
    → ((v : Value) × (parse_execution_context p
            (record {
              job_id = get "id" m.job;
              workspace_id = workspace_id;
              assigned_agent = text agent_id;
            })
            v
          ≡ ok m.context))
      × IsJob m
unfolding validate_claim_response
validate_claim_response-IsJob p agent_id workspace_id response m h =
    after_bind (dictionary response) _ h λ fields e1 h1.
      after_bind (dictionary (get "result" fields)) _ h1 λ result e2 h2.
        after_require (truthy (get "claimed" result)) _ _ h2 λ e3 h3.
          after_bind (dictionary (get "job" result)) _ h3 λ job e4 h4.
            after_bind (integer (get "attempt_token" result)) _ h4 λ n e5 h5.
              after_bind (dictionary (get "execution_context" result)) _ h5 λ raw e6 h6.
                after_bind (parse_execution_context p (expected job) (object raw)) _ h6 λ c e7 h7.
                  let found = check_job-IsJob job c n m h7 in
                  (
                    (
                      object raw,
                      subst
                          (λ r. parse_execution_context p (expected r) (object raw) ≡ ok m.context)
                          (sym found.0) (e7 ∙ ap ok (sym found.1)),
                    ),
                    found.2,
                  )
  where
    expected : Members → ExpectedIdentity
    expected job = record {
      job_id = get "id" job;
      workspace_id = workspace_id;
      assigned_agent = text agent_id;
    }
