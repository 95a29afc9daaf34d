-- ===== src/Claims/Gate/Reports.antt =====
-- The refusals of `_process_job` in multinexus/agentd/worker.py: under which identity a job is reported.
use mathlib.Core.Path.{subst, sym}
use multinexus.Base.{
  ◌≡◌, ap, ◌∙◌, refl, String, Bool, true, false, not, Option, none, some, inl, inr, arith, ◌⊎◌,
  ◌==◌, string_eq, if◌then◌else◌,
}
use multinexus.Base.Value.{ℤ, Value, Members, empty, lookup, get}
use Value.{null, boolean, int, float, decimal, text, array, object}
use multinexus.Base.Result.{
  Result, ok, err, after_bind, after_require, after_bind_err, after_require_err, ok-injective,
}
use multinexus.Lease.{Platform, LeaseError, lease_error, resource_identity_error, ExecutionLease}
use multinexus.Lease.Parse.{parse_execution_lease}
use multinexus.Lease.Validate.{
  Expectation, validate_execution_lease, agrees_text, agrees_number, check_resource, check_context,
  check_binding,
}
use multinexus.Claims.Binding.{validate_executor_binding}
use multinexus.Claims.Response.{as_int, validate_claim_response}
use multinexus.Claims.Gate.{
  Refusal, dropped, refused_with, raised, Report, Agent, on_error, present, job_of, extract_payload,
  is_native, lease_report, lease_refusal, expect_agent, expect_claim, response_of, admit_managed,
  admit_legacy, admit, admit_with, is_absent, legacy_refusal,
}
use multinexus.Claims.Gate.Admitted.{after_guarded}

-- A validated lease is the one that its document parses to.
validate-parse :
    (p : Platform) (v : Value) (x : Expectation) (l : ExecutionLease)
    → validate_execution_lease p v x ≡ ok l
    → parse_execution_lease p v ≡ ok l
unfolding validate_execution_lease
validate-parse p v x l h = after_bind (parse_execution_lease p v) _ h λ m e1 h1.
    after_require (m.agent_id == x.agent_id) lease_error _ h1 λ e2 h2.
      after_require (agrees_text x.job_id m.job_id) lease_error _ h2 λ e3 h3.
        after_require (agrees_number x.attempt_token m.attempt_token) lease_error _ h3 λ e4 h4.
          after_bind (check_resource p m) _ h4 λ u1 e5 h5.
            after_bind (check_context x.execution_context m) _ h5 λ u2 e6 h6.
              after_bind (check_binding x.executor_binding m) _ h6
                λ u3 e7 h7. e1 ∙ ap ok (ok-injective _ _ _ refl h7)

-- The error of a guarded step is the guard's.
guard_error :
    {E A : Type 0} {C : Type 0} (f : E → Refusal) (r : Result E A) {q : Refusal}
    → on_error f r ≡ err q
    → ((e : E) → f e ≡ q → C)
    → C
unfolding on_error
guard_error f (ok a) h k = cc
guard_error f (err e) h k = k e (cc)

present_error :
    {A : Type 0} (r : Refusal) (o : Option A) {q : Refusal} → present r o ≡ err q → r ≡ q
unfolding present
present_error r none h = cc
present_error r (some a) h = cc

-- A report has the identity of the lease, or there is none.
IsOf : ExecutionLease → Refusal → Type 0
IsOf l dropped = Unit
IsOf l raised = Unit
IsOf l (refused_with r) = r ≡ lease_report l l.lease_id

refusal-IsOf :
    (l m : ExecutionLease) (e : LeaseError)
    → l.lease_id ≡ m.lease_id
    → IsOf l (lease_refusal (refused_with (lease_report l m.lease_id)) e)
unfolding IsOf lease_refusal
refusal-IsOf l m lease_error same = ap (lease_report l) (sym same)
refusal-IsOf l m resource_identity_error same = tt

if_raised : (b : Bool) {q : Refusal} → (if b then err raised else ok empty) ≡ err q → raised ≡ q
if_raised true h = cc
if_raised false h = cc

job_of-raised : (v : Value) {q : Refusal} → job_of v ≡ err q → raised ≡ q
unfolding job_of
job_of-raised (object ms) h = cc
job_of-raised null h = if_raised _ h
job_of-raised (boolean b) h = if_raised _ h
job_of-raised (int n) h = if_raised _ h
job_of-raised (float t) h = if_raised _ h
job_of-raised (decimal d) h = if_raised _ h
job_of-raised (text s) h = if_raised _ h
job_of-raised (array vs) h = if_raised _ h

managed-IsOf :
    (p : Platform) (loads : String → Option Value) (a : Agent) (ms : Members) (raw : Value)
    (l : ExecutionLease) (q : Refusal)
    → parse_execution_lease p raw ≡ ok l
    → admit_managed p loads a ms raw l ≡ err q
    → IsOf l q
unfolding admit_managed
managed-IsOf p loads a ms raw l q own h =
    after_bind_err (job_of (get "job" ms)) _ h
      (λ e. subst (IsOf l) (job_of-raised _ e) (unfold IsOf in tt))
      λ job e1 h1.
        after_bind_err (on_error _ (extract_payload loads job)) _ h1
          (λ e. guard_error _ _ e λ x. from_lease)
          λ payload e2 h2.
            after_bind_err (present _ (lookup "executor_binding" payload)) _ h2
              (λ e. from_lease (present_error _ _ e))
              λ snapshot e3 h3.
                after_bind_err (on_error _ (validate_executor_binding p a.id a.adapter snapshot)) _
                  h3 (λ e. guard_error _ _ e λ x. from_lease)
                  λ found e4 h4.
                    after_bind_err (present _ found) _ h4 (λ e. from_lease (present_error _ _ e))
                      λ binding e5 h5.
                        after_bind_err
                          (on_error _ (validate_claim_response p a.id null (response_of ms))) _ h5
                          (λ e. guard_error _ _ e λ x. from_lease)
                          λ c e6 h6.
                            after_bind_err
                              (on_error _ (validate_execution_lease p raw (expect_claim a c none)))
                              _ h6 (λ e. guard_error _ _ e λ x. of_lease l refl x)
                              λ second e7 h7. after_guarded _ _ e7 λ again.
                                after_bind_err
                                  (on_error _ (
                                    validate_execution_lease p raw
                                      (expect_claim a c (some snapshot))))
                                  _ h7
                                  (λ e.
                                    guard_error _ _ e
                                      λ x. of_lease second (same_lease second _ again) x)
                                  λ third e8 h8. cc
  where
    from_lease : refused_with (lease_report l l.lease_id) ≡ q → IsOf l q
    from_lease e = subst (IsOf l) e (unfold IsOf in refl)

    of_lease :
        (m : ExecutionLease)
        → l.lease_id ≡ m.lease_id
        → (x : LeaseError) → lease_refusal (refused_with (lease_report l m.lease_id)) x ≡ q
        → IsOf l q
    of_lease m same x e = subst (IsOf l) e (refusal-IsOf l m x same)

    same_lease :
        (m : ExecutionLease) (x : Expectation)
        → validate_execution_lease p raw x ≡ ok m
        → l.lease_id ≡ m.lease_id
    same_lease m x e = ap (λ r. r.lease_id) (ok-injective _ _ _ own (validate-parse p raw x m e))

-- The identity of a report: that of a valid lease of the agent, or, where the claim has no lease field,
-- its own attempt token, which is an integer, without a lease.
unfoldable pub IsReport : Platform → Agent → Members → Report → Type 0
IsReport p a ms r =
    ((raw : Value) × (l : ExecutionLease) × (lookup "execution_lease" ms ≡ some raw)
      × (validate_execution_lease p raw (expect_agent a) ≡ ok l)
      × (r ≡ lease_report l l.lease_id))
    ⊎ ((lookup "execution_lease" ms ≡ none)
        × (r.lease_id ≡ none)
        × (as_int (get "attempt_token" ms) ≡ some r.attempt_token)
        × (is_native p a ≡ false))

refused_with-injective : (q r : Report) → refused_with q ≡ refused_with r → q ≡ r
refused_with-injective q r h = cc

legacy_lem :
    (job : Members) (o : Option ℤ) (r : Report)
    → legacy_refusal job o ≡ refused_with r
    → (r.lease_id ≡ none) × (o ≡ some r.attempt_token)
unfolding legacy_refusal
legacy_lem job none r h = cc
legacy_lem job (some n) r h =
    let same = refused_with-injective _ _ h in
    (sym (ap (λ q. q.lease_id) same), ap (λ q. some q.attempt_token) same)

legacy-IsReport :
    (p : Platform) (loads : String → Option Value) (a : Agent) (ms : Members) (r : Report)
    → lookup "execution_lease" ms ≡ none
    → admit_legacy p loads a ms ≡ err (refused_with r)
    → IsReport p a ms r
unfolding admit_legacy IsReport
legacy-IsReport p loads a ms r no_lease h =
    after_bind_err (job_of (get "job" ms)) _ h (λ e. absurd (not_reported (job_of-raised _ e)))
      λ job e1 h1.
        after_require_err (not (is_native p a)) dropped _ h1 (λ e. cc)
          λ e2 h2.
            after_bind_err (on_error _ (extract_payload loads job)) _ h2
              (λ e. guard_error _ _ e λ x f. cc)
              λ payload e3 h3.
                after_require_err (is_absent (lookup "executor_binding" payload)) dropped _ h3
                  (λ e. cc)
                  λ e4 h4.
                    after_bind_err
                      (on_error _ (validate_claim_response p a.id null (response_of ms))) _ h4
                      (λ e. guard_error _ _ e λ x f.
                        let found = legacy_lem job _ r f in
                        inr (no_lease, found.0, found.1, ground arith))
                      λ c e5 h5. cc
  where
    not_reported : raised ≡ refused_with r → ⊥
    not_reported e = cc

managed-IsReport :
    (p : Platform) (a : Agent) (ms : Members) (raw : Value) (l : ExecutionLease) (r : Report)
    → lookup "execution_lease" ms ≡ some raw
    → validate_execution_lease p raw (expect_agent a) ≡ ok l
    → IsOf l (refused_with r)
    → IsReport p a ms r
unfolding IsOf IsReport
managed-IsReport p a ms raw l r e valid h = inl (raw, l, e, valid, h)

with-IsReport :
    (p : Platform) (loads : String → Option Value) (a : Agent) (ms : Members) (r : Report)
    (o : Option Value)
    → lookup "execution_lease" ms ≡ o
    → admit_with p loads a ms o ≡ err (refused_with r)
    → IsReport p a ms r
unfolding admit_with
with-IsReport p loads a ms r none e h = legacy-IsReport p loads a ms r e h
with-IsReport p loads a ms r (some (object raw)) e h =
    after_bind_err (on_error _ (validate_execution_lease p (object raw) (expect_agent a))) _ h
      (λ f. guard_error _ _ f λ x g. absurd (silent x g))
      λ l e1 h1. after_guarded _ _ e1 λ valid. managed-IsReport p a ms (object raw) l r e valid (
        managed-IsOf p loads a ms (object raw) l (refused_with r)
          (validate-parse p (object raw) _ l valid) h1)
  where
    silent : (x : LeaseError) → lease_refusal dropped x ≡ refused_with r → ⊥
    silent lease_error g = (unfold lease_refusal in cc)
    silent resource_identity_error g = (unfold lease_refusal in cc)
with-IsReport p loads a ms r (some _) e h = cc

-- A claim that is refused with a report is reported under the job, the attempt and the lease of a valid
-- lease of this agent; or it has no lease field, the adapter is not the native one, and the report has
-- no lease and the integer that the claim gives as its attempt token. An invalid lease is never
-- reported.
pub admit-IsReport :
    (p : Platform) (loads : String → Option Value) (a : Agent) (ms : Members) (r : Report)
    → admit p loads a ms ≡ err (refused_with r)
    → IsReport p a ms r
unfolding admit
admit-IsReport p loads a ms r h = with-IsReport p loads a ms r (lookup "execution_lease" ms) refl h
