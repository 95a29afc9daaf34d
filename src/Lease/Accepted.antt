-- ===== src/Lease/Accepted.antt =====
-- What `validate_execution_lease` of multinexus/agentd/execution_lease.py accepts.
use mathlib.Core.Path.{subst}
use multinexus.Base.{
  ℕ, ◌≡◌, sym, ap, ◌∙◌, String, true, false, Option, none, some, ◌==◌, ==_iff, string_eq, arith,
}
use multinexus.Base.Text.{codes, same_codes, same_codes-eq}
use multinexus.Base.Value.{Value, Members, get}
use Value.{null, boolean, int, float, decimal, text, array, object}
use multinexus.Base.Result.{ok, after_bind, after_require, require-true}
use multinexus.Lease.{Platform, lease_error, resource_identity_error, ExecutionLease}
use multinexus.Lease.Parse.{parse_execution_lease}
use multinexus.Lease.Resource.{normalize_worktree_path, is_host_id, compute_resource_key}
use multinexus.Lease.Validate.{
  Expectation, agrees_text, agrees_number, holds, check_resource, check_context, check_binding,
  validate_execution_lease,
}
use multinexus.Lease.Bounds.{IsRunning, IsBounded, parse-IsBounded}

-- The resource key belongs to the host and the path, and the path is in its normal form.
unfoldable pub IsResource : Platform → ExecutionLease → Type 0
IsResource p l =
    (normalize_worktree_path p (codes l.normalized_path) ≡ ok (codes l.normalized_path))
    × (is_host_id (codes l.host_id) ≡ true)
    × (compute_resource_key p (codes l.host_id) (codes l.normalized_path) ≡ codes l.resource_key)

check_resource-IsResource :
    (p : Platform) (l : ExecutionLease) → check_resource p l ≡ ok tt → IsResource p l
unfolding check_resource
check_resource-IsResource p l h =
    after_bind (normalize_worktree_path p (codes l.normalized_path)) _ h λ path e1 h1.
      after_require (same_codes path (codes l.normalized_path)) lease_error _ h1 λ e2 h2.
        after_require (is_host_id (codes l.host_id)) resource_identity_error _ h2 λ e3 h3.
          after_bind (normalize_worktree_path p (codes l.normalized_path)) _ h3 λ again e4 h4.
            let normal = same_codes-eq path (codes l.normalized_path) e2 in
            let key : same_codes (compute_resource_key p (codes l.host_id) again)
                  (codes l.resource_key)
                ≡ true =
              require-true _ lease_error h4 in
            let same : again ≡ codes l.normalized_path = cc in
            unfold IsResource in
            (
              e1 ∙ ap ok normal,
              e3,
              ap (compute_resource_key p (codes l.host_id)) (sym same) ∙ same_codes-eq _ _ key,
            )

-- A value that is a text is that text.
value_is : (v : Value) (s : String) → (elim v [ text t ↦ t == s | _ ↦ false ]) ≡ true → v ≡ text s
value_is (text t) s h = ap text ((==_iff t s).0 h)
value_is null s h = cc
value_is (boolean b) s h = cc
value_is (int n) s h = cc
value_is (float t) s h = cc
value_is (decimal d) s h = cc
value_is (array vs) s h = cc
value_is (object ms) s h = cc

holds-eq : (key s : String) (ms : Members) → holds key s ms ≡ true → get key ms ≡ text s
unfolding holds
holds-eq key s ms h = value_is (get key ms) s h

unfoldable pub AgreesText : Option String → String → Type 0
AgreesText none s = Unit
AgreesText (some t) s = s ≡ t

unfoldable pub AgreesNumber : Option ℕ → ℕ → Type 0
AgreesNumber none n = Unit
AgreesNumber (some m) n = n ≡ m

unfoldable pub AgreesContext : Option Value → ExecutionLease → Type 0
AgreesContext none l = Unit
AgreesContext (some (object ms)) l =
    (get "job_id" ms ≡ text l.job_id)
    × (get "assigned_agent" ms ≡ text l.agent_id)
    × (get "host_id" ms ≡ text l.host_id)
    × (get "worktree_path" ms ≡ text l.normalized_path)
AgreesContext (some _) l = ⊥

unfoldable pub AgreesBinding : Option Value → ExecutionLease → Type 0
AgreesBinding none l = Unit
AgreesBinding (some (object ms)) l =
    (get "executor_instance_id" ms ≡ text l.agent_id)
    × (get "runner_profile_id" ms ≡ text l.runner_profile_id)
AgreesBinding (some _) l = ⊥

-- The identity that the caller expects, of the claim, the execution context and the executor binding;
-- what is not given is not compared, and a context or binding that is no object is refused.
unfoldable pub IsExpected : Expectation → ExecutionLease → Type 0
unfolding AgreesText AgreesNumber AgreesContext AgreesBinding
IsExpected x l =
    (l.agent_id ≡ x.agent_id)
    × AgreesText x.job_id l.job_id
    × AgreesNumber x.attempt_token l.attempt_token
    × AgreesContext x.execution_context l
    × AgreesBinding x.executor_binding l

check_context-eq :
    (ms : Members) (l : ExecutionLease)
    → check_context (some (object ms)) l ≡ ok tt
    → (get "job_id" ms ≡ text l.job_id)
      × (get "assigned_agent" ms ≡ text l.agent_id)
      × (get "host_id" ms ≡ text l.host_id)
      × (get "worktree_path" ms ≡ text l.normalized_path)
unfolding check_context
check_context-eq ms l h = after_require (holds "job_id" l.job_id ms) lease_error _ h λ e1 h1.
    after_require (holds "assigned_agent" l.agent_id ms) lease_error _ h1 λ e2 h2.
      after_require (holds "host_id" l.host_id ms) lease_error _ h2 λ e3 h3. (
        holds-eq _ _ ms e1,
        holds-eq _ _ ms e2,
        holds-eq _ _ ms e3,
        holds-eq _ _ ms (require-true _ lease_error h3),
      )

check_binding-eq :
    (ms : Members) (l : ExecutionLease)
    → check_binding (some (object ms)) l ≡ ok tt
    → (get "executor_instance_id" ms ≡ text l.agent_id)
      × (get "runner_profile_id" ms ≡ text l.runner_profile_id)
unfolding check_binding
check_binding-eq ms l h =
    after_require (holds "executor_instance_id" l.agent_id ms) lease_error _ h
      λ e1 h1. (holds-eq _ _ ms e1, holds-eq _ _ ms (require-true _ lease_error h1))

agrees_text-eq : (o : Option String) (s : String) → agrees_text o s ≡ true → AgreesText o s
unfolding agrees_text AgreesText
agrees_text-eq none s h = tt
agrees_text-eq (some t) s h = (==_iff s t).0 h

agrees_number-eq : (o : Option ℕ) (n : ℕ) → agrees_number o n ≡ true → AgreesNumber o n
unfolding agrees_number AgreesNumber
agrees_number-eq none n h = tt
agrees_number-eq (some m) n h = ground arith

context-agrees :
    (c : Option Value) (l : ExecutionLease) → check_context c l ≡ ok tt → AgreesContext c l
unfolding AgreesContext
context-agrees none l h = tt
context-agrees (some (object ms)) l h = check_context-eq ms l h
context-agrees (some null) l h = (unfold check_context in cc)
context-agrees (some (boolean b)) l h = (unfold check_context in cc)
context-agrees (some (int n)) l h = (unfold check_context in cc)
context-agrees (some (float t)) l h = (unfold check_context in cc)
context-agrees (some (decimal d)) l h = (unfold check_context in cc)
context-agrees (some (text s)) l h = (unfold check_context in cc)
context-agrees (some (array vs)) l h = (unfold check_context in cc)

binding-agrees :
    (c : Option Value) (l : ExecutionLease) → check_binding c l ≡ ok tt → AgreesBinding c l
unfolding AgreesBinding
binding-agrees none l h = tt
binding-agrees (some (object ms)) l h = check_binding-eq ms l h
binding-agrees (some null) l h = (unfold check_binding in cc)
binding-agrees (some (boolean b)) l h = (unfold check_binding in cc)
binding-agrees (some (int n)) l h = (unfold check_binding in cc)
binding-agrees (some (float t)) l h = (unfold check_binding in cc)
binding-agrees (some (decimal d)) l h = (unfold check_binding in cc)
binding-agrees (some (text s)) l h = (unfold check_binding in cc)
binding-agrees (some (array vs)) l h = (unfold check_binding in cc)

-- An accepted lease has bounded numbers, with a renewal interval below its time to live; it has begun
-- and not expired at the server's time and lasts exactly its time to live; its path is in normal form
-- and its key is that of its host and path; and it names the agent, the job and the attempt of the
-- claim, and agrees with the execution context and the executor binding as far as these are given.
pub validate-IsExpected :
    (p : Platform) (envelope : Value) (x : Expectation) (l : ExecutionLease)
    → validate_execution_lease p envelope x ≡ ok l
    → IsBounded l × IsRunning p l × IsResource p l × IsExpected x l
unfolding validate_execution_lease
validate-IsExpected p envelope x l h = after_bind (parse_execution_lease p envelope) _ h λ m e1 h1.
    after_require (m.agent_id == x.agent_id) lease_error _ h1 λ e2 h2.
      after_require (agrees_text x.job_id m.job_id) lease_error _ h2 λ e3 h3.
        after_require (agrees_number x.attempt_token m.attempt_token) lease_error _ h3 λ e4 h4.
          after_bind (check_resource p m) _ h4 λ u1 e5 h5.
            after_bind (check_context x.execution_context m) _ h5 λ u2 e6 h6.
              after_bind (check_binding x.executor_binding m) _ h6 λ u3 e7 h7.
                let same : m ≡ l = cc in
                let (bounded, running) = parse-IsBounded p envelope m e1 in
                let expected : IsExpected x m =
                  (unfold IsExpected in
                    (
                      (==_iff m.agent_id x.agent_id).0 e2,
                      agrees_text-eq x.job_id m.job_id e3,
                      agrees_number-eq x.attempt_token m.attempt_token e4,
                      context-agrees x.execution_context m e6,
                      binding-agrees x.executor_binding m e7,
                    )) in
                subst (λ r. IsBounded r × IsRunning p r × IsResource p r × IsExpected x r) same
                  (bounded, running, check_resource-IsResource p m e5, expected)
