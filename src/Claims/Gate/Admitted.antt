-- ===== src/Claims/Gate/Admitted.antt =====
-- What a claim that `_process_job` of multinexus/agentd/worker.py admits carries to the provider.
use mathlib.Core.Path.{subst, sym}
use multinexus.Base.{
  ==_iff, ◌≡◌, ap, ◌∙◌, refl, String, true, false, not, Option, none, some, arith, ==_iff,
  string_eq,
}
use multinexus.Base.Value.{Value, Members, lookup, get}
use Value.{null, text, object}
use multinexus.Base.Result.{Result, ok, err, after_bind, after_require, ok-injective}
use multinexus.Lease.{Platform, ExecutionLease}
use multinexus.Lease.Validate.{validate_execution_lease}
use multinexus.Lease.Accepted.{
  IsResource, IsExpected, AgreesText, AgreesNumber, AgreesContext, AgreesBinding,
  validate-IsExpected,
}
use multinexus.Lease.Bounds.{IsBounded, IsRunning}
use multinexus.Claims.{ExecutorBinding}
use multinexus.Claims.Parse.{agrees_expected}
use multinexus.Claims.Accepted.{IsIdentified}
use multinexus.Claims.Confined.{IsConfined, parse_execution_context-IsConfined}
use multinexus.Claims.Document.{to_dict}
use multinexus.Claims.Binding.{validate_executor_binding}
use multinexus.Claims.Binding.Bound.{
  IsBinding, NamesProfile, IsBoundTo, validate_executor_binding-IsBoundTo,
}
use multinexus.Claims.Response.{
  Claim, IsJob, validate_claim_response, validate_claim_response-IsJob,
}
use multinexus.Claims.Gate.{
  Refusal, dropped, Admission, Agent, on_error, present, job_of, extract_payload, is_native,
  expect_agent, expect_claim, response_of, admit_managed, admit_legacy, admit, admit_with,
  is_absent,
}

-- A step that an early return guards.
pub after_guarded :
    {E A : Type 0} {C : Type 0} (f : E → Refusal) (r : Result E A) {a : A}
    → on_error f r ≡ ok a
    → (r ≡ ok a → C)
    → C
unfolding on_error
after_guarded f (ok b) h k = k (ap ok (ok-injective _ _ _ refl h))
after_guarded f (err e) h k = cc

pub after_present :
    {A : Type 0} {C : Type 0} (r : Refusal) (o : Option A) {a : A}
    → present r o ≡ ok a
    → (o ≡ some a → C)
    → C
unfolding present
after_present r none h k = cc
after_present r (some b) h k = k (ap some (ok-injective _ _ _ refl h))

-- The context is confined and of the agent, and the job agrees with it.
unfoldable pub IsOwnClaim : Agent → Claim → Type 0
IsOwnClaim a c = IsConfined c.context × (c.context.assigned_agent ≡ a.id) × IsJob c

-- The lease is sound and of the agent, the binding is of the agent and its adapter, and both agree with
-- the context and the attempt of the claim.
unfoldable pub IsLeased : Platform → Agent → Claim → ExecutionLease → ExecutorBinding → Type 0
IsLeased p a c l b =
    IsBounded l
    × IsRunning p l
    × IsResource p l
    × (l.agent_id ≡ a.id)
    × (l.job_id ≡ c.context.job_id)
    × (l.attempt_token ≡ c.attempt_token)
    × (l.host_id ≡ c.context.host_id)
    × (l.normalized_path ≡ c.context.worktree_path)
    × (l.runner_profile_id ≡ a.id)
    × IsBinding p b
    × (b.executor_instance_id ≡ a.id)
    × (b.adapter ≡ a.adapter)

IsAuthorized :
    Platform → Agent → Members → Admission → Option ExecutionLease → Option ExecutorBinding → Type 0
IsAuthorized p a ms adm (some l) (some b) = IsLeased p a adm.claim l b
IsAuthorized p a ms adm none none =
    (lookup "execution_lease" ms ≡ none)
    × (lookup "executor_binding" adm.payload ≡ none)
    × (is_native p a ≡ false)
IsAuthorized p a ms adm _ _ = ⊥

unfoldable pub IsAdmitted : Platform → Agent → Members → Admission → Type 0
unfolding IsAuthorized
IsAdmitted p a ms adm = IsOwnClaim a adm.claim × IsAuthorized p a ms adm adm.lease adm.binding

agrees_expected-eq : (s t : String) → agrees_expected (text s) t ≡ true → t ≡ s
unfolding agrees_expected
agrees_expected-eq s t h = (==_iff t s).0 h

own_claim :
    (p : Platform) (a : Agent) (response : Value) (c : Claim)
    → validate_claim_response p a.id null response ≡ ok c
    → IsOwnClaim a c
unfolding IsOwnClaim IsIdentified
own_claim p a response c h =
    let ((v, parsed), job) = validate_claim_response-IsJob p a.id null response c h in
    let (confined, identified) = parse_execution_context-IsConfined p _ v c.context parsed in
    (confined, agrees_expected-eq a.id c.context.assigned_agent identified.3, job)

text-path : (s t : String) → text s ≡ text t → s ≡ t
text-path s t h = cc

-- What the last cross-check of the lease compares.
of_claim :
    (p : Platform) (a : Agent) (ms : Members) (c : Claim) (l : ExecutionLease)
    → IsExpected (expect_claim a c (some (object ms))) l
    → (l.agent_id ≡ a.id)
      × (l.job_id ≡ c.context.job_id)
      × (l.attempt_token ≡ c.attempt_token)
      × ((c.context.job_id ≡ l.job_id)
          × (c.context.assigned_agent ≡ l.agent_id)
          × (l.host_id ≡ c.context.host_id)
          × (l.normalized_path ≡ c.context.worktree_path))
      × ((get "executor_instance_id" ms ≡ text l.agent_id)
          × (get "runner_profile_id" ms ≡ text l.runner_profile_id))
unfolding IsExpected AgreesText AgreesNumber AgreesContext AgreesBinding expect_claim to_dict
of_claim p a ms c l (e1, e2, e3, (f1, f2, f3, f4), g) = (
  e1,
  e2,
  e3,
  (
    text-path _ _ (unfold get in f1),
    text-path _ _ (unfold get in f2),
    text-path _ _ (sym (unfold get in f3)),
    text-path _ _ (sym (unfold get in f4)),
  ),
  g,
)

leased :
    (p : Platform) (a : Agent) (raw snapshot : Value) (c : Claim) (l : ExecutionLease)
    (b : ExecutorBinding)
    → validate_execution_lease p raw (expect_claim a c (some snapshot)) ≡ ok l
    → validate_executor_binding p a.id a.adapter snapshot ≡ ok (some b)
    → IsLeased p a c l b
unfolding IsLeased IsBoundTo NamesProfile
leased p a raw (object ms) c l b h k =
    let (bounded, running, resource, expected) = validate-IsExpected p raw _ l h in
    let (binding, profile, instance_id, runner, adapter) =
      validate_executor_binding-IsBoundTo p a.id a.adapter (object ms) (some b) k in
    let (e1, e2, e3, e4, e5) = of_claim p a ms c l expected in
    let same : l.runner_profile_id ≡ b.runner_profile_id = text-path _ _ (sym e5.1 ∙ profile) in
    (
      bounded,
      running,
      resource,
      e1,
      e2,
      e3,
      e4.2,
      e4.3,
      same ∙ runner,
      binding,
      instance_id,
      adapter,
    )
leased p a raw snapshot c l b h k =
    absurd (validate_executor_binding-IsBoundTo p a.id a.adapter snapshot (some b) k).1

managed-IsAdmitted :
    (p : Platform) (loads : String → Option Value) (a : Agent) (ms : Members) (raw : Value)
    (l : ExecutionLease) (adm : Admission)
    → admit_managed p loads a ms raw l ≡ ok adm
    → IsAdmitted p a ms adm
unfolding admit_managed IsAdmitted IsAuthorized
managed-IsAdmitted p loads a ms raw l adm h = after_bind (job_of (get "job" ms)) _ h λ job e1 h1.
    after_bind (on_error _ (extract_payload loads job)) _ h1 λ payload e2 h2.
      after_bind (present _ (lookup "executor_binding" payload)) _ h2 λ snapshot e3 h3.
        after_bind (on_error _ (validate_executor_binding p a.id a.adapter snapshot)) _ h3
          λ found e4 h4. after_bind (present _ found) _ h4 λ binding e5 h5.
            after_bind (on_error _ (validate_claim_response p a.id null (response_of ms))) _ h5
              λ c e6 h6.
                after_bind (on_error _ (validate_execution_lease p raw (expect_claim a c none))) _
                  h6
                  λ second e7 h7.
                    after_bind
                      (on_error _
                        (validate_execution_lease p raw (expect_claim a c (some snapshot))))
                      _ h7
                      λ third e8 h8. after_guarded _ _ e4 λ bound. after_present _ found e5 λ there.
                        after_guarded _ _ e6 λ claimed. after_guarded _ _ e8 λ last.
                          subst (IsAdmitted p a ms) (ok-injective _ _ _ refl h8) (
                            own_claim p a _ c claimed,
                            leased p a raw snapshot c third binding last (bound ∙ ap ok there),
                          )

is_absent-none : {A : Type 0} (o : Option A) → is_absent o ≡ true → o ≡ none
unfolding is_absent
is_absent-none none h = refl
is_absent-none (some a) h = cc

legacy-IsAdmitted :
    (p : Platform) (loads : String → Option Value) (a : Agent) (ms : Members) (adm : Admission)
    → lookup "execution_lease" ms ≡ none
    → admit_legacy p loads a ms ≡ ok adm
    → IsAdmitted p a ms adm
unfolding admit_legacy IsAdmitted IsAuthorized
legacy-IsAdmitted p loads a ms adm no_lease h = after_bind (job_of (get "job" ms)) _ h λ job e1 h1.
    after_require (not (is_native p a)) dropped _ h1 λ e2 h2.
      after_bind (on_error _ (extract_payload loads job)) _ h2 λ payload e3 h3.
        after_require (is_absent (lookup "executor_binding" payload)) dropped _ h3 λ e4 h4.
          after_bind (on_error _ (validate_claim_response p a.id null (response_of ms))) _ h4
            λ c e5 h5. after_guarded _ _ e5 λ claimed.
              subst (IsAdmitted p a ms) (ok-injective _ _ _ refl h5)
                (own_claim p a _ c claimed, (no_lease, is_absent-none _ e4, ground arith))

with-IsAdmitted :
    (p : Platform) (loads : String → Option Value) (a : Agent) (ms : Members) (adm : Admission)
    (o : Option Value)
    → lookup "execution_lease" ms ≡ o
    → admit_with p loads a ms o ≡ ok adm
    → IsAdmitted p a ms adm
unfolding admit_with
with-IsAdmitted p loads a ms adm none e h = legacy-IsAdmitted p loads a ms adm e h
with-IsAdmitted p loads a ms adm (some (object raw)) e h =
    after_bind (on_error _ (validate_execution_lease p (object raw) (expect_agent a))) _ h
      λ l e1 h1. managed-IsAdmitted p loads a ms (object raw) l adm h1
with-IsAdmitted p loads a ms adm (some _) e h = cc

-- An admitted claim has a confined context of the agent with which its job agrees. With a lease, the
-- lease is sound and of the agent, the job, the attempt, the host and the worktree of the context, its
-- runner profile is the agent, and there is a sound executor binding of the agent and its adapter.
-- Without a lease, the claim has no lease field at all, its payload no executor binding field, and the
-- adapter is not the native one.
pub admit-IsAdmitted :
    (p : Platform) (loads : String → Option Value) (a : Agent) (ms : Members) (adm : Admission)
    → admit p loads a ms ≡ ok adm
    → IsAdmitted p a ms adm
unfolding admit
admit-IsAdmitted p loads a ms adm h =
    with-IsAdmitted p loads a ms adm (lookup "execution_lease" ms) refl h
