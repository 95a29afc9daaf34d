-- ===== src/Worker/Conclude/Receipt.antt =====
-- What a receipt that matches the report of a run of multinexus/agentd/worker.py confirms.
use multinexus.Base.{both, ◌≡◌, ap, ◌∙◌, refl, String, Bool, true, Option, none, some, string_eq}
use multinexus.Base.Value.{
  Value, Members, lookup, get, int, text, object, null, boolean, float, decimal, array,
}
use multinexus.Base.Same.{same_value-text, same_int-eq}
use multinexus.Adapters.{success, effective_outcome}
use multinexus.Worker.Report.{
  Trusted, Completion, text_or_null, outcome_text, result_json, is_stored, is_stored_result,
  dict_of, dict_at, same_token, is_confirmed_job, reported_success_matches,
}
use multinexus.Worker.Report.Kept.{Names, result_json-Names, stored-text_or_null}
use multinexus.Worker.Conclude.{Run}

-- `receipt["result"]["job"]`, a dictionary with a dictionary as its result.
unfoldable pub ReceiptOf : Value → Members → Members → Type 0
ReceiptOf receipt job stored =
    (dict_at "job" (dict_at "result" (dict_of receipt)) ≡ some job)
    × (dict_of (get "result" job) ≡ some stored)

-- A receipt for the run: the job is done, by this agent and attempt, and its stored result is of this
-- lease, execution context and session, and a success.
unfoldable pub IsConfirmation : Run → Value → String → Type 0
IsConfirmation run receipt session =
    (job : Members) × (stored : Members) × ReceiptOf receipt job stored
    × (get "status" job ≡ text "done")
    × (get "assigned_agent" job ≡ text run.trusted.agent_id)
    × (get "attempt_count" job ≡ run.trusted.attempt_token)
    × (lookup "lease_id" stored ≡ some (text_or_null run.trusted.lease_id))
    × (lookup "execution_context_id" stored ≡ some (text run.context.context_id))
    × (lookup "session_id" stored ≡ some (text session))
    × (lookup "outcome" stored ≡ some (text "success"))

same_token-eq : (v w : Value) → same_token v w ≡ true → v ≡ w
unfolding same_token
same_token-eq (int m) (int n) h = ap int (same_int-eq m n h)
same_token-eq (int m) _ h = cc
same_token-eq null _ h = cc
same_token-eq (boolean b) _ h = cc
same_token-eq (float s) _ h = cc
same_token-eq (decimal d) _ h = cc
same_token-eq (text s) _ h = cc
same_token-eq (array vs) _ h = cc
same_token-eq (object ms) _ h = cc

stored_result :
    (f : Value → Value → Bool) (doc : Members) (o : Option Members)
    → is_stored_result f doc o ≡ true
    → (stored : Members) × (o ≡ some stored) × (is_stored f doc stored ≡ true)
unfolding is_stored_result
stored_result f doc none h = cc
stored_result f doc (some stored) h = (stored, refl, h)

-- The parts of a matching receipt.
job-parts :
    (f : Value → Value → Bool) (t : Trusted) (doc : Members) (o : Option Members)
    → is_confirmed_job f t doc o ≡ true
    → (job : Members) × (stored : Members) × (o ≡ some job)
      × (dict_of (get "result" job) ≡ some stored)
      × (get "status" job ≡ text "done")
      × (get "assigned_agent" job ≡ text t.agent_id)
      × (get "attempt_count" job ≡ t.attempt_token)
      × (is_stored f doc stored ≡ true)
unfolding is_confirmed_job
job-parts f t doc none h = cc
job-parts f t doc (some job) h =
    let (id, h1) = both _ _ h in
    let (agent, h2) = both _ _ h1 in
    let (status, h3) = both _ _ h2 in
    let (token, h4) = both _ _ h3 in
    let (stored, e, all) = stored_result f doc (dict_of (get "result" job)) h4 in
    (
      job,
      stored,
      refl,
      e,
      same_value-text f _ "done" status,
      same_value-text f _ t.agent_id agent,
      same_token-eq _ _ token,
      all,
    )

-- What a matching receipt for the document of a run confirms.
pub matches-IsConfirmation :
    (f : Value → Value → Bool) (run : Run) (x : Completion) (doc : Members) (receipt : Value)
    (session : String)
    → result_json run.trusted run.context run.binding x ≡ some doc
    → effective_outcome x.result ≡ success
    → x.result.session_id ≡ some session
    → reported_success_matches f run.trusted doc receipt ≡ true
    → IsConfirmation run receipt session
unfolding reported_success_matches IsConfirmation ReceiptOf text_or_null outcome_text Names
matches-IsConfirmation f run x doc receipt session built succeeded has_session h =
    let o = dict_at "job" (dict_at "result" (dict_of receipt)) in
    let (job, stored, e1, e2, status, agent, token, all) = job-parts f run.trusted doc o h in
    let (n0, lease, context, n3, outcome, session_id) =
      result_json-Names run.trusted run.context run.binding x doc built in
    (
      job,
      stored,
      (e1, e2),
      status,
      agent,
      token,
      stored-text_or_null f doc stored "lease_id" run.trusted.lease_id all lease refl,
      stored-text_or_null f doc stored "execution_context_id" (some run.context.context_id) all
          context refl,
      stored-text_or_null f doc stored "session_id" (some session) all
          (session_id ∙ ap (λ o. some (elim o [ none ↦ text "" | some s ↦ text s ])) has_session)
          refl,
      stored-text_or_null f doc stored "outcome" (some "success") all
          (outcome ∙ ap (λ o. some (text (outcome_text o))) succeeded) refl,
    )
