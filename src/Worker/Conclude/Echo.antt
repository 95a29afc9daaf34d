-- ===== src/Worker/Conclude/Echo.antt =====
-- A confirmed run of multinexus/agentd/worker.py: the receipt of a coordinator that stores what was
-- reported, and the session row that the run then writes.
use multinexus.Base.{
  ◌≡◌, ◌⊎◌, ap, ◌∙◌, refl, String, Bool, true, false, some, ◌==◌, string_eq, ==_refl, arith,
  Bool-cases, inl, inr,
}
use multinexus.Base.Value.{ℤ, Value, Members, empty, member, lookup, get, int, text}
use multinexus.Base.Same.Reflexive.{IsPlain, HavePlain, same_int_refl, same_value_refl}
use multinexus.Adapters.{AdapterResult, success, effective_outcome}
use multinexus.Worker.{Environment, Job, Turn}
use multinexus.Worker.Steps.{finish_turn}
use multinexus.Worker.Writes.{persist_session_result}
use multinexus.Worker.Report.{
  is_confirmed_job, Trusted, result_json, is_stored, reported_success_matches,
}
use multinexus.Worker.Conclude.Receipt.{ReceiptOf}
use multinexus.Worker.Conclude.{
  Ending, World, Run, Ended, race, completion, submission_of, after_report, submit, conclude_ended,
  conclude,
}

-- The stored result has every member of the report but the usage evidence, which the coordinator rewrites.
unfoldable pub Stores : Members → Members → Type 0
Stores empty stored = Unit
Stores (member k v ms) stored =
    ((k ≡ "usage_evidence") ⊎ (lookup k stored ≡ some v)) × Stores ms stored

-- An answer of the coordinator, whatever else it says, in which the job is done by the run's agent and
-- attempt and the stored result has every member of the report but the usage evidence.
unfoldable pub Acknowledges : Value → Trusted → Members → Type 0
Acknowledges receipt t doc =
    (job : Members) × (stored : Members) × ReceiptOf receipt job stored
    × (get "id" job ≡ t.job_id)
    × (get "assigned_agent" job ≡ text t.agent_id)
    × (get "status" job ≡ text "done")
    × (get "attempt_count" job ≡ t.attempt_token)
    × Stores doc stored

member-is_stored :
    (f : Value → Value → Bool) (k : String) (v : Value) (ms stored : Members)
    → (k ≡ "usage_evidence") ⊎ (lookup k stored ≡ some v)
    → IsPlain f v
    → is_stored f ms stored ≡ true
    → is_stored f (member k v ms) stored ≡ true
unfolding is_stored
member-is_stored f k v ms stored (inl e) p rest =
    let usage : (k == "usage_evidence") ≡ true =
      ap (λ x. x == "usage_evidence") e ∙ ==_refl {A = String} "usage_evidence" in
    rw usage rest
member-is_stored f k v ms stored (inr e) p rest = elim (Bool-cases (k == "usage_evidence")) [
  | inl usage ↦ rw usage rest
  | inr other ↦ rw (other, e, same_value_refl f v p) rest
]

Stores-is_stored :
    (f : Value → Value → Bool) (doc stored : Members)
    → HavePlain f doc
    → Stores doc stored
    → is_stored f doc stored ≡ true
unfolding Stores HavePlain
Stores-is_stored f empty stored p h = unfold is_stored in refl
Stores-is_stored f (member k v ms) stored (p, ps) (h, hs) =
    member-is_stored f k v ms stored h p (Stores-is_stored f ms stored ps hs)

receipt-matches :
    (f : Value → Value → Bool) (t : Trusted) (doc : Members) (receipt : Value) (n : ℤ)
    → t.attempt_token ≡ int n
    → IsPlain f t.job_id
    → HavePlain f doc
    → Acknowledges receipt t doc
    → reported_success_matches f t doc receipt ≡ true
unfolding reported_success_matches is_confirmed_job Acknowledges ReceiptOf
receipt-matches f t doc receipt n token plain ps
      (job, stored, (e1, e2), id, agent, status, attempt, h) =
    rw
      (
        e1,
        id,
        agent,
        status,
        attempt,
        e2,
        same_value_refl f t.job_id plain,
        same_value_refl f (text t.agent_id) (unfold IsPlain in tt),
        same_value_refl f (text "done") (unfold IsPlain in tt),
        token,
        same_int_refl n,
      )
      (Stores-is_stored f doc stored ps h)

finish-confirmed :
    (env : Environment) (job : Job) (r : AdapterResult) (s : Turn) (session : String)
    → effective_outcome r ≡ success
    → r.session_id ≡ some session
    → (session == "") ≡ false
    → (finish_turn env job true (r, s)).1 ≡ persist_session_result env job session s
unfolding finish_turn
finish-confirmed env job r s session succeeded has_session present =
    ground (arith, succeeded, has_session, present)

report-confirmed :
    (env : Environment) (job : Job) (w : World) (run : Run) (e : Ended) (doc : Members)
    (receipt : Value) (session : String)
    → reported_success_matches w.same_float run.trusted doc receipt ≡ true
    → effective_outcome e.result ≡ success
    → e.result.session_id ≡ some session
    → (session == "") ≡ false
    → after_report env job w run e doc (some receipt)
      ≡ persist_session_result env job session e.turn
unfolding after_report
report-confirmed env job w run e doc receipt session h succeeded has_session present =
    ap (λ b. (finish_turn env job b (e.result, e.turn)).1) h
    ∙ finish-confirmed env job e.result e.turn session succeeded has_session present

-- A success with a session is persisted: where its report can be built and the coordinator acknowledges
-- it, the turn ends with the write of that session.
pub conclude-persist_session_result :
    (env : Environment) (job : Job) (w : World) (run : Run) (ending : Ending) (s : Turn) (e : Ended)
    (doc : Members) (receipt : Value) (session : String) (n : ℤ)
    → race env job ending s ≡ inl e
    → result_json run.trusted run.context run.binding (completion w e) ≡ some doc
    → w.report_job (submission_of run e doc) ≡ some receipt
    → Acknowledges receipt run.trusted doc
    → HavePlain w.same_float doc
    → IsPlain w.same_float run.trusted.job_id
    → run.trusted.attempt_token ≡ int n
    → effective_outcome e.result ≡ success
    → e.result.session_id ≡ some session
    → (session == "") ≡ false
    → (conclude env job w run ending s).turn ≡ persist_session_result env job session e.turn
unfolding conclude conclude_ended submit
conclude-persist_session_result env job w run ending s e doc receipt session n ended built answered
      acknowledged plain id token succeeded has_session present =
    rw (ended, built, answered)
      (report-confirmed env job w run e doc receipt session
        (receipt-matches w.same_float run.trusted doc receipt n token id plain acknowledged)
        succeeded has_session present)
