-- ===== src/Worker/Conclude/Confirmed.antt =====
-- When the end of `_process_job` of multinexus/agentd/worker.py reports, and when it writes the sessions
-- table.
use mathlib.Core.Path.{subst}
use mathlib.Core.Option.{some-injective}
use multinexus.Base.{
  ◌≡◌, ◌⊎◌, ap, refl, sym, String, Bool, true, Option, none, some, string_eq, arith, Bool-cases,
  Option-cases, inl, inr,
}
use multinexus.Base.Value.{Value, Members}
use multinexus.Adapters.{AdapterResult, success, effective_outcome, status_for_result}
use multinexus.Worker.{Environment, Job, Turn}
use multinexus.Worker.Steps.{is_success, finish_turn}
use multinexus.Worker.Report.{Completion, status_text, result_json, reported_success_matches}
use multinexus.Worker.Report.Kept.{Names, result_json-Names}
use multinexus.Worker.Conclude.{
  Ending, returned, broken, lease_lost, cancelled, Submission, World, Run, Conclusion, Ended, race,
  completion, submission_of, after_report, submit, conclude_ended, conclude,
}
use multinexus.Worker.Conclude.Receipt.{matches-IsConfirmation, IsConfirmation}

finish-cases :
    (env : Environment) (job : Job) (b : Bool) (r : AdapterResult) (s : Turn)
    → ((finish_turn env job b (r, s)).1 ≡ s)
      ⊎ ((b ≡ true)
          × (effective_outcome r ≡ success)
          × ((session : String) × (r.session_id ≡ some session)))
unfolding finish_turn
finish-cases env job b r s = elim (Option-cases r.session_id) [
  | inl e ↦ inl (ground (arith, e))
  | inr (session, e) ↦ elim (Bool-cases b) [
    | inl f ↦ elim (Bool-cases (is_success r)) [
      | inl g ↦ inr (f, ground (arith, g), (session, e))
      | inr g ↦ inl (ground (arith, g))
    ]
    | inr f ↦ inl (ground (arith, f))
  ]
]

-- What the end of a run writes, or what confirmed it.
unfoldable pub IsWritten : World → Run → Ended → Conclusion → Type 0
IsWritten w run e c =
    (c.turn.table ≡ e.turn.table)
    ⊎ ((sub : Submission) × (receipt : Value) × (session : String) × (c.submission ≡ some sub)
        × (w.report_job sub ≡ some receipt)
        × (effective_outcome e.result ≡ success)
        × (e.result.session_id ≡ some session)
        × IsConfirmation run receipt session)

report-IsWritten :
    (env : Environment) (job : Job) (w : World) (run : Run) (e : Ended) (doc : Members)
    (answer : Option Value)
    → result_json run.trusted run.context run.binding (completion w e) ≡ some doc
    → w.report_job (submission_of run e doc) ≡ answer
    → IsWritten w run e (record {
      turn = after_report env job w run e doc answer;
      submission = some (submission_of run e doc);
    })
unfolding after_report IsWritten completion
report-IsWritten env job w run e doc none built answered = inl refl
report-IsWritten env job w run e doc (some receipt) built answered =
    let b = reported_success_matches w.same_float run.trusted doc receipt in
    elim (finish-cases env job b e.result e.turn) [
      | inl same ↦ inl (ap (λ (t : Turn). t.table) same)
      | inr (matched, succeeded, (session, has_session)) ↦ inr (
        submission_of run e doc,
        receipt,
        session,
        refl,
        answered,
        succeeded,
        has_session,
        matches-IsConfirmation w.same_float run (completion w e) doc receipt session built succeeded
            has_session matched,
      )
    ]

submit-IsWritten :
    (env : Environment) (job : Job) (w : World) (run : Run) (e : Ended) (o : Option Members)
    → result_json run.trusted run.context run.binding (completion w e) ≡ o
    → IsWritten w run e (submit env job w run e o)
unfolding submit IsWritten
submit-IsWritten env job w run e none built = inl refl
submit-IsWritten env job w run e (some doc) built =
    report-IsWritten env job w run e doc (w.report_job (submission_of run e doc)) built refl

ended-IsWritten :
    (env : Environment) (job : Job) (w : World) (run : Run) (e : Ended) (x : Ended ⊎ Turn)
    → x ≡ inl e
    → IsWritten w run e (conclude_ended env job w run x)
unfolding conclude_ended
ended-IsWritten env job w run e x h =
    subst (λ y. IsWritten w run e (conclude_ended env job w run y)) (sym h)
      (submit-IsWritten env job w run e
        (result_json run.trusted run.context run.binding (completion w e)) refl)

-- When the provider has ended, the end of `_process_job` leaves the sessions table as it is, or else the
-- run was a success with a session, it was reported, and the receipt names this agent, attempt and lease,
-- this execution context, and the very session, as a job that is done with the outcome `success`.
pub conclude-IsWritten :
    (env : Environment) (job : Job) (w : World) (run : Run) (ending : Ending) (s : Turn) (e : Ended)
    → race env job ending s ≡ inl e
    → IsWritten w run e (conclude env job w run ending s)
unfolding conclude
conclude-IsWritten env job w run ending s e h =
    ended-IsWritten env job w run e (race env job ending s) h

unfoldable pub HasEnded : Ending → Type 0
HasEnded (returned metadata) = Unit
HasEnded (broken name s) = Unit
HasEnded (lease_lost s) = ⊥
HasEnded (cancelled s) = ⊥

-- A report of the run's end, under the identity that the claim was checked against.
unfoldable pub IsReportOf : Run → Submission → Type 0
IsReportOf run sub =
    (sub.identity ≡ run.trusted)
    × ((x : Completion) × (result_json run.trusted run.context run.binding x ≡ some sub.document)
        × Names run.trusted run.context x sub.document
        × (sub.status ≡ status_text (status_for_result x.result)))

submit-IsReportOf :
    (env : Environment) (job : Job) (w : World) (run : Run) (e : Ended) (o : Option Members)
    (sub : Submission)
    → result_json run.trusted run.context run.binding (completion w e) ≡ o
    → (submit env job w run e o).submission ≡ some sub
    → IsReportOf run sub
unfolding submit
submit-IsReportOf env job w run e none sub built h = cc
submit-IsReportOf env job w run e (some doc) sub built h =
    subst (IsReportOf run) (some-injective _ _ h) (
      unfold IsReportOf submission_of in
      (
        refl,
        (
          completion w e,
          built,
          result_json-Names run.trusted run.context run.binding (completion w e) doc built,
          unfold completion in refl,
        ),
      ))

-- A job is reported only when its provider has ended, never after its lease was lost or the worker was
-- cancelled; the report is made under the trusted identity, its document names the same attempt and lease
-- with the execution context and the session scope, and its status and its outcome are those of one
-- result.
pub conclude-IsReportOf :
    (env : Environment) (job : Job) (w : World) (run : Run) (ending : Ending) (s : Turn)
    (sub : Submission)
    → (conclude env job w run ending s).submission ≡ some sub
    → HasEnded ending × IsReportOf run sub
unfolding conclude race conclude_ended HasEnded
conclude-IsReportOf env job w run (returned metadata) s sub h =
    (tt, submit-IsReportOf env job w run _ _ sub refl h)
conclude-IsReportOf env job w run (broken name s') s sub h =
    (tt, submit-IsReportOf env job w run _ _ sub refl h)
conclude-IsReportOf env job w run (lease_lost s') s sub h = cc
conclude-IsReportOf env job w run (cancelled s') s sub h = cc
