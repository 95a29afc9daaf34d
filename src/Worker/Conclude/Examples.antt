-- ===== src/Worker/Conclude/Examples.antt =====
-- Runs of multinexus/agentd/worker.py to the end of `_process_job`, and the theorems applied to them.
use multinexus.Base.{ap, ◌∙◌, ◌≡◌, refl, true, false, none, some, [], ◌∷◌, inl, inr}
use multinexus.Base.Value.{
  boolean, Value, pos, Members, empty, member, int, text, object, lookup, get,
}
use multinexus.Adapters.{success, effective_outcome}
use multinexus.Claims.{ExecutionContext}
use multinexus.Base.Text.{strip}
use multinexus.Base.Same.Reflexive.{IsPlain, HavePlain}
use multinexus.Claims.Response.{truthy}
use multinexus.Sessions.{session_matches_expected}
use multinexus.Sessions.Table.{find}
use multinexus.Sessions.Store.{get_first_active}
use multinexus.Sessions.History
use multinexus.Worker.Steps.{call_or_resume, start_or_resume, keep_work_dir, find_existing, invoke}
use multinexus.Worker.Writes.{expected_row}
use multinexus.Worker.{call, Turn}
use multinexus.Worker.Examples.{quiet, job, answer}
use multinexus.Worker.Report.{Trusted, result_json, is_no_response, outcome_text, text_or_null}
use multinexus.Worker.Conclude.{
  returned, World, Run, Ended, race, completion, submission_of, conclude, conclude_ended, submit,
}
use multinexus.Worker.Conclude.Confirmed.{
  IsWritten, conclude-IsWritten, HasEnded, IsReportOf, conclude-IsReportOf,
}
use multinexus.Worker.Report.{dict_at, dict_of}
use multinexus.Worker.Conclude.Receipt.{ReceiptOf}
use multinexus.Worker.Conclude.Echo.{Stores, Acknowledges}
use multinexus.Worker.Conclude.Saved.{HasRow, conclude-HasRow}

abbrev pub context : ExecutionContext
context = record {
  context_id = "ctx";
  job_id = "job 7";
  workspace_id = "ws";
  task_id = none;
  assigned_agent = "codex";
  host_id = "host-1";
  workspace_path = "/srv";
  worktree_path = "/w";
  harness_root = "/h";
  branch = none;
  session_scope_id = "channel:7";
  legacy_scope_ids = [];
  log_handle = record { job_id = "job 7"; logs_path = none };
}

abbrev trusted : Trusted
trusted = record {
  agent_id = "codex";
  job_id = text "job 7";
  attempt_token = int (pos 3);
  lease_id = some "lease 1";
}

abbrev run : Run
run = record { trusted = trusted; context = context; binding = none }

-- `result_json` of the run.
abbrev report : Members
report = member "response_text" (text "hello") (
    member "session_id" (text "s2") (
      member "duration_ms" (int (pos 1200)) (
        member "execution_context_id" (text "ctx") (
          member "worktree_path" (text "/w") (
            member "session_scope_id" (text "channel:7") (
              member "outcome" (text "success") (
                member "attempt_token" (int (pos 3)) (
                  member "lease_id" (text "lease 1")
                    (member "progress" (object (member "stage" (text "edit") empty)) empty)))))))))

abbrev receipt_job : Members
receipt_job = member "id" trusted.job_id (
    member "attempt_count" trusted.attempt_token (
      member "assigned_agent" (text trusted.agent_id) (
        member "status" (text "done")
          (member "updated_at" (int (pos 99)) (member "result" (object report) empty)))))

abbrev receipt : Value
receipt = object (
    member "ok" (boolean true)
      (member "result" (object (member "job" (object receipt_job) empty)) empty))

-- A coordinator that stores what is reported.
abbrev world : World
world = record {
  report_job = λ sub. some receipt;
  same_float = λ v w. false;
  duration_ms = 1200;
  progress = member "stage" (text "edit") empty;
}

abbrev first : Turn
first = record { snapshot = none; writable = true; confirmed = none; table = []; invoked = [] }

abbrev ended : Ended
ended = record {
  result = answer (call "hi");
  metadata = empty;
  turn = record first { invoked = call "hi" ∷ [] };
}

ended_lem : race quiet job (returned empty) first ≡ inl ended
unfolding race call_or_resume start_or_resume keep_work_dir find_existing get_first_active invoke
    History.run
ended_lem = refl

built : result_json run.trusted run.context run.binding (completion world ended) ≡ some report
unfolding result_json completion lookup truthy get is_no_response strip outcome_text text_or_null
    effective_outcome
built = refl

stores : Stores report report
unfolding Stores lookup
stores = (
  inr refl,
  (
    inr refl,
    (
      inr refl,
      (inr refl, (inr refl, (inr refl, (inr refl, (inr refl, (inr refl, (inr refl, tt))))))),
    ),
  ),
)

is_acknowledged : Acknowledges receipt trusted report
unfolding Acknowledges ReceiptOf dict_at dict_of get lookup
is_acknowledged = (receipt_job, report, (refl, refl), refl, refl, refl, refl, stores)

plain : HavePlain world.same_float report
unfolding HavePlain IsPlain lookup
plain = (tt, (tt, (tt, (tt, (tt, (tt, (tt, (tt, (tt, (((refl, tt), (tt, tt)), tt))))))))))

was_reported :
    (conclude quiet job world run (returned empty) first).submission
    ≡ some (submission_of run ended report)
unfolding conclude conclude_ended submit
was_reported =
    ap (λ x. (conclude_ended quiet job world run x).submission) ended_lem
    ∙ ap (λ o. (submit quiet job world run ended o).submission) built

is_plain : IsPlain world.same_float run.trusted.job_id
unfolding IsPlain
is_plain = tt

is_success_lem : effective_outcome ended.result ≡ success
unfolding effective_outcome
is_success_lem = refl

is_free :
    session_matches_expected
      (find "channel:7" "codex" ended.turn.table)
      (expected_row ended.turn.snapshot)
    ≡ true
unfolding session_matches_expected find expected_row
is_free = refl

conclude-IsWritten_example :
    IsWritten world run ended (conclude quiet job world run (returned empty) first)
conclude-IsWritten_example =
    conclude-IsWritten quiet job world run (returned empty) first ended ended_lem

conclude-IsReportOf_example :
    HasEnded (returned empty) × IsReportOf run (submission_of run ended report)
conclude-IsReportOf_example =
    conclude-IsReportOf quiet job world run (returned empty) first (submission_of run ended report)
      was_reported

conclude-HasRow_example :
    HasRow job "s2" (conclude quiet job world run (returned empty) first).turn.table
conclude-HasRow_example =
    conclude-HasRow quiet job world run (returned empty) first ended report receipt "s2" (pos 3)
      ended_lem built refl is_acknowledged plain is_plain refl is_success_lem refl refl refl refl
      refl is_free
