-- ===== src/Worker/Conclude.antt =====
-- From the call of the provider to the end of `_process_job` of multinexus/agentd/worker.py: the race of
-- the provider with the lease's renewal, the report, and the session row that a confirmed report allows.
use multinexus.Base.{ℕ, String, Bool, false, Option, none, some, ◌⊎◌, inl, inr}
use multinexus.Base.Value.{Value, Members, empty}
use multinexus.Adapters.{AdapterResult, failed, internal_error, status_for_result}
use multinexus.Claims.{ExecutionContext, ExecutorBinding}
use multinexus.Worker.{Environment, Job, Turn}
use multinexus.Worker.Steps.{call_or_resume, finish_turn}
use multinexus.Worker.Report.{
  Trusted, Completion, status_text, result_json, reported_success_matches,
}
pub mod Receipt
pub mod Confirmed
pub mod Echo
pub mod Saved
pub mod Examples

-- How the race ends: the provider's result with its `metadata`, or an unexpected exception of it, by the
-- name of its type; a lost lease; or the cancellation of the worker. In the last three the turn has come
-- to some state.
pub data Ending : Type 0 where
  returned : Members → Ending
  broken : String → Turn → Ending
  lease_lost cancelled : Turn → Ending

-- What is reported: `report_job`'s arguments.
pub record Submission : Type 0 where
  pub identity : Trusted
  pub status : String
  pub document : Members

-- `report_job` answers a receipt, or raises; `same_float` compares numbers of which one is a `float`.
pub record World : Type 0 where
  pub report_job : Submission → Option Value
  pub same_float : Value → Value → Bool
  pub duration_ms : ℕ
  pub progress : Members

-- The job under way: its identity, its execution context and its executor binding.
pub record Run : Type 0 where
  pub trusted : Trusted
  pub context : ExecutionContext
  pub binding : Option ExecutorBinding

pub record Conclusion : Type 0 where
  pub turn : Turn
  pub submission : Option Submission

pub record Ended : Type 0 where
  pub result : AdapterResult
  pub metadata : Members
  pub turn : Turn

-- The result of an unexpected exception, which tells only the exception's type.
unfoldable pub broken_result : String → AdapterResult
broken_result name = record {
  text = "Agent error: internal adapter failure";
  session_id = none;
  resumed = false;
  has_timeout_metadata = false;
  outcome = some failed;
  error_category = some internal_error;
  diagnostic = name;
}

ended_with : Members → AdapterResult × Turn → Ended
ended_with metadata (r, s) = record { result = r; metadata = metadata; turn = s }

-- The result of the provider, or the turn that was given up.
unfoldable pub race : Environment → Job → Ending → Turn → Ended ⊎ Turn
unfolding ended_with broken_result
race env job (returned metadata) s = inl (ended_with metadata (call_or_resume env job s))
race env job (broken name s') s =
    inl (record { result = broken_result name; metadata = empty; turn = s' })
race env job (lease_lost s') s = inr s'
race env job (cancelled s') s = inr s'

unfoldable pub completion : World → Ended → Completion
completion w e = record {
  result = e.result;
  metadata = e.metadata;
  duration_ms = w.duration_ms;
  progress = w.progress;
}

unfoldable pub submission_of : Run → Ended → Members → Submission
submission_of run e doc = record {
  identity = run.trusted;
  status = status_text (status_for_result e.result);
  document = doc;
}

-- After the report: nothing if it raised, and else the end of the turn.
unfoldable pub after_report :
    Environment → Job → World → Run → Ended → Members → Option Value → Turn
after_report env job w run e doc none = e.turn
after_report env job w run e doc (some receipt) =
    (finish_turn env job (reported_success_matches w.same_float run.trusted doc receipt)
      (e.result, e.turn)).1

unfoldable pub submit : Environment → Job → World → Run → Ended → Option Members → Conclusion
unfolding after_report submission_of
submit env job w run e none = record { turn = e.turn; submission = none }
submit env job w run e (some doc) = record {
  turn = after_report env job w run e doc (w.report_job (submission_of run e doc));
  submission = some (submission_of run e doc);
}

unfoldable pub conclude_ended : Environment → Job → World → Run → Ended ⊎ Turn → Conclusion
unfolding submit completion
conclude_ended env job w run (inl e) =
    submit env job w run e (result_json run.trusted run.context run.binding (completion w e))
conclude_ended env job w run (inr s') = record { turn = s'; submission = none }

unfoldable pub conclude : Environment → Job → World → Run → Ending → Turn → Conclusion
unfolding race conclude_ended
conclude env job w run ending s = conclude_ended env job w run (race env job ending s)
