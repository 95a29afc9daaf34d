-- ===== src/Worker/Recovery.antt =====
-- The recovery of a job in multinexus/agentd/worker.py never starts a duplicate execution.
use multinexus.Base.{
  String, ◌≡◌, refl, ◌≢◌, Bool, false, Option, none, some, ◌∷◌, ◌==◌, string_eq, ==_iff, arith,
  Bool-cases, inl, inr,
}
use multinexus.Adapters.{AdapterResult}
use multinexus.Sessions.Store.{upsert}
use multinexus.Worker.{Envelope, Session, resume, Environment, Job, Turn}
use multinexus.Worker.Steps.{
  text_of, invoke, retire_session, keep_work_dir, find_existing, resume_recoverable_session,
  call_or_resume, finish_turn, run_turn,
}
use multinexus.Worker.Writes.{after_upsert, persisting, persist_session_result, advance_checkpoint}

pub invoked-retire_session :
    (env : Environment) (job : Job) (r : Session) (s : Turn)
    → (retire_session env job r s).1.invoked ≡ s.invoked
unfolding retire_session
invoked-retire_session env job r s = ground arith

pub invoked-keep_work_dir :
    (env : Environment) (job : Job) (x : Option Session × Turn)
    → (keep_work_dir env job x).1.invoked ≡ x.1.invoked
unfolding keep_work_dir
invoked-keep_work_dir env job (none, s) = refl
invoked-keep_work_dir env job (some r, s) = ground (arith, invoked-retire_session env job r s)

pub invoked-find_existing :
    (env : Environment) (job : Job) (s : Turn) → (find_existing env job s).1.invoked ≡ s.invoked
unfolding find_existing
invoked-find_existing env job s = ground arith

pub invoked-resume_recoverable_session :
    (env : Environment) (session prompt : String) (s : Turn)
    → (resume_recoverable_session env session prompt s).1.invoked
      ≡ resume session prompt ∷ s.invoked
unfolding resume_recoverable_session invoke
invoked-resume_recoverable_session env session prompt s = ground arith

invoked-after_upsert :
    (env : Environment) (job : Job) (session : String) (row : Option Session)
    → (e : Option Envelope) (s : Turn) → (after_upsert env job session row e s).invoked ≡ s.invoked
unfolding after_upsert advance_checkpoint
invoked-after_upsert env job session none e s = refl
invoked-after_upsert env job session (some row) none s = refl
invoked-after_upsert env job session (some row) (some e) s = ground arith

invoked-persist_session_result :
    (env : Environment) (job : Job) (session : String) (s : Turn)
    → (persist_session_result env job session s).invoked ≡ s.invoked
unfolding persist_session_result
invoked-persist_session_result env job session s =
    let (row, t) = upsert env.finish_time (persisting job s session) s.table in
    ground (
      arith,
      invoked-after_upsert env job session row job.context_envelope (record s { table = t }),
    )

pub invoked-finish_turn :
    (env : Environment) (job : Job) (is_confirmed : Bool) (x : AdapterResult × Turn)
    → (finish_turn env job is_confirmed x).1.invoked ≡ x.1.invoked
unfolding finish_turn
invoked-finish_turn env job is_confirmed (result, s) =
    ground (arith, invoked-persist_session_result env job (text_of result.session_id) s)

not-is_empty : (s : String) → s ≢ "" → (s == "") ≡ false
not-is_empty s h = elim (Bool-cases (s == "")) [
  | inl e ↦ absurd (h ((==_iff s "").0 e))
  | inr e ↦ e
]

-- A job that carries a session to recover is resumed in that session exactly once and is never
-- started afresh: whatever the stored session rows are, whatever other processes do to them,
-- whichever database access fails and however the resume ends, the turn invokes the adapter once,
-- to resume the recovered session with the full prompt.
pub recovery_single_resume :
    (env : Environment) (job : Job) (is_confirmed : Bool) (s : Turn)
    → job.recovery_session_id ≢ ""
    → (run_turn env job is_confirmed s).1.invoked
      ≡ resume job.recovery_session_id job.prompt ∷ s.invoked
unfolding run_turn call_or_resume
recovery_single_resume env job is_confirmed s h =
    let existing = keep_work_dir env job (find_existing env job s) in
    ground (
      arith,
      not-is_empty job.recovery_session_id h,
      invoked-finish_turn env job is_confirmed (call_or_resume env job s),
      invoked-resume_recoverable_session env job.recovery_session_id job.prompt s,
      invoked-resume_recoverable_session env job.recovery_session_id job.prompt existing.1,
      invoked-keep_work_dir env job (find_existing env job s),
      invoked-find_existing env job s,
    )
