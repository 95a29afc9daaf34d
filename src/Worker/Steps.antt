-- ===== src/Worker/Steps.antt =====
-- The functions of a provider turn of multinexus/agentd/worker.py.
use multinexus.Base.{
  String, Bool, true, false, not, ◌&&◌, Option, none, some, ◌∷◌, ◌==◌, string_eq, option_eq,
  if◌then◌else◌,
}
use multinexus.Adapters.{
  AdapterResult, success, failed, provider_error, internal_error, effective_outcome,
}
use multinexus.Sessions.{Session, Expected, is_active}
use multinexus.Sessions.Store.{get_first_active, mark_stale}
use multinexus.Sessions.History.{run}
use multinexus.Worker.{Invocation, call, resume, Envelope, Environment, Job, Turn}
use multinexus.Worker.Writes.{persist_session_result}

abbrev pub is_success : AdapterResult → Bool
is_success r = elim (effective_outcome r) [ success ↦ true | _ ↦ false ]

abbrev pub is_internal_error : AdapterResult → Bool
is_internal_error r = elim r.error_category [
  | none ↦ false
  | some c ↦ elim c [ internal_error ↦ true | _ ↦ false ]
]

-- `await self.adapter.call(...)` or `.resume(...)`: other processes may write meanwhile.
unfoldable pub invoke : Environment → Invocation → Turn → AdapterResult × Turn
invoke env i s =
    (env.provider i, record s { table = run (env.meanwhile i) s.table; invoked = i ∷ s.invoked })

-- Only this attempt's own retirement authorizes its fresh fallback.
unfoldable pub retire_session : Environment → Job → Session → Turn → Bool × Turn
retire_session env job existing s =
    let forgotten = record s { confirmed = none } in
    if env.retire_fails
    then (false, record forgotten { writable = false })
    else let (retired, t) =
        mark_stale env.retire_time existing.scope_id job.agent_id (Expected.row existing) s.table in
      elim retired [
        | none ↦ (false, record forgotten { writable = false; table = t })
        | some row ↦ (
          true,
          record forgotten {
            snapshot = if existing.scope_id == job.session_scope_id then some row else s.snapshot;
            table = t;
          },
        )
      ]

unfoldable pub resume_recoverable_session :
    Environment → String → String → Turn → AdapterResult × Turn
resume_recoverable_session env session prompt s =
    let (result, s') = invoke env (resume session prompt) s in
    if is_success result then (result, s') else (
      record {
        text =
            "Agent error: recoverable session resume failed; not starting duplicate fresh execution";
        session_id = some session;
        resumed = true;
        has_timeout_metadata = false;
        outcome = some failed;
        error_category = elim result.error_category [
          | none ↦ some provider_error
          | some c ↦ some c
        ];
        diagnostic = result.diagnostic;
      },
      s',
    )

active_row : Option Session → Option Session
active_row none = none
active_row (some r) = if is_active r.status then some r else none

-- The row to resume: the attempt's own if it is active, or else the first active legacy row.
unfoldable pub find_existing : Environment → Job → Turn → Option Session × Turn
unfolding active_row
find_existing env job s = elim (active_row s.snapshot) [
  | some r ↦ (some r, s)
  | none ↦
      if not s.writable
      then (none, s)
      else if env.lookup_fails
      then (none, record s { writable = false })
      else (get_first_active job.legacy_scope_ids job.agent_id s.table, s)
]

-- `current_work_dir and existing.get("work_dir") and current_work_dir != existing["work_dir"]`
unfoldable pub in_other_work_dir : Job → Session → Bool
in_other_work_dir job r = elim r.work_dir [
  | none ↦ false
  | some dir ↦ not (job.work_dir == "") && not (dir == "") && not (job.work_dir == dir)
]

-- A row of another work directory is retired and not resumed.
unfoldable pub keep_work_dir : Environment → Job → Option Session × Turn → Option Session × Turn
keep_work_dir env job (none, s) = (none, s)
keep_work_dir env job (some r, s) =
    if in_other_work_dir job r then (none, (retire_session env job r s).1) else (some r, s)

is_nonempty : Option String → Bool
is_nonempty none = false
is_nonempty (some s) = not (s == "")

-- `text or default`
unfoldable pub or_default : String → String → String
or_default text default = if text == "" then default else text

unfoldable pub text_of : Option String → String
text_of none = ""
text_of (some s) = s

-- This process has confirmed a turn of the row's session in the envelope's generation.
confirms : Option (String × String) → Session → Envelope → Bool
confirms none r e = false
confirms (some (session, generation)) r e = session == r.session_id && generation == e.generation

-- The prompt of a resumed session: the messages after its cursor if that is safe, and else the full
-- prompt.
unfoldable pub prompt_with : Job → Session → Turn → Option Envelope → String
unfolding is_nonempty or_default text_of confirms
prompt_with job r s none = job.prompt
prompt_with job r s (some e) =
    if confirms s.confirmed r e
      && r.scope_id == job.session_scope_id
      && r.context_generation == some e.generation
      && is_nonempty r.context_cursor_order_token
      && is_nonempty r.context_cursor_message_id
    then or_default
        (e.delta_prompt (text_of r.context_cursor_order_token)
          (text_of r.context_cursor_message_id))
        job.prompt
    else job.prompt

unfoldable pub effective_prompt : Job → Session → Turn → String
unfolding prompt_with
effective_prompt job r s = prompt_with job r s job.context_envelope

-- After the resumed session failed: a fresh call, or the failure without its session.
unfoldable pub fall_back : Environment → Job → Session → AdapterResult → Turn → AdapterResult × Turn
fall_back env job r result s =
    let (retired, s') = retire_session env job r s in
    if retired && env.allow_fresh_fallback && not (is_internal_error result)
    then invoke env (call job.prompt) s'
    else (record result { session_id = none }, s')

unfoldable pub resume_existing : Environment → Job → Session → Turn → AdapterResult × Turn
resume_existing env job r s =
    let (result, s') = invoke env (resume r.session_id (effective_prompt job r s)) s in
    if is_success result then (result, s') else fall_back env job r result s'

unfoldable pub start_or_resume : Environment → Job → Option Session → Turn → AdapterResult × Turn
start_or_resume env job none s = invoke env (call job.prompt) s
start_or_resume env job (some r) s = resume_existing env job r s

unfoldable pub call_or_resume : Environment → Job → Turn → AdapterResult × Turn
call_or_resume env job s =
    if job.session_scope_id == ""
    then (if not (job.recovery_session_id == "")
        then resume_recoverable_session env job.recovery_session_id job.prompt s
        else invoke env (call job.prompt) s)
    else let (existing, s') = keep_work_dir env job (find_existing env job s) in
      if not (job.recovery_session_id == "")
      then resume_recoverable_session env job.recovery_session_id job.prompt s'
      else start_or_resume env job existing s'

-- The end of `_process_job`: the session is written only for a success with a session whose terminal
-- receipt matches what was reported (`_reported_success_matches`, the argument `is_confirmed`).
unfoldable pub finish_turn : Environment → Job → Bool → AdapterResult × Turn → AdapterResult × Turn
unfolding is_nonempty text_of
finish_turn env job is_confirmed (result, s) =
    if is_success result && is_nonempty result.session_id && is_confirmed
    then (result, persist_session_result env job (text_of result.session_id) s)
    else (result, s)

unfoldable pub run_turn : Environment → Job → Bool → Turn → AdapterResult × Turn
run_turn env job is_confirmed s = finish_turn env job is_confirmed (call_or_resume env job s)
