-- ===== src/Worker/Persist.antt =====
-- What a provider turn of multinexus/agentd/worker.py writes to the sessions table.
use multinexus.Base.{
  true, ℕ, String, ◌≡◌, refl, ◌≢◌, Bool, false, Option, none, some, [], ◌==◌, string_eq, ==_iff,
  arith, Bool-cases, inl, inr, sym, ◌∙◌,
}
use multinexus.Adapters.{AdapterResult}
use multinexus.Sessions.{Session, Table, Expected, stale, session_matches_expected}
use multinexus.Sessions.Same.{HasKey, find-matches}
use multinexus.Sessions.Table.{find}
use multinexus.Sessions.Store.{Upsert, upsert, mark_stale}
use multinexus.Sessions.Lookup.{
  upsert_effect, find-upsert, advance_effect, find-advance, mark_effect, find-mark_status,
}
use multinexus.Sessions.History.{run}
use multinexus.Worker.{Invocation, call, resume, Envelope, Environment, Job, Turn}
use multinexus.Worker.Fallback.{call_or_resume-cases}
use multinexus.Worker.Steps.{
  effective_prompt, invoke, retire_session, keep_work_dir, find_existing,
  resume_recoverable_session, resume_existing, fall_back, start_or_resume, call_or_resume,
  finish_turn, run_turn, text_of,
}
use multinexus.Worker.Writes.{
  persist_session_result, persisting, advance_checkpoint, checkpoint, expected_row, after_upsert,
}

upsert-refused :
    (now : ℕ) (u : Upsert) (t : Table)
    → session_matches_expected (find u.scope_id u.agent_id t) u.expected_session ≡ false
    → upsert now u t ≡ (none, t)
unfolding upsert
upsert-refused now u t h = rw h

after_refused :
    (env : Environment) (job : Job) (session : String) (e : Option Envelope) (s : Turn)
    → (after_upsert env job session none e s).table ≡ s.table
unfolding after_upsert
after_refused env job session e s = refl

matches-snapshot :
    (scope agent : String) (t : Table) (snapshot : Option Session)
    → HasKey scope agent snapshot
    → session_matches_expected (find scope agent t) (expected_row snapshot) ≡ true
    → find scope agent t ≡ snapshot
unfolding expected_row
matches-snapshot scope agent t none key h = find-matches scope agent t none key h
matches-snapshot scope agent t (some r) key h = find-matches scope agent t (some r) key h

-- A row that differs from the snapshot fails the comparison.
changed-refused :
    (scope agent : String) (t : Table) (snapshot : Option Session)
    → HasKey scope agent snapshot
    → find scope agent t ≢ snapshot
    → session_matches_expected (find scope agent t) (expected_row snapshot) ≡ false
changed-refused scope agent t snapshot key changed =
    elim (Bool-cases (session_matches_expected (find scope agent t) (expected_row snapshot))) [
      | inl e ↦ absurd (changed (matches-snapshot scope agent t snapshot key e))
      | inr e ↦ e
    ]

persist-refused :
    (env : Environment) (job : Job) (session : String) (s : Turn)
    → session_matches_expected
        (find job.session_scope_id job.agent_id s.table)
        (expected_row s.snapshot)
      ≡ false
    → (persist_session_result env job session s).table ≡ s.table
unfolding persist_session_result
persist-refused env job session s h = ground (
  arith,
  after_refused env job session job.context_envelope s,
  upsert-refused env.finish_time (persisting job s session) s.table (unfold persisting in h),
)

-- A turn never writes over a row that is not the one that it observed: if the row of the job's scope and
-- agent in the table is not the snapshot's in every column, or only one of them exists, where a snapshot
-- is of that key, the end of the turn leaves the table as it is.
pub persist_after_change :
    (env : Environment) (job : Job) (session : String) (s : Turn)
    → HasKey job.session_scope_id job.agent_id s.snapshot
    → find job.session_scope_id job.agent_id s.table ≢ s.snapshot
    → (persist_session_result env job session s).table ≡ s.table
persist_after_change env job session s key changed =
    persist-refused env job session s
      (changed-refused job.session_scope_id job.agent_id s.table s.snapshot key changed)

-- The rows of agents other than the worker's.
module _ (env : Environment) (job : Job) (k l : String) (other : l ≢ job.agent_id) where
  not-own : (job.agent_id == l) ≡ false
  not-own = elim (Bool-cases (job.agent_id == l)) [
    | inl e ↦ absurd (other (sym ((==_iff job.agent_id l).0 e)))
    | inr e ↦ e
  ]

  find-mark_stale :
      (now : ℕ) (scope : String) (expected : Expected) (t : Table)
      → find k l (mark_stale now scope job.agent_id expected t).1 ≡ find k l t
  unfolding mark_stale mark_effect
  find-mark_stale now scope expected t =
      find-mark_status now scope job.agent_id stale expected t k l ∙ ground (arith, not-own)

  find-retire_session :
      (r : Session) (s : Turn) → find k l (retire_session env job r s).1.table ≡ find k l s.table
  unfolding retire_session
  find-retire_session r s =
      ground (arith, find-mark_stale env.retire_time r.scope_id (Expected.row r) s.table)

  find-advance_checkpoint :
      (session : String) (row : Session) (e : Envelope) (s : Turn)
      → find k l (advance_checkpoint env job session row e s).table ≡ find k l s.table
  unfolding advance_checkpoint advance_effect checkpoint
  find-advance_checkpoint session row e s =
      ground
        (arith, not-own, find-advance env.finish_time (checkpoint job row session e) s.table k l)

  find-upsert_other :
      (session : String) (s : Turn)
      → find k l (upsert env.finish_time (persisting job s session) s.table).1 ≡ find k l s.table
  unfolding upsert_effect persisting
  find-upsert_other session s =
      find-upsert env.finish_time (persisting job s session) s.table k l ∙ ground (arith, not-own)

  find-after_upsert :
      (session : String) (row : Option Session) (e : Option Envelope) (s : Turn)
      → find k l (after_upsert env job session row e s).table ≡ find k l s.table
  unfolding after_upsert
  find-after_upsert session none e s = refl
  find-after_upsert session (some row) none s = refl
  find-after_upsert session (some row) (some e) s = find-advance_checkpoint session row e s

  find-persist_session_result :
      (session : String) (s : Turn)
      → find k l (persist_session_result env job session s).table ≡ find k l s.table
  unfolding persist_session_result
  find-persist_session_result session s =
      let (row, t) = upsert env.finish_time (persisting job s session) s.table in
      ground (
        arith,
        find-upsert_other session s,
        find-after_upsert session row job.context_envelope (record s { table = t }),
      )

  find-finish_turn :
      (is_confirmed : Bool) (x : AdapterResult × Turn)
      → find k l (finish_turn env job is_confirmed x).1.table ≡ find k l x.1.table
  unfolding finish_turn
  find-finish_turn is_confirmed (result, s) =
      ground (arith, find-persist_session_result (text_of result.session_id) s)

  module _ (quiet : (i : Invocation) → env.meanwhile i ≡ []) where
    find-invoke : (i : Invocation) (s : Turn) → find k l (invoke env i s).1.table ≡ find k l s.table
    unfolding invoke run
    find-invoke i s = rw (quiet i)

    find-resume_recoverable_session :
        (session prompt : String) (s : Turn)
        → find k l (resume_recoverable_session env session prompt s).1.table ≡ find k l s.table
    unfolding resume_recoverable_session
    find-resume_recoverable_session session prompt s =
        ground (arith, find-invoke (resume session prompt) s)

    find-find_existing : (s : Turn) → find k l (find_existing env job s).1.table ≡ find k l s.table
    unfolding find_existing
    find-find_existing s = ground arith

    find-keep_work_dir :
        (x : Option Session × Turn)
        → find k l (keep_work_dir env job x).1.table ≡ find k l x.1.table
    unfolding keep_work_dir
    find-keep_work_dir (none, s) = refl
    find-keep_work_dir (some r, s) = ground (arith, find-retire_session r s)

    find-fall_back :
        (r : Session) (result : AdapterResult) (s : Turn)
        → find k l (fall_back env job r result s).1.table ≡ find k l s.table
    unfolding fall_back
    find-fall_back r result s = ground (
      arith,
      find-retire_session r s,
      find-invoke (call job.prompt) (retire_session env job r s).1,
    )

    find-start_or_resume :
        (existing : Option Session) (s : Turn)
        → find k l (start_or_resume env job existing s).1.table ≡ find k l s.table
    unfolding start_or_resume resume_existing
    find-start_or_resume none s = find-invoke (call job.prompt) s
    find-start_or_resume (some r) s =
        let i = resume r.session_id (effective_prompt job r s) in
        let (result, s') = invoke env i s in
        ground (arith, find-invoke i s, find-fall_back r result s')

    find-call_or_resume :
        (s : Turn) → find k l (call_or_resume env job s).1.table ≡ find k l s.table
    find-call_or_resume s =
        let found = find_existing env job s in
        let kept = keep_work_dir env job found in
        let same = find-keep_work_dir found ∙ find-find_existing s in
        elim (call_or_resume-cases env job s) [
          | inl e ↦ rw e (find-resume_recoverable_session job.recovery_session_id job.prompt s)
          | inr (inl e) ↦
              rw e
                (find-resume_recoverable_session job.recovery_session_id job.prompt kept.1 ∙ same)
          | inr (inr (inl e)) ↦ rw e (find-invoke (call job.prompt) s)
          | inr (inr (inr e)) ↦ rw e (find-start_or_resume kept.0 kept.1 ∙ same)
        ]

-- A turn writes rows of its own agent only: if no other process writes while the provider runs, every
-- row of another agent is after the turn what it was before, on every path of the turn.
pub run_turn-other_agent :
    (env : Environment) (job : Job) (is_confirmed : Bool) (s : Turn) (scope agent : String)
    → agent ≢ job.agent_id
    → ((i : Invocation) → env.meanwhile i ≡ [])
    → find scope agent (run_turn env job is_confirmed s).1.table ≡ find scope agent s.table
unfolding run_turn
run_turn-other_agent env job is_confirmed s scope agent other quiet =
    find-finish_turn env job scope agent other is_confirmed (call_or_resume env job s)
    ∙ find-call_or_resume env job scope agent other quiet s
