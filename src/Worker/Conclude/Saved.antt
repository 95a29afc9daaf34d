-- ===== src/Worker/Conclude/Saved.antt =====
-- The row that the end of a confirmed run of multinexus/agentd/worker.py leaves in the sessions table.
use mathlib.Core.Path.{subst}
use multinexus.Base.{
  ℕ, ◌≡◌, ap, ◌∙◌, refl, sym, String, Bool, true, false, Option, none, some, ◌==◌, string_eq,
  ==_refl, arith, if◌then◌else◌, Bool-cases, inl, inr,
}
use multinexus.Base.Value.{Value, ℤ, Members, int}
use multinexus.Base.Same.Reflexive.{IsPlain, HavePlain}
use multinexus.Adapters.{success, effective_outcome}
use multinexus.Sessions.{Session, Table, session_matches_expected}
use multinexus.Sessions.Table.{find}
use multinexus.Sessions.Store.{advance_context_cursor, Upsert, inserted, merged, upsert, moved}
use multinexus.Sessions.Lookup.{
  written, upsert_effect, find-upsert, advance_effect, find-advance, map_row,
}
use multinexus.Worker.{Envelope, Environment, Job, Turn}
use multinexus.Worker.Writes.{
  persist_session_result, persisting, after_upsert, advance_checkpoint, checkpoint, expected_row,
}
use multinexus.Worker.Report.{result_json}
use multinexus.Worker.Conclude.{
  Ending, World, Run, Ended, race, completion, submission_of, conclude,
}
use multinexus.Worker.Conclude.Echo.{Acknowledges, conclude-persist_session_result}

-- The job's scope and agent have a row, which is of the session.
unfoldable pub HasRow : Job → String → Table → Type 0
HasRow job session t =
    (row : Session) × (find job.session_scope_id job.agent_id t ≡ some row)
    × (row.session_id ≡ session)

written-session :
    (now : ℕ) (u : Upsert) (o : Option Session) → (written now u o).session_id ≡ u.session_id
unfolding inserted merged
written-session now u none = refl
written-session now u (some s) = refl

upsert-HasRow :
    (now : ℕ) (job : Job) (s : Turn) (session : String)
    → session_matches_expected
        (find job.session_scope_id job.agent_id s.table)
        (expected_row s.snapshot)
      ≡ true
    → HasRow job session (upsert now (persisting job s session) s.table).1
unfolding HasRow persisting upsert_effect
upsert-HasRow now job s session h =
    let u = persisting job s session in
    let row = written now u (find job.session_scope_id job.agent_id s.table) in
    (
      row,
      find-upsert now u s.table job.session_scope_id job.agent_id
          ∙ ground (arith, h, ==_refl job.session_scope_id, ==_refl job.agent_id),
      written-session now u (find job.session_scope_id job.agent_id s.table),
    )

either_row :
    (b : Bool) (o p : Option Session) (x y : Session) (session : String)
    → (o ≡ some x) × (x.session_id ≡ session)
    → (p ≡ some y) × (y.session_id ≡ session)
    → (r : Session) × ((if b then o else p) ≡ some r) × (r.session_id ≡ session)
either_row true o p x y session (e, f) h = (x, e, f)
either_row false o p x y session h (e, f) = (y, e, f)

advance-HasRow :
    (now : ℕ) (job : Job) (row : Session) (stored session : String) (e : Envelope) (t : Table)
    → HasRow job session t
    → HasRow job session (advance_context_cursor now (checkpoint job row stored e) t).1
unfolding HasRow advance_effect checkpoint moved
advance-HasRow now job row stored session e t (r, found, same) =
    let a = checkpoint job row stored e in
    let (r', h, k) =
      either_row _ _ _ (moved now a r) r session (ap (map_row (moved now a)) found, same)
        (found, same) in
    (r', find-advance now a t job.session_scope_id job.agent_id ∙ h, k)

table-advance_checkpoint :
    (env : Environment) (job : Job) (stored : String) (row : Session) (e : Envelope) (s : Turn)
    → (advance_checkpoint env job stored row e s).table ≡ (
        if env.advance_fails
        then s.table
        else (advance_context_cursor env.finish_time (checkpoint job row stored e) s.table).1)
unfolding advance_checkpoint
table-advance_checkpoint env job stored row e s = ground arith

checkpoint-HasRow :
    (env : Environment) (job : Job) (stored session : String) (row : Session) (e : Envelope)
    (s : Turn)
    → HasRow job session s.table
    → HasRow job session (advance_checkpoint env job stored row e s).table
checkpoint-HasRow env job stored session row e s h =
    subst (HasRow job session) (sym (table-advance_checkpoint env job stored row e s))
      (elim (Bool-cases env.advance_fails) [
        | inl failed ↦ rw failed h
        | inr done ↦ rw done (advance-HasRow env.finish_time job row stored session e s.table h)
      ])

after_upsert-HasRow :
    (env : Environment) (job : Job) (stored session : String) (row : Option Session)
    (e : Option Envelope) (s : Turn)
    → HasRow job session s.table
    → HasRow job session (after_upsert env job stored row e s).table
unfolding after_upsert
after_upsert-HasRow env job stored session none e s h = h
after_upsert-HasRow env job stored session (some row) none s h = h
after_upsert-HasRow env job stored session (some row) (some e) s h =
    checkpoint-HasRow env job stored session row e s h

-- The write of a turn that may still write.
persist-effect :
    (env : Environment) (job : Job) (session : String) (s : Turn)
    → s.writable ≡ true
    → (job.session_scope_id == "") ≡ false
    → env.upsert_fails ≡ false
    → persist_session_result env job session s ≡ (
        let (row, t) = upsert env.finish_time (persisting job s session) s.table in
        after_upsert env job session row job.context_envelope (record s { table = t }))
unfolding persist_session_result
persist-effect env job session s writable scoped works = ground (arith, writable, scoped, works)

-- If its row is as it was observed, it ends with a row of the session.
persist-HasRow :
    (env : Environment) (job : Job) (session : String) (s : Turn)
    → s.writable ≡ true
    → (job.session_scope_id == "") ≡ false
    → env.upsert_fails ≡ false
    → session_matches_expected
        (find job.session_scope_id job.agent_id s.table)
        (expected_row s.snapshot)
      ≡ true
    → HasRow job session (persist_session_result env job session s).table
persist-HasRow env job session s writable scoped works same =
    let (row, t) = upsert env.finish_time (persisting job s session) s.table in
    subst (λ (x : Turn). HasRow job session x.table)
      (sym (persist-effect env job session s writable scoped works))
      (after_upsert-HasRow env job session session row job.context_envelope (record s { table = t })
        (upsert-HasRow env.finish_time job s session same))

-- A success with a session ends in the table, under these conditions: the report can be built; the answer
-- of the coordinator, whatever else it says, has the job done by this agent and attempt, with every
-- reported member but the usage evidence stored as it was sent; the attempt's token is an integer, and the
-- job's id and the reported values are plain, with no number that differs from itself and no key twice in
-- a nested `dict`; the attempt may write, the database works, and the row is as the attempt observed it.
-- Then the job's scope and agent have a row of that very session at the end.
pub conclude-HasRow :
    (env : Environment) (job : Job) (w : World) (run : Run) (ending : Ending) (s : Turn) (e : Ended)
    (doc : Members) (receipt : Value) (session : String) (n : ℤ)
    → race env job ending s ≡ inl e
    → result_json run.trusted run.context run.binding (completion w e) ≡ some doc
    → w.report_job (submission_of run e doc) ≡ some receipt
    → Acknowledges receipt run.trusted doc
    → HavePlain w.same_float doc
    → IsPlain w.same_float run.trusted.job_id
    → run.trusted.attempt_token ≡ int n
    → effective_outcome e.result ≡ success
    → e.result.session_id ≡ some session
    → (session == "") ≡ false
    → e.turn.writable ≡ true
    → (job.session_scope_id == "") ≡ false
    → env.upsert_fails ≡ false
    → session_matches_expected
        (find job.session_scope_id job.agent_id e.turn.table)
        (expected_row e.turn.snapshot)
      ≡ true
    → HasRow job session (conclude env job w run ending s).turn.table
conclude-HasRow env job w run ending s e doc receipt session n ended built answered acknowledged
      plain id token succeeded has_session present writable scoped works same =
    subst (λ (t : Turn). HasRow job session t.table)
      (sym (
        conclude-persist_session_result env job w run ending s e doc receipt session n ended built
          answered acknowledged plain id token succeeded has_session present))
      (persist-HasRow env job session e.turn writable scoped works same)
