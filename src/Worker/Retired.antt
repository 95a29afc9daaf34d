-- ===== src/Worker/Retired.antt =====
-- The row that a provider turn of multinexus/agentd/worker.py has retired.
use multinexus.Base.{ap, ◌∙◌, ◌≡◌, refl, true, Option, none, some, string_eq, arith}
use multinexus.Sessions.{Session, Table, Expected, session_matches_expected}
use multinexus.Sessions.Table.{find}
use multinexus.Sessions.Store.{mark_stale, mark_status}
use multinexus.Sessions.{same_identity, stale}
use multinexus.Sessions.Same.{HasKey, find-matches}
use multinexus.Sessions.Store.{marked}
use multinexus.Sessions.Lookup.{view, map_row, mark_effect, find-mark_status}
use multinexus.Base.{==_refl}
use multinexus.Worker.{Environment, Job, Turn}
use multinexus.Worker.Steps.{retire_session}

-- The row as the turn has read it, with the key under which the worker looks it up.
abbrev pub as_read : Job → Session → Session
as_read job r = record r { agent_id = job.agent_id }

-- The row after its retirement: stale, and without its cursor.
abbrev pub as_retired : Environment → Job → Session → Session
as_retired env job r = record r {
  agent_id = job.agent_id;
  status = stale;
  updated_at = env.retire_time;
  context_cursor_order_token = none;
  context_cursor_message_id = none;
}

retired-matches :
    (env : Environment) (job : Job) (r : Session) (s : Turn)
    → (retire_session env job r s).0 ≡ true
    → session_matches_expected (find r.scope_id job.agent_id s.table) (Expected.row r) ≡ true
unfolding retire_session mark_stale mark_status
retired-matches env job r s h = ground arith

-- The comparison does not read the key.
matches-as_read :
    (job : Job) (r : Session) (o : Option Session)
    → session_matches_expected o (Expected.row (as_read job r))
      ≡ session_matches_expected o (Expected.row r)
unfolding session_matches_expected same_identity
matches-as_read job r none = refl
matches-as_read job r (some q) = refl

pub retired-as_read :
    (env : Environment) (job : Job) (r : Session) (s : Turn)
    → (retire_session env job r s).0 ≡ true
    → find r.scope_id job.agent_id s.table ≡ some (as_read job r)
retired-as_read env job r s h =
    find-matches r.scope_id job.agent_id s.table (some (as_read job r))
      (unfold HasKey in (refl, refl))
      (matches-as_read job r (find r.scope_id job.agent_id s.table) ∙ retired-matches env job r s h)

table-retire_session :
    (env : Environment) (job : Job) (r : Session) (s : Turn)
    → (retire_session env job r s).0 ≡ true
    → (retire_session env job r s).1.table
      ≡ (mark_stale env.retire_time r.scope_id job.agent_id (Expected.row r) s.table).1
unfolding retire_session
table-retire_session env job r s h = ground arith

own-mark_effect :
    (env : Environment) (job : Job) (r : Session) (t : Table)
    → session_matches_expected (find r.scope_id job.agent_id t) (Expected.row r) ≡ true
    → find r.scope_id job.agent_id t ≡ some (as_read job r)
    → mark_effect env.retire_time r.scope_id job.agent_id stale
        (Expected.row r)
        (view t)
        r.scope_id
        job.agent_id
      ≡ some (as_retired env job r)
unfolding mark_effect marked
own-mark_effect env job r t h e =
    rw (==_refl r.scope_id, ==_refl job.agent_id, h) (ap (map_row (marked env.retire_time stale)) e)

marked-effect :
    (env : Environment) (job : Job) (r : Session) (t : Table)
    → find r.scope_id job.agent_id
        (mark_stale env.retire_time r.scope_id job.agent_id (Expected.row r) t).1
      ≡ mark_effect env.retire_time r.scope_id job.agent_id stale
          (Expected.row r)
          (view t)
          r.scope_id
          job.agent_id
unfolding mark_stale
marked-effect env job r t =
    find-mark_status env.retire_time r.scope_id job.agent_id stale (Expected.row r) t r.scope_id
      job.agent_id

-- A retirement that succeeds leaves the row stale.
pub retired-as_retired :
    (env : Environment) (job : Job) (r : Session) (s : Turn)
    → (retire_session env job r s).0 ≡ true
    → find r.scope_id job.agent_id (retire_session env job r s).1.table
      ≡ some (as_retired env job r)
retired-as_retired env job r s h =
    ap (find r.scope_id job.agent_id) (table-retire_session env job r s h)
    ∙ marked-effect env job r s.table
    ∙ own-mark_effect env job r s.table (retired-matches env job r s h)
        (retired-as_read env job r s h)
