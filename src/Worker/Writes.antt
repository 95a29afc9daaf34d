-- ===== src/Worker/Writes.antt =====
-- The writes at the end of a provider turn of multinexus/agentd/worker.py.
use multinexus.Base.{
  String, not, ◌||◌, Option, none, some, ◌==◌, string_eq, option_eq, if◌then◌else◌,
}
use multinexus.Base.Result.{ok, err}
use multinexus.Sessions.{Session, Expected}
use multinexus.Sessions.Store.{Upsert, upsert, Advance, advance_context_cursor}
use multinexus.Worker.{Envelope, Environment, Job, Turn}

unfoldable pub expected_row : Option Session → Expected
expected_row none = Expected.absent
expected_row (some s) = Expected.row s

-- `_persist_session_result`
unfoldable pub persisting : Job → Turn → String → Upsert
unfolding expected_row
persisting job s session = record {
  scope_id = job.session_scope_id;
  agent_id = job.agent_id;
  adapter = job.adapter;
  session_id = session;
  work_dir = some job.work_dir;
  context_generation = elim job.context_envelope [ none ↦ none | some e ↦ some e.generation ];
  expected_session = expected_row s.snapshot;
}

unfoldable pub checkpoint : Job → Session → String → Envelope → Advance
checkpoint job row session e = record {
  scope_id = job.session_scope_id;
  agent_id = job.agent_id;
  session_id = session;
  context_generation = e.generation;
  expected_cursor_order_token = row.context_cursor_order_token;
  expected_cursor_message_id = row.context_cursor_message_id;
  cursor_order_token = e.current_order_token;
  cursor_message_id = e.current_message_id;
  expected_session = Expected.row row;
}

unfoldable pub advance_checkpoint : Environment → Job → String → Session → Envelope → Turn → Turn
advance_checkpoint env job session row e s =
    if env.advance_fails
    then record s { confirmed = none }
    else let (reply, t) =
        advance_context_cursor env.finish_time (checkpoint job row session e) s.table in
      elim reply [
        | err x ↦ record s { confirmed = none; table = t }
        | ok b ↦
            if b
            then record s { confirmed = some (session, e.generation); table = t }
            else record s { table = t }
      ]

-- After the `upsert`: nothing if it was refused, and else the checkpoint of the envelope, if any.
unfoldable pub after_upsert :
    Environment → Job → String → Option Session → Option Envelope → Turn → Turn
after_upsert env job session none envelope s = s
after_upsert env job session (some row) none s = s
after_upsert env job session (some row) (some e) s = advance_checkpoint env job session row e s

unfoldable pub persist_session_result : Environment → Job → String → Turn → Turn
persist_session_result env job session s =
    if not s.writable || job.session_scope_id == ""
    then s
    else if env.upsert_fails
    then record s { confirmed = none }
    else let (persisted, t) = upsert env.finish_time (persisting job s session) s.table in
      after_upsert env job session persisted job.context_envelope (record s { table = t })
