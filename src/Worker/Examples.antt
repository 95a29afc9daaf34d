-- ===== src/Worker/Examples.antt =====
-- Turns of multinexus/agentd/worker.py, and the theorems applied to them.
use multinexus.Base.{
  ◌∙◌, sym, ℕ, Option, ap, String, ◌≡◌, refl, ◌≢◌, true, false, none, some, [], ◌∷◌, arith, ==_iff,
  string_eq,
}
use multinexus.Adapters.{AdapterResult, success, failed, provider_error}
use multinexus.Sessions.{Session, active}
use multinexus.Sessions.Same.{HasKey}
use multinexus.Sessions.Table.{find, has_key}
use multinexus.Worker.{Invocation, call, resume, Environment, Job, Turn}
use multinexus.Worker.Steps.{finish_turn, run_turn}
use multinexus.Worker.Writes.{persist_session_result}
use multinexus.Worker.Recovery.{recovery_single_resume}
use multinexus.Worker.Fallback.{Invokes, run_turn-Invokes}
use multinexus.Worker.Persist.{persist_after_change, run_turn-other_agent}

abbrev pub answer : Invocation → AdapterResult
answer i = record {
  text = "hello";
  session_id = some "s2";
  resumed = false;
  has_timeout_metadata = false;
  outcome = elim i [ call p ↦ some success | resume s p ↦ some failed ];
  error_category = elim i [ call p ↦ none | resume s p ↦ some provider_error ];
  diagnostic = "";
}

abbrev pub quiet : Environment
quiet = record {
  provider = answer;
  meanwhile = λ i. [];
  allow_fresh_fallback = true;
  lookup_fails = false;
  retire_fails = false;
  upsert_fails = false;
  advance_fails = false;
  retire_time = 200;
  finish_time = 210;
}

abbrev pub job : Job
job = record {
  agent_id = "codex";
  adapter = "codex";
  prompt = "hi";
  session_scope_id = "channel:7";
  legacy_scope_ids = [];
  work_dir = "/w";
  recovery_session_id = "";
  context_envelope = none;
}

abbrev recovery : Job
recovery = record job { recovery_session_id = "s9" }

abbrev row_1 : Session
row_1 = record {
  scope_id = "channel:7";
  agent_id = "codex";
  adapter = "codex";
  session_id = "s1";
  work_dir = some "/w";
  status = active;
  turn_count = 1;
  created_at = 100;
  updated_at = 100;
  context_generation = none;
  context_cursor_order_token = none;
  context_cursor_message_id = none;
}

-- Another worker has used the session meanwhile.
abbrev row_2 : Session
row_2 = record row_1 { turn_count = 2; updated_at = 150 }

abbrev row_3 : Session
row_3 = record row_1 { agent_id = "grok" }

abbrev start : Turn
start = record {
  snapshot = some row_1;
  writable = true;
  confirmed = none;
  table = row_1 ∷ row_3 ∷ [];
  invoked = [];
}

abbrev overtaken : Turn
overtaken = record start { table = row_2 ∷ [] }

recovers : ◌≢◌ {A = String} "s9" ""
recovers = ground (arith, ==_iff {A = String} "s9" "")

recovery_single_resume_example :
    (run_turn quiet recovery true start).1.invoked ≡ resume "s9" "hi" ∷ []
recovery_single_resume_example = recovery_single_resume quiet recovery true start recovers

run_turn-Invokes_example :
    (y : AdapterResult × Turn) × (run_turn quiet job true start ≡ finish_turn quiet job true y)
    × ((run_turn quiet job true start).1.invoked ≡ y.1.invoked)
    × Invokes quiet job start y
run_turn-Invokes_example = run_turn-Invokes quiet job true start

-- The turns of the row that the table has now.
turns : Option Session → ℕ
turns none = 0
turns (some r) = r.turn_count

counts_differ : turns (some row_2) ≢ turns (some row_1)
unfolding turns
counts_differ e = absurd (omega arith)

row_found : find "channel:7" "codex" overtaken.table ≡ some row_2
unfolding find has_key
row_found = refl

row_changed : find "channel:7" "codex" overtaken.table ≢ overtaken.snapshot
row_changed e = absurd (counts_differ (ap turns (sym row_found ∙ e)))

snapshot_key : HasKey "channel:7" "codex" overtaken.snapshot
unfolding HasKey
snapshot_key = (refl, refl)

persist_after_change_example : (persist_session_result quiet job "s2" overtaken).table ≡ row_2 ∷ []
persist_after_change_example =
    persist_after_change quiet job "s2" overtaken snapshot_key row_changed

grok_is_other : ◌≢◌ {A = String} "grok" "codex"
grok_is_other = ground (arith, ==_iff {A = String} "grok" "codex")

run_turn-other_agent_example :
    find "channel:7" "grok" (run_turn quiet job true start).1.table
    ≡ find "channel:7" "grok" start.table
run_turn-other_agent_example =
    run_turn-other_agent quiet job true start "channel:7" "grok" grok_is_other (λ i. refl)
