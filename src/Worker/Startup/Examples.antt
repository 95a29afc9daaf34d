-- ===== src/Worker/Startup/Examples.antt =====
-- Starts of `run` in multinexus/agentd/worker.py.
use multinexus.Base.{◌≡◌, refl, true, some}
use multinexus.Base.Text.{codes, strip, drop_while, is_space}
use multinexus.Base.Value.{Value, empty, member, get, lookup}
use Value.{null, boolean, text, object}
use multinexus.Base.Result.{ok, err}
use multinexus.Worker.Startup.{
  runtime_error, normalize_recovery_reason, none_reason, normalize_claim_reap_policy, is_flag,
  recovery_evidence, answer, is_ready, Startup, Plan, start_up, utf8_length,
}
use multinexus.Worker.Startup.Evidence.{IsEvident, start_up-IsEvident}

abbrev recovery : Startup
recovery = record {
  recoverable = true;
  recovery_reason = text " host was restarted ";
  prior_process_stopped = boolean true;
  reap_mode = text "none";
  reap_reason = text "drill";
  readiness = answer (object (member "runtime_ready" (boolean true) empty));
  running = true;
}

abbrev plan : Plan
plan = record {
  reap_reason = some (codes "drill");
  recoverable = true;
  recovery_reason = codes "host was restarted";
}

recovered : start_up recovery ≡ ok plan
unfolding start_up normalize_claim_reap_policy none_reason recovery_evidence is_flag is_ready
    normalize_recovery_reason utf8_length strip drop_while is_space get lookup
recovered = refl

no_evidence : start_up (record recovery { prior_process_stopped = null }) ≡ err runtime_error
unfolding start_up normalize_claim_reap_policy none_reason recovery_evidence is_flag is_ready
    normalize_recovery_reason utf8_length strip drop_while is_space get lookup
no_evidence = refl

start_up-IsEvident_example : IsEvident recovery plan
start_up-IsEvident_example = start_up-IsEvident recovery plan recovered
