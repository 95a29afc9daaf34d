-- ===== src/Worker/Startup.antt =====
-- The checks with which `run` of multinexus/agentd/worker.py starts, and the two policies that it
-- validates with multinexus/agentd/coordinate_client.py. Texts are code points.
use multinexus.Base.{
  ℕ, ◌+◌, ◌≡◌, String, Bool, true, false, not, ◌&&◌, ◌||◌, Option, none, some, List, [], ◌∷◌, ◌==◌,
  string_eq, if◌then◌else◌, ltb, leb, eqb, length, all,
}
use multinexus.Base.Text.{codes, strip, is_empty, same_codes}
use multinexus.Base.Value.{Value, Members, get}
use Value.{null, boolean, text, object}
use multinexus.Base.Result.{Result, ok, err, ◌>>=◌, ◌>>◌, require}
pub mod Evidence
mod Examples

-- How `run` ends before its loop: `CoordinateRuntimeError`, a cancelled or stopped start, or a worker
-- that waits for its end, latched as not ready.
pub data StartError : Type 0 where
  runtime_error cancelled stopped adapter_not_ready : StartError

-- `len(text.encode("utf-8"))`
unfoldable pub utf8_length : List ℕ → ℕ
utf8_length [] = 0
utf8_length (c ∷ cs) =
    (if ltb c 128 then 1 else if ltb c 2048 then 2 else if ltb c 65536 then 3 else 4)
    + utf8_length cs

unfoldable pub normalize_recovery_reason : Value → Result StartError (List ℕ)
normalize_recovery_reason (text s) = do
  require (not (is_empty (strip (codes s)))) runtime_error
  require (all (λ c. leb 32 c) (strip (codes s))) runtime_error
  require (leb (length (strip (codes s))) 512) runtime_error
  ok (strip (codes s))
normalize_recovery_reason _ = err runtime_error

unfoldable pub none_reason : Value → Result StartError (List ℕ)
none_reason (text s) = do
  require (not (is_empty (strip (codes s)))) runtime_error
  require (same_codes (codes s) (strip (codes s))) runtime_error
  require (all (λ c. leb 32 c && not (eqb c 127)) (strip (codes s))) runtime_error
  require (leb (length (strip (codes s))) 512) runtime_error
  require (leb (utf8_length (strip (codes s))) 2048) runtime_error
  ok (strip (codes s))
none_reason _ = err runtime_error

is_none : Value → Bool
is_none null = true
is_none _ = false

-- The policy where the mode is `global`, where it is `none`, and where it is neither.
policy_of : Bool → Bool → Value → Result StartError (Option (List ℕ))
policy_of true sealed reason = do require (is_none reason) runtime_error; ok none
policy_of false true reason = do r ← none_reason reason; ok (some r)
policy_of false false reason = err runtime_error

-- The reason of the mode `none`, and no reason for the mode `global`.
unfoldable pub normalize_claim_reap_policy : Value → Value → Result StartError (Option (List ℕ))
unfolding is_none policy_of
normalize_claim_reap_policy (text mode) reason =
    policy_of (mode == "global") (mode == "none") reason
normalize_claim_reap_policy _ reason = err runtime_error

-- `value is True` and `value is False`
unfoldable pub is_flag : Bool → Value → Bool
is_flag true (boolean b) = b
is_flag false (boolean b) = not b
is_flag _ _ = false

is_empty_text : Value → Bool
is_empty_text (text s) = s == ""
is_empty_text _ = false

-- The evidence of a recovery; without one there is none.
unfoldable pub recovery_evidence : Bool → Value → Value → Result StartError (List ℕ)
unfolding is_empty_text
recovery_evidence true reason prior_process_stopped = do
  require (is_flag true prior_process_stopped) runtime_error
  normalize_recovery_reason reason
recovery_evidence false reason prior_process_stopped = do
  require (is_empty_text reason) runtime_error
  require (is_flag false prior_process_stopped) runtime_error
  ok []

-- How the adapter's `startup_check` ends; without the method its answer is null.
pub data Readiness : Type 0 where
  check_cancelled check_raised : Readiness
  answer : Value → Readiness

unfoldable pub is_ready : Value → Bool
is_ready null = true
is_ready (object ms) = is_flag true (get "runtime_ready" ms)
is_ready _ = false

-- The arguments of `run`, how the check of the adapter ends, and whether the worker still runs then.
pub record Startup : Type 0 where
  pub recoverable : Bool
  pub recovery_reason : Value
  pub prior_process_stopped : Value
  pub reap_mode : Value
  pub reap_reason : Value
  pub readiness : Readiness
  pub running : Bool

-- What every claim of the loop carries.
pub record Plan : Type 0 where
  pub reap_reason : Option (List ℕ)
  pub recoverable : Bool
  pub recovery_reason : List ℕ

after_check : Readiness → Bool → Result StartError (Unit {0})
after_check check_cancelled running = err cancelled
after_check check_raised running = do require running stopped; err adapter_not_ready
after_check (answer v) running = do require running stopped; require (is_ready v) adapter_not_ready

-- `run` up to its loop.
unfoldable pub start_up : Startup → Result StartError Plan
unfolding after_check
start_up s = do
  reap_reason ← normalize_claim_reap_policy s.reap_mode s.reap_reason
  reason ← recovery_evidence s.recoverable s.recovery_reason s.prior_process_stopped
  after_check s.readiness s.running
  ok (record { reap_reason = reap_reason; recoverable = s.recoverable; recovery_reason = reason })
