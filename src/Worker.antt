-- ===== src/Worker.antt =====
-- multinexus/agentd/worker.py: one provider turn of a claimed job, from the session row that the
-- worker observes to the session row that it writes. `_call_or_resume`, `_resume_recoverable_session`,
-- `_retire_session` and `_persist_session_result` are the functions below of the same names.
-- The adapter, the other processes that share the sessions database, and the database's failures
-- are the environment of a turn.
pub mod Writes
pub mod Steps
pub mod Startup
pub mod Claiming
pub mod Renewal
pub mod Recovery
pub mod Retired
pub mod Fallback
pub mod Persist
pub mod Report
pub mod Conclude
pub mod Attempt
pub mod Progress
mod Examples
use multinexus.Base.{ℕ, String, Bool, true, false, Option, none, some, List, [], ◌∷◌}
use multinexus.Adapters.{AdapterResult}
use multinexus.Sessions.{Session, Table}
use multinexus.Sessions.History.{Call}

-- What the worker asks the adapter for: `adapter.call(prompt, ...)` or
-- `adapter.resume(session_id, prompt, ...)`.
pub data Invocation : Type 0 where
  call : String → Invocation
  resume : String → String → Invocation

-- The structured history of the job, as far as a turn uses it: the generation, the current message,
-- and `delta_prompt`, which renders the messages after a cursor (empty if it cannot).
pub record Envelope : Type 0 where
  pub generation : String
  pub current_order_token : String
  pub current_message_id : String
  pub delta_prompt : String → String → String

pub record Environment : Type 0 where
  -- what the adapter returns
  pub provider : Invocation → AdapterResult
  -- the calls of other processes on the store while the provider runs
  pub meanwhile : Invocation → List Call
  -- `adapter.allow_fresh_fallback_after_resume_error`
  pub allow_fresh_fallback : Bool
  -- whether the lookup of the legacy scopes, `mark_stale`, `upsert` and `advance_context_cursor`
  -- raise `sqlite3.Error`
  pub lookup_fails : Bool
  pub retire_fails : Bool
  pub upsert_fails : Bool
  pub advance_fails : Bool
  -- the times of `mark_stale` and of the final writes
  pub retire_time : ℕ
  pub finish_time : ℕ

pub record Job : Type 0 where
  -- `self.config.id` and `self.config.adapter`
  pub agent_id : String
  pub adapter : String
  pub prompt : String
  pub session_scope_id : String
  pub legacy_scope_ids : List String
  pub work_dir : String
  -- `_recovery_session_id(job)`, empty if there is none
  pub recovery_session_id : String
  pub context_envelope : Option Envelope

-- `_SessionAttempt`, the entry of `_context_sessions` for the scope, the database, and the
-- invocations of the adapter so far, the latest first.
pub record Turn : Type 0 where
  pub snapshot : Option Session
  pub writable : Bool
  pub confirmed : Option (String × String)
  pub table : Table
  pub invoked : List Invocation
