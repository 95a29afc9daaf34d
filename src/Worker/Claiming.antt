-- ===== src/Worker/Claiming.antt =====
-- The loop of `run` and `_reconcile_claim_authority` in multinexus/agentd/worker.py, after the worker
-- has started: what each claim call leads to. `uuid n` is the n-th value of `uuid.uuid4().hex`.
use multinexus.Base.{
  ℕ, zero, suc, ◌+◌, ◌≡◌, refl, String, Bool, true, false, not, ◌&&◌, Option, none, some, List, [],
  ◌∷◌, if◌then◌else◌,
}
use multinexus.Base.Value.{Value, Members, get}
use Value.{array, object}
use multinexus.Claims.Response.{truthy}
pub mod Fencing
pub mod Steady
pub mod Ending
mod Examples

-- How a call of `claim_job` ends: one of the exceptions that the loop handles, or its result.
pub data ClaimOutcome : Type 0 where
  uncertain replay_conflict terminal runtime_error : ClaimOutcome
  answered : Value → ClaimOutcome

-- How the probe of `_reconcile_claim_authority` ends; any exception is a failure.
pub data Probe : Type 0 where
  unavailable failed : Probe
  snapshot : Value → Probe

-- What one iteration of the loop meets: how the claim and the probe end, whether `_process_job` raises,
-- and whether the worker still runs after the waits of the iteration.
pub record Round : Type 0 where
  pub outcome : ClaimOutcome
  pub probe : Probe
  pub process_raises : Bool
  pub running : Bool

-- Polling; waiting to be stopped, with the reason that the health file has, or without one when there is
-- no probe; ended by an exception; stopped.
pub data Phase : Type 0 where
  polling paused escaped stopped : Phase
  latched : String → Phase

-- The claim calls, with the request key if the client takes one, and the runs of `_process_job`, with
-- the key of the claim that they run.
pub data Event : Type 0 where
  claimed processed : Option String → Event

-- `next` counts the keys that were given up; the last event is the first of the trace.
pub record Loop : Type 0 where
  pub phase : Phase
  pub next : ℕ
  pub trace : List Event

unfoldable pub request_key : Bool → (ℕ → String) → ℕ → Option String
request_key supports uuid n = if supports then some (uuid n) else none

unfoldable pub while_running : Round → Phase → Phase
while_running r phase = if r.running then phase else stopped

-- `isinstance(snapshot, dict) and isinstance(snapshot.get("active_leases"), list)`
unfoldable pub is_snapshot : Value → Bool
is_snapshot (object ms) = elim (get "active_leases" ms) [ array vs ↦ true | _ ↦ false ]
is_snapshot _ = false

-- `_reconcile_claim_authority`, and what the caller makes of its result.
unfoldable pub after_probe : Round → Probe → Phase
unfolding while_running
after_probe r unavailable = while_running r paused
after_probe r failed = while_running r (latched "claim_authority_uncertain")
after_probe r (snapshot v) =
    while_running r (if is_snapshot v then polling else latched "claim_authority_uncertain")

-- The branch of `CoordinateClaimAuthorityUncertainError`.
unfoldable pub after_uncertain : Bool → Round → Phase
unfolding while_running
after_uncertain false r = while_running r (latched "claim_fencing_unavailable")
after_uncertain true r = after_probe r r.probe

-- `isinstance(claim_result, dict) and claim_result.get("claimed")`
unfoldable pub is_claimed : Value → Bool
is_claimed (object ms) = truthy (get "claimed" ms)
is_claimed _ = false

unfoldable pub settle : Bool → (ℕ → String) → Round → ClaimOutcome → Loop → Loop
unfolding while_running
settle supports uuid r uncertain w = record w { phase = after_uncertain supports r }
settle supports uuid r replay_conflict w = record w {
  phase = while_running r (latched "claim_replay_conflict");
}
settle supports uuid r terminal w = record w {
  phase = while_running r (latched "claim_terminal_rejection");
}
settle supports uuid r runtime_error w = record w { phase = while_running r polling }
settle supports uuid r (answered v) w =
    if is_claimed v
    then record {
      phase = if r.process_raises then escaped else while_running r polling;
      next = suc w.next;
      trace = processed (request_key supports uuid w.next) ∷ w.trace;
    }
    else record w { phase = while_running r polling; next = suc w.next }

-- One iteration of the loop, or of the wait for the end, from a phase.
unfoldable pub iterate_in : Bool → (ℕ → String) → Round → Phase → Loop → Loop
unfolding while_running
iterate_in supports uuid r polling w =
    settle supports uuid r r.outcome
      (record w { trace = claimed (request_key supports uuid w.next) ∷ w.trace })
iterate_in supports uuid r paused w = record w { phase = while_running r paused }
iterate_in supports uuid r (latched reason) w = record w {
  phase = while_running r (latched reason);
}
iterate_in supports uuid r escaped w = w
iterate_in supports uuid r stopped w = w

unfoldable pub iterate : Bool → (ℕ → String) → Round → Loop → Loop
iterate supports uuid r w = iterate_in supports uuid r w.phase w

unfoldable pub run_loop : Bool → (ℕ → String) → List Round → Loop → Loop
run_loop supports uuid [] w = w
run_loop supports uuid (r ∷ rs) w = run_loop supports uuid rs (iterate supports uuid r w)

abbrev pub started : Loop
started = record { phase = polling; next = 0; trace = [] }
