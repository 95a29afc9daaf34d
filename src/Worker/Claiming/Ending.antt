-- ===== src/Worker/Claiming/Ending.antt =====
-- The claims after which the loop of `run` in multinexus/agentd/worker.py waits for its end.
use multinexus.Base.{ℕ, ◌≡◌, refl, String, Bool, true, false, List, [], ◌∷◌, if◌then◌else◌}
use mathlib.Core.Path.{sym, subst}
use multinexus.Worker.Claiming.{
  ClaimOutcome, uncertain, replay_conflict, terminal, runtime_error, answered, Probe, unavailable,
  failed, snapshot, Round, Phase, polling, paused, escaped, stopped, latched, Event, claimed, Loop,
  request_key, after_uncertain, after_probe, is_snapshot, settle, iterate, iterate_in, run_loop,
  while_running,
}

-- The claim ends the claiming: a conflict, a rejection, or an uncertain outcome of a client without keys
-- or with a probe that fails.
IsFatal : Bool → ClaimOutcome → Probe → Type 0
IsFatal supports replay_conflict q = Unit
IsFatal supports terminal q = Unit
IsFatal false uncertain q = Unit
IsFatal true uncertain unavailable = Unit
IsFatal true uncertain failed = Unit
IsFatal true uncertain (snapshot v) = is_snapshot v ≡ false
IsFatal supports _ q = ⊥

unfoldable pub IsEnd : Bool → Round → Type 0
unfolding IsFatal
IsEnd supports r = IsFatal supports r.outcome r.probe

IsHalted : Phase → Type 0
IsHalted polling = ⊥
IsHalted _ = Unit

if-IsHalted : (b : Bool) (q : Phase) → IsHalted q → IsHalted (if b then q else stopped)
unfolding IsHalted
if-IsHalted true q h = h
if-IsHalted false q h = tt

probe-IsHalted : (r : Round) (q : Probe) → IsFatal true uncertain q → IsHalted (after_probe r q)
unfolding IsFatal IsHalted after_probe while_running
probe-IsHalted r unavailable h = if-IsHalted r.running paused tt
probe-IsHalted r failed h = if-IsHalted r.running _ tt
probe-IsHalted r (snapshot v) h =
    if-IsHalted r.running _ (
      subst (λ b. IsHalted (if b then polling else latched "claim_authority_uncertain")) (sym h) tt)

-- The phase has ended the claiming, with the trace as it is.
Has : List Event → Loop → Type 0
Has t w = IsHalted w.phase × (w.trace ≡ t)

fatal_step :
    (supports : Bool) (uuid : ℕ → String) (r : Round) (o : ClaimOutcome) (w : Loop)
    → IsFatal supports o r.probe
    → Has w.trace (settle supports uuid r o w)
unfolding IsFatal Has settle after_uncertain while_running IsHalted
fatal_step supports uuid r replay_conflict w h = (if-IsHalted r.running _ tt, refl)
fatal_step supports uuid r terminal w h = (if-IsHalted r.running _ tt, refl)
fatal_step false uuid r uncertain w h = (if-IsHalted r.running _ tt, refl)
fatal_step true uuid r uncertain w h = (probe-IsHalted r r.probe h, refl)
fatal_step supports uuid r runtime_error w h = absurd h
fatal_step supports uuid r (answered v) w h = absurd h

halted_step :
    (supports : Bool) (uuid : ℕ → String) (r : Round) (q : Phase) (t : List Event) (w : Loop)
    → IsHalted q
    → Has t w
    → Has t (iterate_in supports uuid r q w)
unfolding IsHalted Has iterate_in while_running
halted_step supports uuid r polling t w h k = absurd h
halted_step supports uuid r paused t w h k = (if-IsHalted r.running _ tt, k.1)
halted_step supports uuid r (latched reason) t w h k = (if-IsHalted r.running _ tt, k.1)
halted_step supports uuid r escaped t w h k = k
halted_step supports uuid r stopped t w h k = k

halted_run :
    (supports : Bool) (uuid : ℕ → String) (rs : List Round) (t : List Event) (w : Loop)
    → Has t w
    → Has t (run_loop supports uuid rs w)
unfolding run_loop iterate
halted_run supports uuid [] t w h = h
halted_run supports uuid (r ∷ rs) t w h =
    halted_run supports uuid rs t _ (halted_step supports uuid r w.phase t w (phase_of h) h)
  where
    phase_of : Has t w → IsHalted w.phase
    phase_of k = (unfold Has in k.0)

trace_of : (t : List Event) (w : Loop) → Has t w → w.trace ≡ t
unfolding Has
trace_of t w h = h.1

-- After a claim that ends in a conflict, in a rejection, or in an uncertainty that no key and probe
-- resolve, the worker makes no further claim and runs no further job, whatever follows.
pub run_loop-ends :
    (supports : Bool) (uuid : ℕ → String) (r : Round) (rs : List Round) (n : ℕ) (t : List Event)
    → IsEnd supports r
    → (run_loop supports uuid (r ∷ rs) (record { phase = polling; next = n; trace = t })).trace
      ≡ claimed (request_key supports uuid n) ∷ t
unfolding IsEnd run_loop iterate iterate_in
run_loop-ends supports uuid r rs n t h =
    let first = fatal_step supports uuid r r.outcome _ h in
    let last = halted_run supports uuid rs _ _ first in trace_of _ _ last
