-- ===== src/Worker/Claiming/Steady.antt =====
-- When the loop of `run` in multinexus/agentd/worker.py claims again and when it claims no more.
use multinexus.Base.{
  ℕ, zero, suc, ◌+◌, ◌≡◌, ap, ◌∙◌, refl, String, Bool, true, false, List, [], ◌∷◌, if◌then◌else◌,
  arith, length, All,
}
use mathlib.Core.Path.{sym, subst}
use multinexus.Worker.Claiming.{
  ClaimOutcome, uncertain, replay_conflict, terminal, runtime_error, answered, Probe, unavailable,
  failed, snapshot, Round, polling, escaped, stopped, latched, Event, claimed, processed, Loop,
  request_key, after_uncertain, after_probe, is_snapshot, settle, iterate, iterate_in, run_loop,
  started, is_claimed, while_running,
}

-- The probe shows the active leases of the agent.
IsProbed : Probe → Type 0
IsProbed unavailable = ⊥
IsProbed failed = ⊥
IsProbed (snapshot v) = is_snapshot v ≡ true

-- The claim has to be repeated: a transport error, or an uncertain outcome after which the probe of a
-- client that takes keys succeeds.
IsRepeated : Bool → ClaimOutcome → Probe → Type 0
IsRepeated supports uncertain q = (supports ≡ true) × IsProbed q
IsRepeated supports runtime_error q = Unit
IsRepeated supports _ q = ⊥

IsSettled : ClaimOutcome → Type 0
IsSettled (answered v) = Unit
IsSettled _ = ⊥

unfoldable pub IsRetry : Bool → Round → Type 0
unfolding IsProbed IsRepeated
IsRetry supports r = IsRepeated supports r.outcome r.probe × (r.running ≡ true)

-- The claim has a result whose job does not raise.
unfoldable pub IsAnswer : Round → Type 0
unfolding IsSettled
IsAnswer r = IsSettled r.outcome × (r.running ≡ true) × (r.process_raises ≡ false)

probed : (r : Round) (q : Probe) → IsProbed q → r.running ≡ true → after_probe r q ≡ polling
unfolding IsProbed after_probe while_running
probed r (snapshot v) h k =
    ap
      (λ b.
        if b
        then if is_snapshot v then polling else latched "claim_authority_uncertain"
        else stopped)
      k
    ∙ ap (λ b. if b then polling else latched "claim_authority_uncertain") h
probed r unavailable h k = absurd h
probed r failed h k = absurd h

retry_step :
    (supports : Bool) (uuid : ℕ → String) (r : Round) (o : ClaimOutcome) (w : Loop)
    → IsRepeated supports o r.probe
    → r.running ≡ true
    → settle supports uuid r o w ≡ record w { phase = polling }
unfolding IsRepeated settle after_uncertain while_running
retry_step true uuid r uncertain w h k = ap (λ q. record w { phase = q }) (probed r r.probe h.1 k)
retry_step false uuid r uncertain w h k = absurd (cc)
retry_step supports uuid r runtime_error w h k =
    ap (λ b. record w { phase = if b then polling else stopped }) k
retry_step supports uuid r replay_conflict w h k = absurd h
retry_step supports uuid r terminal w h k = absurd h
retry_step supports uuid r (answered v) w h k = absurd h

unfoldable pub repeated : ℕ → Event → List Event → List Event
repeated zero e t = t
repeated (suc n) e t = repeated n e (e ∷ t)

retry_iterate :
    (supports : Bool) (uuid : ℕ → String) (r : Round) (n : ℕ) (t : List Event)
    → IsRetry supports r
    → iterate supports uuid r (record { phase = polling; next = n; trace = t })
      ≡ record { phase = polling; next = n; trace = claimed (request_key supports uuid n) ∷ t }
unfolding IsRetry iterate iterate_in
retry_iterate supports uuid r n t (h, k) = retry_step supports uuid r r.outcome _ h k

-- While the claim has to be repeated and the worker is not stopped, each iteration claims once and with
-- the same key, and runs no job.
pub run_loop-retries :
    (supports : Bool) (uuid : ℕ → String) (rs : List Round) (n : ℕ) (t : List Event)
    → All (IsRetry supports) rs
    → run_loop supports uuid rs (record { phase = polling; next = n; trace = t }) ≡ record {
      phase = polling;
      next = n;
      trace = repeated (length rs) (claimed (request_key supports uuid n)) t;
    }
unfolding run_loop repeated
run_loop-retries supports uuid [] n t h = refl
run_loop-retries supports uuid (r ∷ rs) n t (h, k) =
    ap (run_loop supports uuid rs) (retry_iterate supports uuid r n t h)
    ∙ run_loop-retries supports uuid rs n (claimed (request_key supports uuid n) ∷ t) k

-- How many claims were made.
unfoldable pub claims : List Event → ℕ
claims [] = 0
claims (claimed k ∷ t) = suc (claims t)
claims (processed k ∷ t) = claims t

-- The claim is to be repeated, or has a result whose job does not raise.
IsSteadyOutcome : Bool → Round → ClaimOutcome → Type 0
IsSteadyOutcome supports r (answered v) = r.process_raises ≡ false
IsSteadyOutcome supports r uncertain = IsRepeated supports uncertain r.probe
IsSteadyOutcome supports r runtime_error = Unit
IsSteadyOutcome supports r _ = ⊥

unfoldable pub IsSteady : Bool → Round → Type 0
unfolding IsSteadyOutcome IsRepeated IsProbed
IsSteady supports r = IsSteadyOutcome supports r r.outcome × (r.running ≡ true)

-- The loop polls and has made `n` claims.
HasClaimed : ℕ → Loop → Type 0
HasClaimed n w = (w.phase ≡ polling) × (claims w.trace ≡ n)

if-HasClaimed :
    (n : ℕ) (c : Bool) (w v : Loop)
    → HasClaimed n w
    → HasClaimed n v
    → HasClaimed n (if c then w else v)
if-HasClaimed n true w v h k = h
if-HasClaimed n false w v h k = k

steady_step :
    (supports : Bool) (uuid : ℕ → String) (r : Round) (o : ClaimOutcome) (n : ℕ) (w : Loop)
    → IsSteadyOutcome supports r o
    → r.running ≡ true
    → claims w.trace ≡ n
    → HasClaimed n (settle supports uuid r o w)
unfolding IsSteadyOutcome IsRepeated
steady_step supports uuid r uncertain n w h k e =
    subst (HasClaimed n) (sym (retry_step supports uuid r uncertain w h k))
      (unfold HasClaimed in (refl, e))
steady_step supports uuid r runtime_error n w h k e =
    subst (HasClaimed n) (sym (retry_step supports uuid r runtime_error w tt k))
      (unfold HasClaimed in (refl, e))
steady_step supports uuid r replay_conflict n w h k e = absurd h
steady_step supports uuid r terminal n w h k e = absurd h
steady_step supports uuid r (answered v) n w h k e =
    unfold settle HasClaimed while_running claims in
    if-HasClaimed n (is_claimed v) _ _
      (
        ap (λ b. if b then escaped else if r.running then polling else stopped) h
            ∙ ap (λ b. if b then polling else stopped) k,
        e,
      )
      (ap (λ b. if b then polling else stopped) k, e)

steady_iterate :
    (supports : Bool) (uuid : ℕ → String) (r : Round) (n : ℕ) (w : Loop)
    → IsSteady supports r
    → HasClaimed n w
    → HasClaimed (suc n) (iterate supports uuid r w)
unfolding IsSteady HasClaimed iterate
steady_iterate supports uuid r n w (h, k) (phase, count) =
    subst (λ q. HasClaimed (suc n) (iterate_in supports uuid r q w)) (sym phase)
      (unfold iterate_in in
        steady_step supports uuid r r.outcome (suc n) _ h k (unfold claims in ap suc count))

steady_run :
    (supports : Bool) (uuid : ℕ → String) (rs : List Round) (n : ℕ) (w : Loop)
    → All (IsSteady supports) rs
    → HasClaimed n w
    → HasClaimed (length rs + n) (run_loop supports uuid rs w)
unfolding run_loop
steady_run supports uuid [] n w h k = subst (λ m. HasClaimed m w) (omega arith) k
steady_run supports uuid (r ∷ rs) n w (h, hs) k =
    let rest = steady_run supports uuid rs (suc n) _ hs (steady_iterate supports uuid r n w h k) in
    subst (λ m. HasClaimed m (run_loop supports uuid rs (iterate supports uuid r w))) (omega arith)
      rest

-- Liveness: as long as no claim ends in a conflict, a rejection or an uncertainty that the probe does not
-- resolve, no job raises and the worker is not stopped, the worker goes on polling, and every iteration
-- makes exactly one claim.
pub run_loop-claims :
    (supports : Bool) (uuid : ℕ → String) (rs : List Round)
    → All (IsSteady supports) rs
    → ((run_loop supports uuid rs started).phase ≡ polling)
      × (claims (run_loop supports uuid rs started).trace ≡ length rs)
unfolding HasClaimed claims
run_loop-claims supports uuid rs h =
    let found = steady_run supports uuid rs 0 started h (refl, refl) in
    (found.0, omega (arith, found.1))
