-- ===== src/Worker/Claiming/Examples.antt =====
-- Iterations of the loop of multinexus/agentd/worker.py. The n-th key is a text of n characters.
use Prim.Native.Char.{char}
use multinexus.Base.{ℕ, zero, suc, ◌≡◌, ap, refl, String, true, false, some, [], ◌∷◌}
use multinexus.Base.Value.{Value, empty, member, get, lookup, nil}
use Value.{boolean, array, object}
use multinexus.Claims.Response.{truthy}
use multinexus.Worker.Claiming.{
  uncertain, terminal, answered, snapshot, Round, polling, claimed, processed, request_key,
  is_snapshot, is_claimed, settle, iterate, iterate_in, run_loop, started, after_probe,
  after_uncertain,
}
use multinexus.Worker.Claiming.Fencing.{IsFenced, run_loop-IsFenced}
use multinexus.Worker.Claiming.Steady.{IsRetry, IsSteady, claims, run_loop-claims}
use multinexus.Worker.Claiming.Ending.{IsEnd, run_loop-ends}

abbrev uuid : ℕ → String
uuid zero = ""
uuid (suc n) = String.◌∷◌ (char 120 tt) (uuid n)

distinct : (m n : ℕ) → uuid m ≡ uuid n → m ≡ n
distinct zero zero h = refl
distinct zero (suc n) h = cc
distinct (suc m) zero h = cc
distinct (suc m) (suc n) h = ap suc (distinct m n (cc))

abbrev leases : Value
leases = object (member "active_leases" (array nil) empty)

abbrev unsure : Round
unsure = record {
  outcome = uncertain;
  probe = snapshot leases;
  process_raises = false;
  running = true;
}

abbrev job : Round
job = record unsure { outcome = answered (object (member "claimed" (boolean true) empty)) }

abbrev rejected : Round
rejected = record unsure { outcome = terminal }

unsure_then_job :
    (run_loop true uuid (unsure ∷ job ∷ job ∷ []) started).trace
    ≡ processed (some "x")
      ∷ claimed (some "x")
      ∷ processed (some "")
      ∷ claimed (some "")
      ∷ claimed (some "")
      ∷ []
unfolding run_loop iterate iterate_in settle request_key is_snapshot is_claimed truthy get lookup
    after_probe after_uncertain
unsure_then_job = refl

run_loop-IsFenced_example :
    IsFenced (run_loop true uuid (unsure ∷ job ∷ rejected ∷ []) started).trace
run_loop-IsFenced_example = run_loop-IsFenced uuid distinct (unsure ∷ job ∷ rejected ∷ [])

unsure-IsRetry : IsRetry true unsure
unfolding IsRetry is_snapshot get lookup
unsure-IsRetry = ((refl, refl), refl)

unsure-IsSteady : IsSteady true unsure
unfolding IsSteady is_snapshot get lookup
unsure-IsSteady = ((refl, refl), refl)

job-IsSteady : IsSteady true job
unfolding IsSteady
job-IsSteady = (refl, refl)

run_loop-claims_example :
    ((run_loop true uuid (unsure ∷ job ∷ []) started).phase ≡ polling)
    × (claims (run_loop true uuid (unsure ∷ job ∷ []) started).trace ≡ 2)
run_loop-claims_example =
    run_loop-claims true uuid (unsure ∷ job ∷ []) (unsure-IsSteady, (job-IsSteady, tt))

rejected-IsEnd : IsEnd true rejected
unfolding IsEnd
rejected-IsEnd = tt

run_loop-ends_example :
    (run_loop true uuid
      (rejected ∷ job ∷ job ∷ [])
      (record { phase = polling; next = 0; trace = [] })).trace
    ≡ claimed (some "") ∷ []
unfolding request_key
run_loop-ends_example = run_loop-ends true uuid rejected (job ∷ job ∷ []) 0 [] rejected-IsEnd
