-- ===== src/Worker/Claiming/Fencing.antt =====
-- The keys of the claim calls of `run` in multinexus/agentd/worker.py.
use multinexus.Base.{
  ℕ, suc, ◌<◌, ◌≡◌, ◌≢◌, ◌∙◌, refl, String, Bool, true, false, Option, some, List, [], ◌∷◌,
  if◌then◌else◌, arith,
}
use mathlib.Core.Path.{sym}
use mathlib.Core.Option.{some-injective}
use multinexus.Worker.Claiming.{
  ClaimOutcome, uncertain, replay_conflict, terminal, runtime_error, answered, Round, Phase,
  polling, paused, escaped, stopped, latched, Event, claimed, processed, Loop, request_key, settle,
  iterate, iterate_in, run_loop, started, is_claimed,
}

-- No run of the key is in the trace.
unfoldable pub NotProcessed : Option String → List Event → Type 0
NotProcessed k [] = Unit
NotProcessed k (claimed j ∷ t) = NotProcessed k t
NotProcessed k (processed j ∷ t) = (j ≢ k) × NotProcessed k t

-- The last event is the claim of the key.
LastClaimed : Option String → List Event → Type 0
LastClaimed k (claimed j ∷ t) = j ≡ k
LastClaimed k _ = ⊥

-- Each run follows at once the claim of its key, each key is run at most once, and no key is claimed
-- after its run.
unfoldable pub IsFenced : List Event → Type 0
unfolding LastClaimed
IsFenced [] = Unit
IsFenced (claimed k ∷ t) = NotProcessed k t × IsFenced t
IsFenced (processed k ∷ t) = LastClaimed k t × NotProcessed k t × IsFenced t

-- The keys of the runs are among the first `n`.
AreBelow : (ℕ → String) → ℕ → List Event → Type 0
AreBelow uuid n [] = Unit
AreBelow uuid n (claimed k ∷ t) = AreBelow uuid n t
AreBelow uuid n (processed k ∷ t) = ((j : ℕ) × (j < n) × (k ≡ some (uuid j))) × AreBelow uuid n t

below_suc :
    (uuid : ℕ → String) (n : ℕ) (t : List Event) → AreBelow uuid n t → AreBelow uuid (suc n) t
unfolding AreBelow
below_suc uuid n [] h = tt
below_suc uuid n (claimed k ∷ t) h = below_suc uuid n t h
below_suc uuid n (processed k ∷ t) ((j, l, e), h) = ((j, omega arith, e), below_suc uuid n t h)

module _ (uuid : ℕ → String) (distinct : (m n : ℕ) → uuid m ≡ uuid n → m ≡ n) where
  below-NotProcessed : (n : ℕ) (t : List Event) → AreBelow uuid n t → NotProcessed (some (uuid n)) t
  unfolding AreBelow NotProcessed
  below-NotProcessed n [] h = tt
  below-NotProcessed n (claimed k ∷ t) h = below-NotProcessed n t h
  below-NotProcessed n (processed k ∷ t) ((j, l, e), h) = (
    (λ same. absurd (omega (arith, distinct j n (some-injective _ _ (sym e ∙ same))))),
    below-NotProcessed n t h,
  )

  IsKept : Loop → Type 0
  IsKept w = AreBelow uuid w.next w.trace × IsFenced w.trace

  if-IsKept : (c : Bool) (w v : Loop) → IsKept w → IsKept v → IsKept (if c then w else v)
  if-IsKept true w v h k = h
  if-IsKept false w v h k = k

  settle-IsKept :
      (r : Round) (o : ClaimOutcome) (w : Loop)
      → IsKept w
      → IsKept (settle true uuid r o (record w { trace = claimed (some (uuid w.next)) ∷ w.trace }))
  unfolding IsKept AreBelow IsFenced settle LastClaimed request_key NotProcessed
  settle-IsKept r uncertain w (b, f) = (b, (below-NotProcessed w.next w.trace b, f))
  settle-IsKept r replay_conflict w (b, f) = (b, (below-NotProcessed w.next w.trace b, f))
  settle-IsKept r terminal w (b, f) = (b, (below-NotProcessed w.next w.trace b, f))
  settle-IsKept r runtime_error w (b, f) = (b, (below-NotProcessed w.next w.trace b, f))
  settle-IsKept r (answered v) w (b, f) =
      let new = below-NotProcessed w.next w.trace b in
      if-IsKept (is_claimed v) _ _
        (((w.next, omega arith, refl), below_suc uuid _ w.trace b), (refl, new, (new, f)))
        (below_suc uuid _ w.trace b, (new, f))

  in-IsKept : (r : Round) (q : Phase) (w : Loop) → IsKept w → IsKept (iterate_in true uuid r q w)
  unfolding iterate_in
  in-IsKept r polling w h = (unfold request_key in settle-IsKept r r.outcome w h)
  in-IsKept r paused w h = (unfold IsKept in h)
  in-IsKept r (latched reason) w h = (unfold IsKept in h)
  in-IsKept r escaped w h = h
  in-IsKept r stopped w h = h

  run_loop-IsKept : (rs : List Round) (w : Loop) → IsKept w → IsKept (run_loop true uuid rs w)
  unfolding run_loop iterate
  run_loop-IsKept [] w h = h
  run_loop-IsKept (r ∷ rs) w h = run_loop-IsKept rs _ (in-IsKept r w.phase w h)

-- With a client that takes request keys, and with distinct keys: each run of a job follows at once the
-- claim of its key, each key is run at most once, and a key is never claimed again after its run,
-- whatever the claims, the probes and the runs lead to.
pub run_loop-IsFenced :
    (uuid : ℕ → String)
    → ((m n : ℕ) → uuid m ≡ uuid n → m ≡ n)
    → (rs : List Round) → IsFenced (run_loop true uuid rs started).trace
unfolding IsKept AreBelow IsFenced
run_loop-IsFenced uuid distinct rs = (run_loop-IsKept uuid distinct rs started (tt, tt)).1
