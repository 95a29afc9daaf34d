-- ===== src/Worker/Startup/Evidence.antt =====
-- What a start of `run` in multinexus/agentd/worker.py has shown before the first claim.
use mathlib.Core.Path.{subst}
use multinexus.Base.{
  ℕ, ◌≤◌, ◌≡◌, refl, sym, Bool, true, false, not, ◌&&◌, Option, none, some, List, [], ◌==◌,
  string_eq, arith, leb, leb→le, eqb, length, all,
}
use multinexus.Base.Text.{codes, strip, is_empty, same_codes}
use multinexus.Base.Value.{get, Members, Value}
use Value.{null, boolean, int, float, decimal, text, array, object}
use multinexus.Base.Result.{ok, after_bind, after_require, ok-injective, require-true}
use multinexus.Worker.Startup.{
  adapter_not_ready, normalize_recovery_reason, none_reason, normalize_claim_reap_policy, is_flag,
  is_empty_text, is_none, policy_of, recovery_evidence, Readiness, check_cancelled, check_raised,
  answer, is_ready, Startup, Plan, after_check, start_up, utf8_length,
}

-- A reason in the given characters, not blank and of bounded length.
unfoldable pub IsReason : (ℕ → Bool) → List ℕ → Type 0
IsReason test r = (is_empty r ≡ false) × (all test r ≡ true) × (length r ≤ 512)

negated : (b : Bool) → not b ≡ true → b ≡ false
negated b h = ground arith

recovery-IsReason :
    (v : Value) (r : List ℕ) → normalize_recovery_reason v ≡ ok r → IsReason (λ c. leb 32 c) r
unfolding normalize_recovery_reason IsReason
recovery-IsReason (text s) r h = after_require (not (is_empty (strip (codes s)))) _ _ h λ e1 h1.
    after_require (all (λ c. leb 32 c) (strip (codes s))) _ _ h1 λ e2 h2.
      after_require (leb (length (strip (codes s))) 512) _ _ h2 λ e3 h3.
        subst (λ q. (is_empty q ≡ false) × (all (λ c. leb 32 c) q ≡ true) × (length q ≤ 512))
          (ok-injective _ _ _ refl h3) (negated _ e1, e2, leb→le _ _ e3)
recovery-IsReason null r h = cc
recovery-IsReason (boolean b) r h = cc
recovery-IsReason (int n) r h = cc
recovery-IsReason (float t) r h = cc
recovery-IsReason (decimal d) r h = cc
recovery-IsReason (array vs) r h = cc
recovery-IsReason (object ms) r h = cc

none-IsReason :
    (v : Value) (r : List ℕ) → none_reason v ≡ ok r → IsReason (λ c. leb 32 c && not (eqb c 127)) r
unfolding none_reason IsReason
none-IsReason (text s) r h = after_require (not (is_empty (strip (codes s)))) _ _ h λ e1 h1.
    after_require (same_codes (codes s) (strip (codes s))) _ _ h1 λ e2 h2.
      after_require (all (λ c. leb 32 c && not (eqb c 127)) (strip (codes s))) _ _ h2 λ e3 h3.
        after_require (leb (length (strip (codes s))) 512) _ _ h3 λ e4 h4.
          after_require (leb (utf8_length (strip (codes s))) 2048) _ _ h4 λ e5 h5.
            subst
              (λ q.
                (is_empty q ≡ false)
                × (all (λ c. leb 32 c && not (eqb c 127)) q ≡ true)
                × (length q ≤ 512))
              (ok-injective _ _ _ refl h5) (negated _ e1, e3, leb→le _ _ e4)
none-IsReason null r h = cc
none-IsReason (boolean b) r h = cc
none-IsReason (int n) r h = cc
none-IsReason (float t) r h = cc
none-IsReason (decimal d) r h = cc
none-IsReason (array vs) r h = cc
none-IsReason (object ms) r h = cc

-- The sealed policy has a reason without control characters.
IsPolicy : Option (List ℕ) → Type 0
IsPolicy none = Unit
IsPolicy (some r) = IsReason (λ c. leb 32 c && not (eqb c 127)) r

policy_of-IsPolicy :
    (b c : Bool) (reason : Value) (o : Option (List ℕ)) → policy_of b c reason ≡ ok o → IsPolicy o
unfolding policy_of IsPolicy
policy_of-IsPolicy true c reason o h =
    after_require (is_none reason) _ _ h λ e h1. subst IsPolicy (ok-injective _ _ _ refl h1) tt
policy_of-IsPolicy false true reason o h =
    after_bind (none_reason reason) _ h
      λ r e h1. subst IsPolicy (ok-injective _ _ _ refl h1) (none-IsReason reason r e)
policy_of-IsPolicy false false reason o h = cc

normalize_claim_reap_policy-IsPolicy :
    (mode reason : Value) (o : Option (List ℕ))
    → normalize_claim_reap_policy mode reason ≡ ok o
    → IsPolicy o
unfolding normalize_claim_reap_policy
normalize_claim_reap_policy-IsPolicy (text m) reason o h =
    policy_of-IsPolicy (m == "global") (m == "none") reason o h
normalize_claim_reap_policy-IsPolicy null reason o h = cc
normalize_claim_reap_policy-IsPolicy (boolean b) reason o h = cc
normalize_claim_reap_policy-IsPolicy (int n) reason o h = cc
normalize_claim_reap_policy-IsPolicy (float t) reason o h = cc
normalize_claim_reap_policy-IsPolicy (decimal d) reason o h = cc
normalize_claim_reap_policy-IsPolicy (array vs) reason o h = cc
normalize_claim_reap_policy-IsPolicy (object ms) reason o h = cc

flag-eq : (b : Bool) (v : Value) → is_flag b v ≡ true → v ≡ boolean b
unfolding is_flag
flag-eq true (boolean true) h = refl
flag-eq true (boolean false) h = cc
flag-eq false (boolean true) h = cc
flag-eq false (boolean false) h = refl
flag-eq true null h = cc
flag-eq true (int n) h = cc
flag-eq true (float t) h = cc
flag-eq true (decimal d) h = cc
flag-eq true (text s) h = cc
flag-eq true (array vs) h = cc
flag-eq true (object ms) h = cc
flag-eq false null h = cc
flag-eq false (int n) h = cc
flag-eq false (float t) h = cc
flag-eq false (decimal d) h = cc
flag-eq false (text s) h = cc
flag-eq false (array vs) h = cc
flag-eq false (object ms) h = cc

-- A recovery has the stop of the prior process and a reason; a normal start has neither.
IsEvidence : Bool → Value → List ℕ → Type 0
IsEvidence true stop r = (stop ≡ boolean true) × IsReason (λ c. leb 32 c) r
IsEvidence false stop r = (stop ≡ boolean false) × (r ≡ [])

recovery_evidence-IsEvidence :
    (recoverable : Bool) (reason stop : Value) (r : List ℕ)
    → recovery_evidence recoverable reason stop ≡ ok r
    → IsEvidence recoverable stop r
unfolding recovery_evidence IsEvidence
recovery_evidence-IsEvidence true reason stop r h =
    after_require (is_flag true stop) _ _ h
      λ e h1. (flag-eq true stop e, recovery-IsReason reason r h1)
recovery_evidence-IsEvidence false reason stop r h =
    after_require (is_empty_text reason) _ _ h λ e h1.
      after_require (is_flag false stop) _ _ h1
        λ e2 h2. (flag-eq false stop e2, sym (ok-injective _ _ _ refl h2))

-- The adapter has no check, or it answered `None`, or a `dict` whose `runtime_ready` is `True`.
pub data HasReadiness : Readiness → Type 0 where
  nothing_to_report : HasReadiness (answer null)
  reported_ready :
      (ms : Members) → get "runtime_ready" ms ≡ boolean true → HasReadiness (answer (object ms))

answer-HasReadiness : (v : Value) → is_ready v ≡ true → HasReadiness (answer v)
unfolding is_ready
answer-HasReadiness null h = HasReadiness.nothing_to_report
answer-HasReadiness (object ms) h =
    HasReadiness.reported_ready ms (flag-eq true (get "runtime_ready" ms) h)
answer-HasReadiness (boolean b) h = cc
answer-HasReadiness (int n) h = cc
answer-HasReadiness (float t) h = cc
answer-HasReadiness (decimal d) h = cc
answer-HasReadiness (text s) h = cc
answer-HasReadiness (array vs) h = cc

after_check-HasReadiness :
    (q : Readiness) (running : Bool)
    → after_check q running ≡ ok tt
    → HasReadiness q × (running ≡ true)
unfolding after_check
after_check-HasReadiness check_cancelled running h = cc
after_check-HasReadiness check_raised true h = cc
after_check-HasReadiness check_raised false h = cc
after_check-HasReadiness (answer v) running h =
    after_require running _ _ h
      λ e h1. (answer-HasReadiness v (require-true (is_ready v) adapter_not_ready h1), e)

-- Before the first claim, the worker runs and its adapter is ready; a sealed policy has a reason; and a
-- recovery has evidence, where a normal start claims none.
unfoldable pub IsEvident : Startup → Plan → Type 0
unfolding IsPolicy IsEvidence
IsEvident s plan =
    HasReadiness s.readiness
    × (s.running ≡ true)
    × (plan.recoverable ≡ s.recoverable)
    × IsPolicy plan.reap_reason
    × IsEvidence s.recoverable s.prior_process_stopped plan.recovery_reason

-- The loop of claims is reached only by a running worker whose adapter has no check, or whose check
-- answered `None` or a `dict` in which `runtime_ready` is `True`; the reason of a sealed reap policy is not blank, has no control characters
-- and at most 512 characters; and a recovery has the flag that the prior process has stopped, which is
-- exactly true, and a reason that is not blank, while a normal start has the flag exactly false and no
-- reason.
pub start_up-IsEvident : (s : Startup) (plan : Plan) → start_up s ≡ ok plan → IsEvident s plan
unfolding start_up IsEvident
start_up-IsEvident s plan h =
    after_bind (normalize_claim_reap_policy s.reap_mode s.reap_reason) _ h λ o e1 h1.
      after_bind (recovery_evidence s.recoverable s.recovery_reason s.prior_process_stopped) _ h1
        λ r e2 h2. after_bind (after_check s.readiness s.running) _ h2 λ u e3 h3.
          let ready = after_check-HasReadiness s.readiness s.running e3 in
          subst
            (λ q.
              HasReadiness s.readiness
              × (s.running ≡ true)
              × (q.recoverable ≡ s.recoverable)
              × IsPolicy q.reap_reason
              × IsEvidence s.recoverable s.prior_process_stopped q.recovery_reason)
            (ok-injective _ _ _ refl h3)
            (
              ready.0,
              ready.1,
              refl,
              normalize_claim_reap_policy-IsPolicy s.reap_mode s.reap_reason o e1,
              recovery_evidence-IsEvidence s.recoverable s.recovery_reason s.prior_process_stopped r
                  e2,
            )
