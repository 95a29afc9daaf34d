-- ===== src/Worker/Fallback.antt =====
-- When a provider turn of multinexus/agentd/worker.py starts a fresh execution.
use multinexus.Base.{
  ap, ◌∙◌, String, ◌≡◌, refl, ◌⊎◌, Bool, true, false, Option, none, some, ◌∷◌, string_eq, arith,
  Bool-cases, inl, inr,
}
use multinexus.Adapters.{AdapterResult}
use multinexus.Sessions.{Session, Table}
use multinexus.Sessions.Table.{find}
use multinexus.Sessions.History.{run}
use multinexus.Worker.Steps.{finish_turn}
use multinexus.Worker.Retired.{as_read, as_retired, retired-as_read, retired-as_retired}
use multinexus.Worker.{call, resume, Environment, Job, Turn}
use multinexus.Worker.Steps.{
  start_or_resume, effective_prompt, invoke, retire_session, keep_work_dir, find_existing,
  resume_recoverable_session, resume_existing, fall_back, call_or_resume, run_turn, is_success,
  is_internal_error,
}
use multinexus.Worker.Recovery.{
  invoked-retire_session, invoked-keep_work_dir, invoked-find_existing, invoked-finish_turn,
  invoked-resume_recoverable_session,
}

-- The table that the worker sees after the provider has run.
abbrev after_resume : Environment → Turn → Session → String → Table
after_resume env s r p = run (env.meanwhile (resume r.session_id p)) s.table

-- What a turn asks of the adapter, `y` being the outcome and the turn then: one fresh call, one resume,
-- or a resume of a row `r` and then a fresh call. The last needs a failed resume that is no internal
-- error, an adapter that allows the fallback, and that the table which the resume leaves has the row as
-- it was read; and the fresh call is made in a turn `q` in whose table the row is stale.
pub data Invokes (env : Environment) (job : Job) (s : Turn) (y : AdapterResult × Turn)
    : Type 0 where
  fresh : y.1.invoked ≡ call job.prompt ∷ s.invoked → Invokes env job s y
  resumed : (session p : String) → y.1.invoked ≡ resume session p ∷ s.invoked → Invokes env job s y
  fell_back :
      (r : Session) (p : String) (q : Turn)
      → y.1.invoked ≡ call job.prompt ∷ resume r.session_id p ∷ s.invoked
      → is_success (env.provider (resume r.session_id p)) ≡ false
      → is_internal_error (env.provider (resume r.session_id p)) ≡ false
      → env.allow_fresh_fallback ≡ true
      → find r.scope_id job.agent_id (after_resume env s r p) ≡ some (as_read job r)
      → find r.scope_id job.agent_id q.table ≡ some (as_retired env job r)
      → y ≡ invoke env (call job.prompt) q
      → Invokes env job s y

pub invoked-fall_back :
    (env : Environment) (job : Job) (r : Session) (result : AdapterResult) (s : Turn)
    → ((fall_back env job r result s).1.invoked ≡ s.invoked)
      ⊎ (((fall_back env job r result s).1.invoked ≡ call job.prompt ∷ s.invoked)
          × (is_internal_error result ≡ false)
          × (env.allow_fresh_fallback ≡ true)
          × ((retire_session env job r s).0 ≡ true))
unfolding fall_back invoke
invoked-fall_back env job r result s = ground (arith, invoked-retire_session env job r s)

fall_back-cases :
    (env : Environment) (job : Job) (r : Session) (result : AdapterResult) (s : Turn)
    → ((fall_back env job r result s).1.invoked ≡ s.invoked)
      ⊎ ((fall_back env job r result s
            ≡ invoke env (call job.prompt) (retire_session env job r s).1)
          × (is_internal_error result ≡ false)
          × (env.allow_fresh_fallback ≡ true)
          × ((retire_session env job r s).0 ≡ true))
unfolding fall_back
fall_back-cases env job r result s = ground (arith, invoked-retire_session env job r s)

invoked-fresh :
    (env : Environment) (job : Job) (s : Turn)
    → (invoke env (call job.prompt) s).1.invoked ≡ call job.prompt ∷ s.invoked
unfolding invoke
invoked-fresh env job s = refl

resume_existing-failed :
    (env : Environment) (job : Job) (r : Session) (s : Turn)
    → let i = resume r.session_id (effective_prompt job r s) in
      is_success (env.provider i) ≡ false
      → resume_existing env job r s ≡ fall_back env job r (env.provider i) (invoke env i s).1
unfolding resume_existing invoke
resume_existing-failed env job r s h = rw h

resume_existing-Invokes :
    (env : Environment) (job : Job) (r : Session) (s : Turn)
    → Invokes env job s (resume_existing env job r s)
unfolding invoke
resume_existing-Invokes env job r s =
    let p = effective_prompt job r s in
    let i = resume r.session_id p in
    let s' = (invoke env i s).1 in
    elim (Bool-cases (is_success (env.provider i))) [
      | inl e ↦ Invokes.resumed r.session_id p (unfold resume_existing invoke in ground arith)
      | inr e ↦
          let failed = resume_existing-failed env job r s e in
          elim (fall_back-cases env job r (env.provider i) s') [
            | inl f ↦
                Invokes.resumed r.session_id p
                  (ap (λ (y : AdapterResult × Turn). y.1.invoked) failed ∙ f)
            | inr (f, internal, allowed, retired) ↦
                Invokes.fell_back r p (retire_session env job r s').1
                  (ap (λ (y : AdapterResult × Turn). y.1.invoked) (failed ∙ f)
                    ∙ invoked-fresh env job (retire_session env job r s').1
                    ∙ ap (λ l. call job.prompt ∷ l) (invoked-retire_session env job r s'))
                  e internal allowed (retired-as_read env job r s' retired)
                  (retired-as_retired env job r s' retired) (failed ∙ f)
          ]
    ]

unchanged-find_existing :
    (env : Environment) (job : Job) (s : Turn) (r : Session)
    → (find_existing env job s).0 ≡ some r
    → (find_existing env job s).1 ≡ s
unfolding find_existing
unchanged-find_existing env job s r h = ground arith

kept-keep_work_dir :
    (env : Environment) (job : Job) (x : Option Session × Turn) (r : Session)
    → (keep_work_dir env job x).0 ≡ some r
    → (x.0 ≡ some r) × ((keep_work_dir env job x).1 ≡ x.1)
unfolding keep_work_dir
kept-keep_work_dir env job (none, s) r h = cc
kept-keep_work_dir env job (some q, s) r h = ground arith

-- A row to resume is found without a write, so that the turn is still in its first state.
unchanged-keep_work_dir :
    (env : Environment) (job : Job) (s : Turn) (r : Session)
    → (keep_work_dir env job (find_existing env job s)).0 ≡ some r
    → (keep_work_dir env job (find_existing env job s)).1 ≡ s
unchanged-keep_work_dir env job s r h =
    let (found, same) = kept-keep_work_dir env job (find_existing env job s) r h in
    same ∙ unchanged-find_existing env job s r found

pub call_or_resume-cases :
    (env : Environment) (job : Job) (s : Turn)
    → let (existing, s') = keep_work_dir env job (find_existing env job s) in
      (call_or_resume env job s
        ≡ resume_recoverable_session env job.recovery_session_id job.prompt s)
      ⊎ (call_or_resume env job s
          ≡ resume_recoverable_session env job.recovery_session_id job.prompt s')
      ⊎ (call_or_resume env job s ≡ invoke env (call job.prompt) s)
      ⊎ (call_or_resume env job s ≡ start_or_resume env job existing s')
unfolding call_or_resume
call_or_resume-cases env job s = ground arith

kept-Invokes :
    (env : Environment) (job : Job) (s : Turn) (existing : Option Session)
    → (keep_work_dir env job (find_existing env job s)).0 ≡ existing
    → Invokes env job s
        (start_or_resume env job existing (keep_work_dir env job (find_existing env job s)).1)
unfolding start_or_resume
kept-Invokes env job s none e = Invokes.fresh (
    invoked-fresh env job (keep_work_dir env job (find_existing env job s)).1
    ∙ ap (λ r. call job.prompt ∷ r)
        (invoked-keep_work_dir env job (find_existing env job s) ∙ invoked-find_existing env job s))
kept-Invokes env job s (some r) e =
    rw (unchanged-keep_work_dir env job s r e) (resume_existing-Invokes env job r s)

call_or_resume-Invokes :
    (env : Environment) (job : Job) (s : Turn) → Invokes env job s (call_or_resume env job s)
call_or_resume-Invokes env job s =
    let found = find_existing env job s in
    let kept = keep_work_dir env job found in
    let same = invoked-keep_work_dir env job found ∙ invoked-find_existing env job s in
    let recovered = invoked-resume_recoverable_session env job.recovery_session_id job.prompt in
    elim (call_or_resume-cases env job s) [
      | inl e ↦ rw e (Invokes.resumed job.recovery_session_id job.prompt (recovered s))
      | inr (inl e) ↦ rw e (
          Invokes.resumed job.recovery_session_id job.prompt
            (recovered kept.1 ∙ ap (λ r. resume job.recovery_session_id job.prompt ∷ r) same))
      | inr (inr (inl e)) ↦ rw e (Invokes.fresh (invoked-fresh env job s))
      | inr (inr (inr e)) ↦ rw e (kept-Invokes env job s kept.0 refl)
    ]

-- A turn invokes the adapter once, or twice, before its end, which invokes nothing: a second, fresh
-- execution is started only after the resume of a stored session failed with something else than an
-- internal error, where the adapter allows it, where the table that the resume left had the resumed row
-- in every column as it was read, and where the worker has marked that row stale before the fresh call.
pub run_turn-Invokes :
    (env : Environment) (job : Job) (is_confirmed : Bool) (s : Turn)
    → (y : AdapterResult × Turn) × (run_turn env job is_confirmed s
        ≡ finish_turn env job is_confirmed y)
      × ((run_turn env job is_confirmed s).1.invoked ≡ y.1.invoked)
      × Invokes env job s y
unfolding run_turn
run_turn-Invokes env job is_confirmed s = (
  call_or_resume env job s,
  refl,
  invoked-finish_turn env job is_confirmed (call_or_resume env job s),
  call_or_resume-Invokes env job s,
)
