-- ===== src/Worker/Attempt/Prompts.antt =====
-- The prompts with which a turn of multinexus/agentd/worker.py invokes the adapter.
use mathlib.Core.Path.{subst}
use mathlib.Core.Option.{some-injective}
use multinexus.Base.{
  ◌≡◌, ap, ◌∙◌, refl, sym, String, Bool, true, Option, none, some, List, ◌∷◌, string_eq, ==_iff,
  arith, inl, inr, All, if-both,
}
use multinexus.Base.Chars.{chars, chars-text_from}
use multinexus.Base.Value.{Value, Members, get}
use Value.{null, boolean, int, float, decimal, text, array, object}
use multinexus.Adapters.{AdapterResult}
use multinexus.Sessions.{Session, Table}
use multinexus.Context.Envelope.{ContextEnvelope, envelope_to_dict}
use multinexus.Context.Envelope.Again.{parsed_envelope-again}
use multinexus.Context.Prompt.{PromptConfig}
use multinexus.Context.Prompt.Current.{EndsWith, render_envelope-EndsWith, delta_prompt-EndsWith}
use multinexus.Worker.{Invocation, call, resume, Envelope, Environment, Job, Turn}
use multinexus.Worker.Steps.{
  start_or_resume, effective_prompt, prompt_with, or_default, is_success, invoke, keep_work_dir,
  find_existing, resume_existing, fall_back, call_or_resume, run_turn,
}
use multinexus.Worker.Recovery.{
  invoked-keep_work_dir, invoked-find_existing, invoked-finish_turn,
  invoked-resume_recoverable_session,
}
use multinexus.Worker.Fallback.{call_or_resume-cases, invoked-fall_back}
use multinexus.Worker.Attempt.{
  Reader, parse, renders, kept_envelope, turn_envelope, Admitted, envelope_of, envelope_for,
  turn_job, initial_turn,
}

abbrev pub prompt_of : Invocation → String
prompt_of (call p) = p
prompt_of (resume session p) = p

module _ (P : String → Type 0) where
  -- An invocation of the adapter with such a prompt.
  abbrev Asks : Invocation → Type 0
  Asks i = P (prompt_of i)

  module _ (env : Environment) (job : Job) (full : P job.prompt)
      (delta : (e : Envelope) (cursor id : String)
        → job.context_envelope ≡ some e
        → P (e.delta_prompt cursor id)) where
    prompt_with-Asks :
        (r : Session) (s : Turn) (o : Option Envelope)
        → job.context_envelope ≡ o
        → P (prompt_with job r s o)
    unfolding prompt_with or_default
    prompt_with-Asks r s none h = full
    prompt_with-Asks r s (some e) h = if-both P _ _ _ (if-both P _ _ _ full (delta e _ _ h)) full

    effective_prompt-Asks : (r : Session) (s : Turn) → P (effective_prompt job r s)
    unfolding effective_prompt
    effective_prompt-Asks r s = prompt_with-Asks r s job.context_envelope refl

    Asks-cons :
        (i : Invocation) (l m : List Invocation) → l ≡ i ∷ m → Asks i → All Asks m → All Asks l
    Asks-cons i l m h p ps = subst (All Asks) (sym h) (p, ps)

    fall_back-Asks :
        (r : Session) (result : AdapterResult) (s : Turn)
        → All Asks s.invoked
        → All Asks (fall_back env job r result s).1.invoked
    fall_back-Asks r result s ps = elim (invoked-fall_back env job r result s) [
      | inl e ↦ subst (All Asks) (sym e) ps
      | inr (e, f, g, h) ↦ Asks-cons (call job.prompt) _ _ e full ps
    ]

    start_or_resume-Asks :
        (o : Option Session) (s : Turn)
        → All Asks s.invoked
        → All Asks (start_or_resume env job o s).1.invoked
    unfolding start_or_resume resume_existing invoke
    start_or_resume-Asks none s ps = (full, ps)
    start_or_resume-Asks (some r) s ps =
        let i = resume r.session_id (effective_prompt job r s) in
        let s' = (invoke env i s).1 in
        if-both (λ (x : AdapterResult × Turn). All Asks x.1.invoked) (is_success (env.provider i))
          (env.provider i, s') (fall_back env job r (env.provider i) s')
          (effective_prompt-Asks r s, ps)
          (fall_back-Asks r (env.provider i) s' (effective_prompt-Asks r s, ps))

    call_or_resume-Asks :
        (s : Turn) → All Asks s.invoked → All Asks (call_or_resume env job s).1.invoked
    call_or_resume-Asks s ps =
        let found = find_existing env job s in
        let kept = keep_work_dir env job found in
        let same = invoked-keep_work_dir env job found ∙ invoked-find_existing env job s in
        let kept_asks = subst (All Asks) (sym same) ps in
        let again = invoked-resume_recoverable_session env job.recovery_session_id job.prompt in
        let recovery = resume job.recovery_session_id job.prompt in
        elim (call_or_resume-cases env job s) [
          | inl e ↦ rw e (Asks-cons recovery _ _ (again s) full ps)
          | inr (inl e) ↦ rw e (Asks-cons recovery _ _ (again kept.1) full kept_asks)
          | inr (inr (inl e)) ↦ rw e (unfold invoke in (full, ps))
          | inr (inr (inr e)) ↦ rw e (start_or_resume-Asks kept.0 kept.1 kept_asks)
        ]

    run_turn-Asks :
        (is_confirmed : Bool) (s : Turn)
        → All Asks s.invoked
        → All Asks (run_turn env job is_confirmed s).1.invoked
    unfolding run_turn
    run_turn-Asks is_confirmed s ps =
        subst (All Asks) (sym (invoked-finish_turn env job is_confirmed (call_or_resume env job s)))
          (call_or_resume-Asks s ps)

-- The tests that an envelope of an attempt has passed.
kept-renders :
    (r : Reader) (config : PromptConfig) (a : Admitted) (cursor_fails : Bool)
    (o : Option ContextEnvelope) (e : ContextEnvelope)
    → kept_envelope r config a.payload a.context a.prompt cursor_fails o ≡ some e
    → (o ≡ some e) × (renders r config a.prompt e ≡ true)
unfolding kept_envelope
kept-renders r config a cursor_fails none e h = cc
kept-renders r config a cursor_fails (some d) e h = ground arith

origin-parsed :
    (r : Reader) (payload : Members) (v : Value) (e : ContextEnvelope)
    → (elim v [ object origin ↦ parse r (get "context" origin) | _ ↦ none ]) ≡ some e
    → (w : Value) × (parse r w ≡ some e)
origin-parsed r payload (object origin) e h = (get "context" origin, h)
origin-parsed r payload null e h = cc
origin-parsed r payload (boolean b) e h = cc
origin-parsed r payload (int n) e h = cc
origin-parsed r payload (float s) e h = cc
origin-parsed r payload (decimal d) e h = cc
origin-parsed r payload (text s) e h = cc
origin-parsed r payload (array vs) e h = cc

module _ (r : Reader) (config : PromptConfig) (adapter : String) (a : Admitted)
    (cursor_fails : Bool) (e : ContextEnvelope)
    (h : envelope_for r config a cursor_fails ≡ some e) where
  was_parsed : (w : Value) × (parse r w ≡ some e)
  unfolding envelope_for envelope_of
  was_parsed =
      origin-parsed r a.payload (get "origin" a.payload) e
        (kept-renders r config a cursor_fails (envelope_of r a.payload) e h).0

  full-EndsWith : EndsWith (chars e.current_text) (chars a.prompt)
  unfolding envelope_for renders
  full-EndsWith =
      let (w, parsed) = was_parsed in
      let same = (kept-renders r config a cursor_fails (envelope_of r a.payload) e h).1 in
      let prompt = (==_iff _ a.prompt).0 same in
      subst (λ p. EndsWith (chars e.current_text) (chars p)) prompt
        (subst (EndsWith (chars e.current_text)) (sym (chars-text_from _)) (
          render_envelope-EndsWith r.loads r.int_of config (envelope_to_dict e) e
            (parsed_envelope-again r.loads r.int_of w e parsed) none))

  delta-EndsWith :
      (d : Envelope) (cursor id : String)
      → (turn_job r config adapter a cursor_fails).context_envelope ≡ some d
      → EndsWith (chars e.current_text) (chars (d.delta_prompt cursor id))
  unfolding turn_job turn_envelope
  delta-EndsWith d cursor id k =
      let (w, parsed) = was_parsed in
      let same : some (turn_envelope r config e) ≡ some d =
        sym (ap (λ o. elim o [ none ↦ none | some x ↦ some (turn_envelope r config x) ]) h) ∙ k in
      subst (λ (x : Envelope). EndsWith (chars e.current_text) (chars (x.delta_prompt cursor id)))
        (some-injective _ _ same)
        (subst (EndsWith (chars e.current_text)) (sym (chars-text_from _)) (
          delta_prompt-EndsWith r.loads r.int_of config (envelope_to_dict e) e cursor id
            (parsed_envelope-again r.loads r.int_of w e parsed)))

-- A turn that has an envelope gives the adapter a prompt that ends with the text of the message to
-- answer, on every path: a fresh call, a recovered or a resumed session, with the full prompt or with the
-- messages after any cursor, and the fallback after a failed resume.
pub run_turn-EndsWith :
    (r : Reader) (config : PromptConfig) (adapter : String) (a : Admitted) (cursor_fails : Bool)
    (confirmed : Option (String × String)) (t : Table) (env : Environment) (is_confirmed : Bool)
    (e : ContextEnvelope)
    → envelope_for r config a cursor_fails ≡ some e
    → All
        (λ i. EndsWith (chars e.current_text) (chars (prompt_of i)))
        (run_turn env
          (turn_job r config adapter a cursor_fails)
          is_confirmed
          (initial_turn config a cursor_fails confirmed t)).1.invoked
unfolding turn_job initial_turn
run_turn-EndsWith r config adapter a cursor_fails confirmed t env is_confirmed e h =
    run_turn-Asks (λ p. EndsWith (chars e.current_text) (chars p)) env
      (turn_job r config adapter a cursor_fails) (full-EndsWith r config adapter a cursor_fails e h)
      (delta-EndsWith r config adapter a cursor_fails e h) is_confirmed
      (initial_turn config a cursor_fails confirmed t) tt
