-- ===== src/Worker/Attempt/Examples.antt =====
-- Attempts of multinexus/agentd/worker.py, and the theorems applied to them.
use multinexus.Base.{
  ◌≡◌, refl, ap, ◌∙◌, true, false, none, some, [], All, ==_refl, string_eq, ◌&&◌, if◌then◌else◌,
}
use multinexus.Base.Chars.{chars, text_from}
use multinexus.Base.Value.{pos, Members, empty, member, lookup, get, text, object}
use multinexus.Base.Result.{ok, err}
use multinexus.Context.Envelope.{parsed_envelope, envelope_to_dict}
use multinexus.Context.Envelope.Examples.{int_of, envelope, document, accepted}
use multinexus.Context.Prompt.{PromptConfig, render_envelope}
use multinexus.Context.Prompt.Current.{EndsWith}
use multinexus.Worker.Examples.{quiet}
use multinexus.Worker.Conclude.Examples.{context}
use multinexus.Worker.Steps.{run_turn}
use multinexus.Worker.Attempt.{
  Reader, parse, envelope_of, is_of_job, renders, kept_envelope, envelope_for, Admitted, turn_job,
  initial_turn, recovery_session_id,
}
use multinexus.Worker.Attempt.Prompts.{prompt_of, run_turn-EndsWith}

abbrev reader : Reader
reader = record { loads = λ s. none; int_of = int_of; str_of_value = λ v. "" }

abbrev config : PromptConfig
config = record { id = "codex"; display_name = ""; context_max_message_chars = pos 500 }

abbrev payload : Members
payload =
    member "origin"
      (object (member "context" (object document) (member "message_id" (text "m13") empty))) empty

abbrev admitted : Admitted
admitted = record {
  payload = payload;
  job = empty;
  context = context;
  prompt = text_from (render_envelope (parse reader) config (envelope_to_dict envelope) none);
}

parsed : parsed_envelope reader.loads reader.int_of (object document) ≡ some envelope
unfolding parsed_envelope
parsed = ap (λ r. elim r [ ok e ↦ some e | err x ↦ none ]) accepted

found : envelope_of reader payload ≡ some envelope
unfolding envelope_of get lookup
found = parsed

of_job : is_of_job reader payload context envelope ≡ true
unfolding is_of_job lookup get
of_job = refl

rendered : renders reader config admitted.prompt envelope ≡ true
unfolding renders
rendered = ==_refl admitted.prompt

kept :
    kept_envelope reader config payload context admitted.prompt false (some envelope)
    ≡ some envelope
unfolding kept_envelope
kept =
    ap
      (λ b.
        if b && (renders reader config admitted.prompt envelope && true)
        then some envelope
        else none)
      of_job
    ∙ ap (λ b. if b && true then some envelope else none) rendered

chosen : envelope_for reader config admitted false ≡ some envelope
unfolding envelope_for
chosen = ap (kept_envelope reader config payload context admitted.prompt false) found ∙ kept

run_turn-EndsWith_example :
    All
      (λ i. EndsWith (chars "hi") (chars (prompt_of i)))
      (run_turn quiet
        (turn_job reader config "codex" admitted false)
        true
        (initial_turn config admitted false none [])).1.invoked
run_turn-EndsWith_example =
    run_turn-EndsWith reader config "codex" admitted false none [] quiet true envelope chosen

recovered :
    recovery_session_id (
      member "terminal_session_id"
        (text "  ")
        (member "progress" (object (member "session_id" (text " s4 ") empty)) empty))
    ≡ "s4"
unfolding recovery_session_id get lookup
recovered = refl
