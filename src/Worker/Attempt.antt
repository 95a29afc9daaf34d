-- ===== src/Worker/Attempt.antt =====
-- The start of a provider turn in `_process_job` of multinexus/agentd/worker.py: the session to recover,
-- the structured context that may shorten the prompt, and the row that the attempt observes.
use multinexus.Base.{
  ◌≡◌, String, Bool, true, false, not, ◌&&◌, Option, none, some, List, [], ◌∷◌, ◌++◌, ◌==◌,
  string_eq, if◌then◌else◌,
}
use Prim.Native.Char.{Char}
use multinexus.Base.Text.{codes, has_prefix, is_empty}
use multinexus.Base.Chars.{chars, text_from, strip_chars}
use multinexus.Base.Value.{ℤ, Value, Members, empty, lookup, get}
use Value.{text, object}
use multinexus.Sessions.{Session, Table}
use multinexus.Sessions.Store
use multinexus.Claims.{ExecutionContext}
use multinexus.Context.Envelope.{ContextEnvelope, envelope_to_dict, parsed_envelope}
use multinexus.Context.Prompt.{PromptConfig, render_envelope, delta_prompt}
use multinexus.Worker.{Envelope, Job, Turn}
pub mod Prompts
mod Examples

-- The first candidate that is a text with something but white space, stripped; empty if there is none.
unfoldable pub first_text : List Value → String
unfolding strip_chars text_from
first_text [] = ""
first_text (text s ∷ vs) =
    let rest = first_text vs in
    if is_empty (strip_chars (chars s)) then rest else text_from (strip_chars (chars s))
first_text (v ∷ vs) = first_text vs

-- `value if isinstance(value, dict) else {}`
unfoldable pub dict_or_empty : Value → Members
dict_or_empty (object ms) = ms
dict_or_empty _ = empty

unfoldable pub recovery_session_id : Members → String
unfolding first_text dict_or_empty
recovery_session_id job =
    let result = dict_or_empty (get "result" job) in
    first_text (
      get "terminal_session_id" job
      ∷ get "session_id" (dict_or_empty (get "progress" job))
      ∷ get "session_id" (dict_or_empty (get "timeout" result))
      ∷ get "session_id" result
      ∷ [])

-- What is not under the repository's control: `json.loads`, `int` of a text, and `str` of a value that is
-- no text.
pub record Reader : Type 0 where
  pub loads : String → Option Value
  pub int_of : String → Option ℤ
  pub str_of_value : Value → String

abbrev pub parse : Reader → Value → Option ContextEnvelope
parse r = parsed_envelope r.loads r.int_of

-- `parse_context_envelope(origin.get("context"))`, where the origin is a dictionary.
unfoldable pub envelope_of : Reader → Members → Option ContextEnvelope
envelope_of r payload = elim (get "origin" payload) [
  | object origin ↦ parse r (get "context" origin)
  | _ ↦ none
]

-- `str(origin.get("message_id", ""))`
unfoldable pub shown : Reader → Option Value → String
shown r none = ""
shown r (some (text s)) = s
shown r (some v) = r.str_of_value v

-- The envelope is of the job's session scope, of its workspace, and of the message that the job answers.
unfoldable pub is_of_job : Reader → Members → ExecutionContext → ContextEnvelope → Bool
unfolding dict_or_empty shown
is_of_job r payload c e =
    e.session_scope_id == c.session_scope_id
    && (has_prefix (codes "workspace:" ++ (codes c.workspace_id ++ codes ":")) (codes e.scope_id)
        && e.current_message_id
          == shown r (lookup "message_id" (dict_or_empty (get "origin" payload))))

-- `render_envelope(envelope.to_dict(), config) == prompt`
unfoldable pub renders : Reader → PromptConfig → String → ContextEnvelope → Bool
renders r config prompt e =
    text_from (render_envelope (parse r) config (envelope_to_dict e) none) == prompt

-- The envelope that the attempt may use: none if it fails a test, or if the session row cannot be read.
unfoldable pub kept_envelope :
    Reader
    → PromptConfig
    → Members
    → ExecutionContext
    → String
    → Bool
    → Option ContextEnvelope
    → Option ContextEnvelope
unfolding is_of_job renders
kept_envelope r config payload c prompt cursor_fails none = none
kept_envelope r config payload c prompt cursor_fails (some e) =
    if is_of_job r payload c e && (renders r config prompt e && not cursor_fails)
    then some e
    else none

-- The envelope as a turn uses it.
unfoldable pub turn_envelope : Reader → PromptConfig → ContextEnvelope → Envelope
turn_envelope r config e = record {
  generation = e.generation;
  current_order_token = e.current_order_token;
  current_message_id = e.current_message_id;
  delta_prompt = λ cursor id.
      text_from (delta_prompt (parse r) r.int_of config (envelope_to_dict e) cursor id);
}

-- An admitted job with a text as its prompt.
pub record Admitted : Type 0 where
  pub payload : Members
  pub job : Members
  pub context : ExecutionContext
  pub prompt : String

unfoldable pub envelope_for : Reader → PromptConfig → Admitted → Bool → Option ContextEnvelope
unfolding kept_envelope envelope_of
envelope_for r config a cursor_fails =
    kept_envelope r config a.payload a.context a.prompt cursor_fails (envelope_of r a.payload)

-- The arguments of `_call_or_resume`, with the adapter's name.
unfoldable pub turn_job : Reader → PromptConfig → String → Admitted → Bool → Job
unfolding envelope_for turn_envelope recovery_session_id
turn_job r config adapter a cursor_fails = record {
  agent_id = config.id;
  adapter = adapter;
  prompt = a.prompt;
  session_scope_id = a.context.session_scope_id;
  legacy_scope_ids = a.context.legacy_scope_ids;
  work_dir = a.context.worktree_path;
  recovery_session_id = recovery_session_id a.job;
  context_envelope = elim (envelope_for r config a cursor_fails) [
    | none ↦ none
    | some e ↦ some (turn_envelope r config e)
  ];
}

-- The first state of the turn; without a readable row the attempt writes nothing.
unfoldable pub initial_turn :
    PromptConfig → Admitted → Bool → Option (String × String) → Table → Turn
initial_turn config a cursor_fails confirmed t = record {
  snapshot = if cursor_fails then none else Store.get a.context.session_scope_id config.id true t;
  writable = not cursor_fails;
  confirmed = confirmed;
  table = t;
  invoked = [];
}
