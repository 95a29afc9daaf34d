-- ===== src/Worker/Report.antt =====
-- The terminal report at the end of `_process_job` of multinexus/agentd/worker.py, and the receipt
-- that confirms it.
use multinexus.Base.{
  ℕ, ◌≡◌, String, Bool, true, false, not, ◌&&◌, ◌||◌, Option, none, some, ◌==◌, string_eq,
  if◌then◌else◌,
}
use multinexus.Base.Text.{codes, strip, same_codes, is_empty}
use multinexus.Base.Value.{
  ℤ, pos, Value, Members, empty, member, lookup, get, int, text, object, null,
}
use multinexus.Base.Same.{same_int, same_value}
use multinexus.Adapters.{
  Outcome, success, failed, timed_out, Category, AdapterResult, effective_outcome, JobStatus,
  done_status, failed_status, timed_out_status, status_for_result, no_response_sentinel,
}
use multinexus.Adapters.{
  unavailable, timeout, process_error, protocol_error, provider_error, no_response, internal_error,
}
use multinexus.Claims.{ExecutionContext, ExecutorBinding}
use multinexus.Claims.Response.{truthy}
pub mod Kept

-- The identity under which a run is reported: of the lease, or of the raw claim in the legacy path.
pub record Trusted : Type 0 where
  pub agent_id : String
  pub job_id : Value
  pub attempt_token : Value
  pub lease_id : Option String

-- A run that came to an end: the adapter's result with its `metadata`, and `progress_state`.
pub record Completion : Type 0 where
  pub result : AdapterResult
  pub metadata : Members
  pub duration_ms : ℕ
  pub progress : Members

unfoldable pub text_or_null : Option String → Value
text_or_null none = null
text_or_null (some s) = text s

unfoldable pub outcome_text : Outcome → String
outcome_text success = "success"
outcome_text failed = "failed"
outcome_text timed_out = "timed_out"

unfoldable pub category_text : Category → String
category_text unavailable = "unavailable"
category_text timeout = "timeout"
category_text process_error = "process_error"
category_text protocol_error = "protocol_error"
category_text provider_error = "provider_error"
category_text no_response = "no_response"
category_text internal_error = "internal_error"

unfoldable pub status_text : JobStatus → String
status_text done_status = "done"
status_text failed_status = "failed"
status_text timed_out_status = "timed_out"

-- Nothing is delivered to the user: a failure of that category, or the sentinel of a result that has
-- no category.
unfoldable pub is_no_response : AdapterResult → Bool
is_no_response r = elim r.error_category [
  | some no_response ↦ elim (effective_outcome r) [ failed ↦ true | _ ↦ false ]
  | some _ ↦ false
  | none ↦ same_codes (strip (codes r.text)) (codes no_response_sentinel)
]

-- `document[key] = value`
unfoldable pub put : String → Value → Members → Members
put key v empty = member key v empty
put key v (member k w ms) = if k == key then member k v ms else member k w (put key v ms)

-- `if condition: document[key] = value`
abbrev pub put_if : Bool → String → Value → Members → Members
put_if b key v ms = if b then put key v ms else ms

-- The members that every report has.
unfoldable pub base_document : Trusted → ExecutionContext → Completion → Members
base_document t c x =
    member "response_text" (if is_no_response x.result then text "" else text x.result.text) (
      member "session_id" (elim x.result.session_id [ none ↦ text "" | some s ↦ text s ])
        (member "duration_ms" (int (pos x.duration_ms)) (
          member "execution_context_id" (text c.context_id) (
            member "worktree_path" (text c.worktree_path) (
              member "session_scope_id" (text c.session_scope_id) (
                member "outcome" (text (outcome_text (effective_outcome x.result))) (
                  member "attempt_token" t.attempt_token
                    (member "lease_id" (text_or_null t.lease_id) empty))))))))

unfoldable pub put_category : Option Category → Members → Members
put_category none ms = ms
put_category (some c) ms = put "error_category" (text (category_text c)) ms

-- `binding.result_evidence()`
unfoldable pub put_binding : Option ExecutorBinding → Members → Members
put_binding none ms = ms
put_binding (some b) ms = put "runner_profile_id" (text b.runner_profile_id) (
    put "executor_definition_id" (text b.executor_definition_id)
      (put "executor_binding_id" (text b.binding_id) ms))

-- `{**metadata["timeout"], "progress": ...}`, which raises on a value that is no dictionary.
unfoldable pub put_timeout : Option Value → Members → Members → Option Members
put_timeout none progress ms = some ms
put_timeout (some (object t)) progress ms =
    some (put "timeout" (object (put "progress" (object progress) t)) ms)
put_timeout (some _) progress ms = none

abbrev pub is_some_member : Members → Bool
is_some_member empty = false
is_some_member (member k v ms) = true

unfoldable pub put_evidence : String → Members → Members → Members
put_evidence key metadata ms = put_if (truthy (get key metadata)) key (get key metadata) ms

-- `result_json` of the run before the evidence of the metadata.
unfoldable pub settled_document :
    Trusted → ExecutionContext → Option ExecutorBinding → Completion → Members
unfolding put put_category put_binding base_document
settled_document t c binding x = put_if (is_some_member x.progress) "progress" (object x.progress) (
    put_binding binding (
      put_if (not (is_empty (codes x.result.diagnostic))) "diagnostic" (text x.result.diagnostic) (
        put_category x.result.error_category (
          put_if (is_no_response x.result) "error" (text no_response_sentinel)
            (base_document t c x)))))

-- The evidence of the metadata, last.
unfoldable pub with_evidence : Members → Option Members → Option Members
unfolding put_evidence
with_evidence metadata none = none
with_evidence metadata (some ms) =
    some (put_evidence "usage_evidence" metadata (put_evidence "provider_evidence" metadata ms))

-- `result_json`; `none` where building it raises.
unfoldable pub result_json :
    Trusted → ExecutionContext → Option ExecutorBinding → Completion → Option Members
unfolding settled_document put_timeout with_evidence
result_json t c binding x =
    with_evidence x.metadata
      (put_timeout (lookup "timeout" x.metadata) x.progress (settled_document t c binding x))

-- `value if isinstance(value, dict) else None`
unfoldable pub dict_of : Value → Option Members
dict_of (object ms) = some ms
dict_of _ = none

-- Every member of the submitted result but the usage evidence is stored with an equal value.
unfoldable pub is_stored : (Value → Value → Bool) → Members → Members → Bool
is_stored f empty stored = true
is_stored f (member k v ms) stored =
    (k == "usage_evidence" || elim (lookup k stored) [ none ↦ false | some w ↦ same_value f w v ])
    && is_stored f ms stored

-- `type(value) is int and type(token) is int and value == token`
unfoldable pub same_token : Value → Value → Bool
same_token (int m) (int n) = same_int m n
same_token _ _ = false

unfoldable pub is_stored_result : (Value → Value → Bool) → Members → Option Members → Bool
unfolding is_stored
is_stored_result f doc none = false
is_stored_result f doc (some stored) = is_stored f doc stored

unfoldable pub is_confirmed_job : (Value → Value → Bool) → Trusted → Members → Option Members → Bool
unfolding same_token dict_of is_stored_result
is_confirmed_job f t doc none = false
is_confirmed_job f t doc (some job) =
    same_value f (get "id" job) t.job_id
    && (same_value f (get "assigned_agent" job) (text t.agent_id)
        && (same_value f (get "status" job) (text "done")
            && (same_token (get "attempt_count" job) t.attempt_token
                && is_stored_result f doc (dict_of (get "result" job)))))

-- `data.get(key) if isinstance(data, dict) else None`, where the answer is a dictionary.
unfoldable pub dict_at : String → Option Members → Option Members
dict_at key none = none
dict_at key (some ms) = dict_of (get key ms)

unfoldable pub reported_success_matches : (Value → Value → Bool) → Trusted → Members → Value → Bool
unfolding dict_of dict_at is_confirmed_job
reported_success_matches f t doc receipt =
    is_confirmed_job f t doc (dict_at "job" (dict_at "result" (dict_of receipt)))
