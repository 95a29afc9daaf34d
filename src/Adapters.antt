-- ===== src/Adapters.antt =====
-- multinexus/adapters/base.py: the result that every adapter returns, and its settlement.
pub mod Settlement
mod Examples
use multinexus.Base.{
  ℕ, String, ◌≡◌, refl, Bool, true, false, ◌&&◌, ◌||◌, Option, none, some, List, [], ◌∷◌,
  if◌then◌else◌,
}
use multinexus.Base.Text.{codes, strip, has_prefix, same_codes}
use multinexus.Base.Result.{Result, ok, err}

pub data Outcome : Type 0 where
  success failed timed_out : Outcome

-- `FAILURE_CATEGORIES`
pub data Category : Type 0 where
  unavailable timeout process_error protocol_error provider_error no_response internal_error :
      Category

-- `metadata` is kept as far as the settlement reads it: whether `metadata.get("timeout")` is true.
pub record AdapterResult : Type 0 where
  pub text : String
  pub session_id : Option String
  pub resumed : Bool
  pub has_timeout_metadata : Bool
  pub outcome : Option Outcome
  pub error_category : Option Category
  pub diagnostic : String

abbrev pub no_response_sentinel : String
no_response_sentinel = "(no response)"

abbrev pub error_prefixes : List String
error_prefixes =
    "Agent error:" ∷ "OpenCode CLI failed" ∷ "OpenCode timed out" ∷ "OpenCode returned no text"
    ∷ "OpenCode CLI not found" ∷ "Codex CLI failed" ∷ "Codex timed out" ∷ "Codex stopped responding"
    ∷ "Codex resume failed" ∷ "Codex CLI not found" ∷ "Codex model capacity" ∷ "Hermes CLI failed"
    ∷ "Hermes timed out" ∷ "Hermes CLI not found" ∷ "Claude CLI failed" ∷ "Claude error:"
    ∷ "Claude timeout" ∷ "Claude CLI not found" ∷ "omp CLI failed" ∷ "omp timed out"
    ∷ "omp CLI not found" ∷ "Qoder CLI failed" ∷ "Qoder timeout after" ∷ "Qoder error:"
    ∷ "Qoder resume failed:" ∷ "Qoder CLI not found" ∷ "Grok CLI failed" ∷ "Grok timeout after"
    ∷ "Grok error:" ∷ "Grok resume failed:" ∷ "Grok CLI not found" ∷ "ZCode CLI failed"
    ∷ "ZCode timeout after" ∷ "ZCode error:" ∷ "ZCode resume failed:" ∷ "ZCode CLI not found"
    ∷ "ACP error:" ∷ "ACP timeout after" ∷ "ACP command not found" ∷ "ACP protocol mismatch"
    ∷ "ACP resume failed closed" ∷ []

-- `any(text.startswith(prefix) for prefix in prefixes)`
unfoldable pub has_any_prefix : List String → String → Bool
has_any_prefix [] text = false
has_any_prefix (p ∷ ps) text = has_prefix (codes p) (codes text) || has_any_prefix ps text

unfoldable pub is_error_text : String → Bool
is_error_text text =
    same_codes (strip (codes text)) (codes no_response_sentinel)
    || has_any_prefix error_prefixes text

unfoldable pub effective_outcome : AdapterResult → Outcome
effective_outcome r = elim r.outcome [
  | some o ↦ o
  | none ↦
      if r.has_timeout_metadata
      then timed_out
      else if has_prefix (codes "Claude timeout:") (codes r.text)
      then timed_out
      else if is_error_text r.text
      then failed
      else success
]

-- The `ValueError`s of `__post_init__`. An outcome or a category outside the vocabulary has no value
-- in `Outcome` and `Category`.
pub data ContractError : Type 0 where
  category_without_outcome category_on_success bad_timeout_category missing_category : ContractError

abbrev is_timeout : Category → Bool
is_timeout timeout = true
is_timeout _ = false

settle_category : Option Outcome → Option Category → Result ContractError (Option Category)
settle_category none none = ok none
settle_category none (some c) = err category_without_outcome
settle_category (some success) none = ok none
settle_category (some success) (some c) = err category_on_success
settle_category (some timed_out) none = ok (some timeout)
settle_category (some timed_out) (some c) =
    if is_timeout c then ok (some timeout) else err bad_timeout_category
settle_category (some failed) none = err missing_category
settle_category (some failed) (some c) = ok (some c)

-- `__post_init__`, with `bounded_diagnostic` as the argument `bound`.
unfoldable pub post_init : (String → String) → AdapterResult → Result ContractError AdapterResult
unfolding settle_category
post_init bound r = elim (settle_category r.outcome r.error_category) [
  | err e ↦ err e
  | ok c ↦ ok (record r { error_category = c; diagnostic = bound r.diagnostic })
]

-- `_status_for_result` of multinexus/agentd/worker.py
pub data JobStatus : Type 0 where
  done_status failed_status timed_out_status : JobStatus

unfoldable pub status_for_result : AdapterResult → JobStatus
status_for_result r = elim (effective_outcome r) [
  | timed_out ↦ timed_out_status
  | failed ↦ failed_status
  | success ↦ done_status
]
