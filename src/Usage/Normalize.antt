-- ===== src/Usage/Normalize.antt =====
-- `normalize_usage_evidence` of multinexus/usage.py and the limits that its block keeps.
use multinexus.Base.{
  ℕ, suc, String, not, Option, none, some, List, [], ◌∷◌, if◌then◌else◌, length, take,
}
use multinexus.Base.Order.{codes_leb}
use multinexus.Base.Text.{codes}
use multinexus.Base.Value.{Value, Members, empty, member, get}
use Value.{object}
use multinexus.Usage.{
  UsageRecord, provider_reported, unknown_source, derive_completeness, max_records,
  is_valid_model_key, to_token, to_cost_microusd,
}
use multinexus.Usage.Budget.{degrade_aggregate_cost}

-- `raw if isinstance(raw, dict) else {}`
pub members_of : Value → Members
members_of (object ms) = ms
members_of _ = empty

unfoldable pub reported : String → String → Members → UsageRecord
reported provider model usage =
    let input_tokens = to_token (get "inputTokens" usage) in
    let output_tokens = to_token (get "outputTokens" usage) in
    let cache_read = to_token (get "cacheReadInputTokens" usage) in
    let cache_write = to_token (get "cacheCreationInputTokens" usage) in
    let cost = to_cost_microusd (get "costUSD" usage) in
    record {
      provider = provider;
      model = some model;
      input_tokens = input_tokens;
      output_tokens = output_tokens;
      cache_read_tokens = cache_read;
      cache_write_tokens = cache_write;
      provider_cost_microusd = cost;
      source = provider_reported;
      completeness =
          derive_completeness provider_reported
            (input_tokens ∷ output_tokens ∷ cache_read ∷ cache_write ∷ cost ∷ []);
    }

-- `for model_key, raw in model_usage.items():`; a record of an invalid key is left out.
unfoldable pub records_of : String → Members → List UsageRecord
unfolding members_of
records_of provider empty = []
records_of provider (member model_key raw ms) =
    let rest = records_of provider ms in
    if not (is_valid_model_key model_key)
    then rest
    else reported provider model_key (members_of raw) ∷ rest

-- `r["model"] or ""`; the provider is the same for all records.
pub sort_key : UsageRecord → List ℕ
sort_key r = elim r.model [ none ↦ [] | some model ↦ codes model ]

unfoldable pub insert_by_model : UsageRecord → List UsageRecord → List UsageRecord
unfolding sort_key
insert_by_model r [] = r ∷ []
insert_by_model r (s ∷ ss) =
    let rest = insert_by_model r ss in
    if codes_leb (sort_key r) (sort_key s) then r ∷ s ∷ ss else s ∷ rest

-- `records.sort(key=...)`, which is stable.
unfoldable pub sort_records : List UsageRecord → List UsageRecord
sort_records [] = []
sort_records (r ∷ rs) = insert_by_model r (sort_records rs)

unfoldable pub bounded_block : List UsageRecord → Option (List UsageRecord)
bounded_block [] = none
bounded_block (r ∷ rs) =
    let kept = take max_records (sort_records (r ∷ rs)) in
    degrade_aggregate_cost (suc (length kept)) kept

-- The records of the block, `none` where the function returns `None`.
unfoldable pub normalize_usage_evidence : String → Value → Option (List UsageRecord)
normalize_usage_evidence provider (object model_usage) =
    bounded_block (records_of provider model_usage)
normalize_usage_evidence provider _ = none

unfoldable pub unknown_usage_evidence : String → List UsageRecord
unknown_usage_evidence provider =
    record {
      provider = provider;
      model = none;
      input_tokens = none;
      output_tokens = none;
      cache_read_tokens = none;
      cache_write_tokens = none;
      provider_cost_microusd = none;
      source = unknown_source;
      completeness = derive_completeness unknown_source (none ∷ none ∷ none ∷ none ∷ none ∷ []);
    }
    ∷ []
