-- ===== src/Usage/Examples.antt =====
-- Concrete usage evidence through multinexus/usage.py.
use multinexus.Base.{suc, ◌≤◌, ◌≡◌, refl, false, none, some, List, [], ◌∷◌, ◌⊎◌, length, All}
use multinexus.Base.Value.{pos, negsuc, finite, Value, Members, empty, member}
use Value.{int, decimal, object}
use multinexus.Usage.{
  UsageRecord, max_cost_microusd, number_from, is_zeros, is_adjusted_above, scale_exponent,
  micro_digits, decimal_cost, to_cost_microusd,
}
use Prim.Native.Nat.{min}
use multinexus.Base.{ℕ}
use multinexus.Usage.{max_records}
use multinexus.Usage.Models.{Counts}
use multinexus.Usage.Cost.{IsAmount, to_cost_microusd-IsAmount}
use multinexus.Usage.Budget.{total_cost, degrade_aggregate_cost}
use multinexus.Usage.Degrade.{IsLabelled, IsDegraded, degrade_aggregate_cost_lem}
use multinexus.Usage.Normalize.{normalize_usage_evidence, unknown_usage_evidence, reported}
use multinexus.Usage.Limits.{IsBlock, normalize-IsBlock}

-- `Decimal("0.125")`
abbrev one_eighth : Value
one_eighth = decimal (finite false (1 ∷ 2 ∷ 5 ∷ []) (negsuc 2))

one_eighth_cost : to_cost_microusd one_eighth ≡ some 125000
unfolding to_cost_microusd decimal_cost is_zeros is_adjusted_above scale_exponent micro_digits
    number_from
one_eighth_cost = refl

to_cost_microusd-IsAmount_example : IsAmount one_eighth 125000 × (125000 ≤ max_cost_microusd)
to_cost_microusd-IsAmount_example = to_cost_microusd-IsAmount one_eighth 125000 one_eighth_cost

abbrev model_usage : Members
model_usage =
    member "lite"
      (object
        (member "inputTokens" (int (pos 12)) (member "costUSD" (int (pos 9223372036854)) empty)))
      (member "ultra" (object (member "costUSD" (int (pos 9223372036854)) empty)) empty)

abbrev two_records : List UsageRecord
two_records =
    reported "qoder" "lite" (member "costUSD" (int (pos 9223372036854)) empty)
    ∷ reported "qoder" "ultra" (member "costUSD" (int (pos 2)) empty)
    ∷ []

two_labels : All IsLabelled two_records
unfolding IsLabelled reported
two_labels = (refl, (refl, tt))

degrade_aggregate_cost_lem_example :
    (found : List UsageRecord) × (degrade_aggregate_cost (suc (length two_records)) two_records
      ≡ some found)
    × (total_cost found ≤ max_cost_microusd)
    × IsDegraded two_records found
    × All IsLabelled found
degrade_aggregate_cost_lem_example = degrade_aggregate_cost_lem two_records two_labels

normalize-IsBlock_example :
    (n : ℕ) × Counts model_usage n
    × (((n ≡ 0) × (normalize_usage_evidence "qoder" (object model_usage) ≡ none))
        ⊎ ((block : List UsageRecord) × (normalize_usage_evidence "qoder" (object model_usage)
              ≡ some block)
            × (1 ≤ n)
            × (length block ≡ min max_records n)
            × IsBlock block))
normalize-IsBlock_example = normalize-IsBlock "qoder" model_usage

unknown_label : All IsLabelled (unknown_usage_evidence "zcode")
unfolding unknown_usage_evidence IsLabelled
unknown_label = (refl, tt)
