-- ===== src/Usage/Budget.antt =====
-- The limit on the total cost in multinexus/usage.py: `_degrade_aggregate_cost`.
use multinexus.Base.{
  ℕ, zero, suc, ◌+◌, ◌≤◌, ◌≡◌, refl, Bool, false, Option, none, some, List, [], ◌∷◌, if◌then◌else◌,
  arith, leb, leb→lt, eqb, length, Bool-cases, Option-cases, inl, inr,
}
use multinexus.Usage.{UsageRecord, derive_completeness, numerics, max_cost_microusd}

cost_or_zero : Option ℕ → ℕ
cost_or_zero none = 0
cost_or_zero (some n) = n

unfoldable pub total_cost : List UsageRecord → ℕ
unfolding cost_or_zero
total_cost [] = 0
total_cost (r ∷ rs) = cost_or_zero r.provider_cost_microusd + total_cost rs

-- `heaviest["provider_cost_microusd"] = None`, and its completeness is derived again.
unfoldable pub without_cost : UsageRecord → UsageRecord
without_cost r =
    let cleared = record r { provider_cost_microusd = none } in
    record cleared { completeness = derive_completeness r.source (numerics cleared) }

-- The greatest of the known costs; `none` if none is known.
greater : ℕ → Option ℕ → Option ℕ
greater cost none = some cost
greater cost (some other) = if leb other cost then some cost else some other

unfoldable pub max_cost : List UsageRecord → Option ℕ
unfolding greater
max_cost [] = none
max_cost (r ∷ rs) =
    let rest = max_cost rs in
    elim r.provider_cost_microusd [ none ↦ rest | some cost ↦ greater cost rest ]

pub has_cost : ℕ → Option ℕ → Bool
has_cost cost none = false
has_cost cost (some n) = eqb n cost

-- `max(...)` is the first record of the greatest cost.
unfoldable pub clear_first : ℕ → List UsageRecord → List UsageRecord
unfolding has_cost
clear_first cost [] = []
clear_first cost (r ∷ rs) =
    let rest = clear_first cost rs in
    if has_cost cost r.provider_cost_microusd then without_cost r ∷ rs else r ∷ rest

unfoldable pub clear_heaviest : List UsageRecord → List UsageRecord
clear_heaviest rs = elim (max_cost rs) [ none ↦ rs | some cost ↦ clear_first cost rs ]

-- `while True:`, on fuel; `none` when it runs out.
unfoldable pub degrade_aggregate_cost : ℕ → List UsageRecord → Option (List UsageRecord)
degrade_aggregate_cost zero rs = none
degrade_aggregate_cost (suc fuel) rs =
    let rest = degrade_aggregate_cost fuel (clear_heaviest rs) in
    if leb (total_cost rs) max_cost_microusd then some rs else rest

pub known_costs : List UsageRecord → ℕ
known_costs [] = 0
known_costs (r ∷ rs) = elim r.provider_cost_microusd [
  | none ↦ known_costs rs
  | some n ↦ suc (known_costs rs)
]

greater-some : (cost : ℕ) (o : Option ℕ) → (m : ℕ) × (greater cost o ≡ some m)
unfolding greater
greater-some cost none = (cost, refl)
greater-some cost (some other) = elim (Bool-cases (leb other cost)) [
  | inl h ↦ (cost, ground arith)
  | inr h ↦ (other, ground arith)
]

-- What the record taken does to the count, with the greatest cost of the others at hand.
clear_first-known_costs :
    (rs : List UsageRecord) (cost : ℕ)
    → max_cost rs ≡ some cost
    → suc (known_costs (clear_first cost rs)) ≡ known_costs rs
unfolding max_cost known_costs clear_first greater has_cost without_cost
clear_first-known_costs [] cost h = cc
clear_first-known_costs (r ∷ rs) cost h = elim (Option-cases r.provider_cost_microusd) [
  | inl e ↦ ground (arith, clear_first-known_costs rs cost (ground arith))
  | inr (c, e) ↦ elim (Option-cases (max_cost rs)) [
    | inl f ↦ ground arith
    | inr (o, f) ↦ elim (Bool-cases (leb o c)) [
      | inl g ↦ ground arith
      | inr g ↦ ground (arith, leb→lt o c g, clear_first-known_costs rs cost (ground arith))
    ]
  ]
]

max_cost-none : (rs : List UsageRecord) → max_cost rs ≡ none → total_cost rs ≡ 0
unfolding max_cost total_cost cost_or_zero
max_cost-none [] h = refl
max_cost-none (r ∷ rs) h = elim (Option-cases r.provider_cost_microusd) [
  | inl e ↦ ground (arith, max_cost-none rs (ground arith))
  | inr (c, e) ↦ let (m, f) = greater-some c (max_cost rs) in absurd (ground arith)
]

-- Each round takes one cost away, if the total is too great.
pub clear_heaviest-known_costs :
    (rs : List UsageRecord)
    → leb (total_cost rs) max_cost_microusd ≡ false
    → suc (known_costs (clear_heaviest rs)) ≡ known_costs rs
clear_heaviest-known_costs rs h = elim (Option-cases (max_cost rs)) [
  | inl e ↦ absurd (omega (arith, max_cost-none rs e, leb→lt (total_cost rs) max_cost_microusd h))
  | inr (cost, e) ↦ unfold clear_heaviest in ground (arith, clear_first-known_costs rs cost e)
]

pub known_costs-bound : (rs : List UsageRecord) → known_costs rs ≤ length rs
unfolding known_costs
known_costs-bound [] = omega arith
known_costs-bound (r ∷ rs) = elim (Option-cases r.provider_cost_microusd) [
  | inl e ↦ ground (arith, known_costs-bound rs)
  | inr (c, e) ↦ ground (arith, known_costs-bound rs)
]
