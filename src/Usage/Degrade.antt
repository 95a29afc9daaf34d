-- ===== src/Usage/Degrade.antt =====
-- What `_degrade_aggregate_cost` of multinexus/usage.py leaves of the records.
use multinexus.Base.{
  ℕ, zero, suc, ◌≤◌, ◌<◌, ◌≡◌, refl, true, false, none, some, List, [], ◌∷◌, ◌∙◌, ◌⊎◌, arith, leb,
  leb→le, length, All, Bool-cases, Option-cases, inl, inr,
}
use multinexus.Usage.{UsageRecord, derive_completeness, numerics, max_cost_microusd}
use multinexus.Usage.Budget.{
  total_cost, without_cost, max_cost, has_cost, clear_first, clear_heaviest, degrade_aggregate_cost,
  known_costs, clear_heaviest-known_costs, known_costs-bound,
}

-- The label that Coordinate derives again.
unfoldable pub IsLabelled : UsageRecord → Type 0
IsLabelled r = r.completeness ≡ derive_completeness r.source (numerics r)

unfoldable pub IsSameButCost : UsageRecord → UsageRecord → Type 0
IsSameButCost r r' =
    (r'.provider ≡ r.provider)
    × (r'.model ≡ r.model)
    × (r'.input_tokens ≡ r.input_tokens)
    × (r'.output_tokens ≡ r.output_tokens)
    × (r'.cache_read_tokens ≡ r.cache_read_tokens)
    × (r'.cache_write_tokens ≡ r.cache_write_tokens)
    × (r'.source ≡ r.source)
    × ((r'.provider_cost_microusd ≡ none) ⊎ (r'.provider_cost_microusd ≡ r.provider_cost_microusd))

-- Record by record, the same but for costs that are left out.
unfoldable pub IsDegraded : List UsageRecord → List UsageRecord → Type 0
IsDegraded [] [] = Unit
IsDegraded (r ∷ rs) (r' ∷ rs') = IsSameButCost r r' × IsDegraded rs rs'
IsDegraded _ _ = ⊥

IsSameButCost-refl : (r : UsageRecord) → IsSameButCost r r
unfolding IsSameButCost
IsSameButCost-refl r = (refl, refl, refl, refl, refl, refl, refl, inr refl)

IsSameButCost-trans :
    (a b c : UsageRecord) → IsSameButCost a b → IsSameButCost b c → IsSameButCost a c
unfolding IsSameButCost
IsSameButCost-trans a b c (p1, p2, p3, p4, p5, p6, p7, p8) (q1, q2, q3, q4, q5, q6, q7, q8) = (
  q1 ∙ p1,
  q2 ∙ p2,
  q3 ∙ p3,
  q4 ∙ p4,
  q5 ∙ p5,
  q6 ∙ p6,
  q7 ∙ p7,
  elim q8 [ inl e ↦ inl e | inr e ↦ elim p8 [ inl f ↦ inl (e ∙ f) | inr f ↦ inr (e ∙ f) ] ],
)

IsDegraded-refl : (rs : List UsageRecord) → IsDegraded rs rs
unfolding IsDegraded
IsDegraded-refl [] = tt
IsDegraded-refl (r ∷ rs) = (IsSameButCost-refl r, IsDegraded-refl rs)

IsDegraded-trans :
    (xs ys zs : List UsageRecord) → IsDegraded xs ys → IsDegraded ys zs → IsDegraded xs zs
unfolding IsDegraded
IsDegraded-trans [] [] [] d e = tt
IsDegraded-trans [] [] (z ∷ zs) d e = absurd e
IsDegraded-trans [] (y ∷ ys) zs d e = absurd d
IsDegraded-trans (x ∷ xs) [] zs d e = absurd d
IsDegraded-trans (x ∷ xs) (y ∷ ys) [] d e = absurd e
IsDegraded-trans (x ∷ xs) (y ∷ ys) (z ∷ zs) (d, ds) (e, es) =
    (IsSameButCost-trans x y z d e, IsDegraded-trans xs ys zs ds es)

without_cost-same : (r : UsageRecord) → IsSameButCost r (without_cost r)
unfolding IsSameButCost without_cost
without_cost-same r = (refl, refl, refl, refl, refl, refl, refl, inl refl)

without_cost-IsLabelled : (r : UsageRecord) → IsLabelled (without_cost r)
unfolding IsLabelled without_cost
without_cost-IsLabelled r = refl

clear_first_lem :
    (cost : ℕ) (rs : List UsageRecord)
    → IsDegraded rs (clear_first cost rs)
      × (All IsLabelled rs → All IsLabelled (clear_first cost rs))
unfolding IsDegraded clear_first
clear_first_lem cost [] = (tt, λ h. h)
clear_first_lem cost (r ∷ rs) =
    let (d, l) = clear_first_lem cost rs in
    elim (Bool-cases (has_cost cost r.provider_cost_microusd)) [
      | inl e ↦
          rw e ((without_cost-same r, IsDegraded-refl rs), λ h. (without_cost-IsLabelled r, h.1))
      | inr e ↦ rw e ((IsSameButCost-refl r, d), λ h. (h.0, l h.1))
    ]

clear_heaviest_lem :
    (rs : List UsageRecord)
    → IsDegraded rs (clear_heaviest rs) × (All IsLabelled rs → All IsLabelled (clear_heaviest rs))
unfolding clear_heaviest
clear_heaviest_lem rs = elim (Option-cases (max_cost rs)) [
  | inl e ↦ rw (e, clear_heaviest) (IsDegraded-refl rs, λ h. h)
  | inr (cost, e) ↦ rw (e, clear_heaviest) (clear_first_lem cost rs)
]

degrade-done :
    (fuel : ℕ) (rs : List UsageRecord)
    → leb (total_cost rs) max_cost_microusd ≡ true
    → degrade_aggregate_cost (suc fuel) rs ≡ some rs
unfolding degrade_aggregate_cost
degrade-done fuel rs h = rw h refl

degrade-again :
    (fuel : ℕ) (rs : List UsageRecord)
    → leb (total_cost rs) max_cost_microusd ≡ false
    → degrade_aggregate_cost (suc fuel) rs ≡ degrade_aggregate_cost fuel (clear_heaviest rs)
unfolding degrade_aggregate_cost
degrade-again fuel rs h = rw h refl

degrade-known_costs :
    (fuel : ℕ) (rs : List UsageRecord)
    → known_costs rs < fuel
    → (found : List UsageRecord) × (degrade_aggregate_cost fuel rs ≡ some found)
      × (total_cost found ≤ max_cost_microusd)
      × IsDegraded rs found
      × (All IsLabelled rs → All IsLabelled found)
degrade-known_costs zero rs h = absurd (omega arith)
degrade-known_costs (suc fuel) rs h = elim (Bool-cases (leb (total_cost rs) max_cost_microusd)) [
  | inl fits ↦ (
    rs,
    degrade-done fuel rs fits,
    leb→le (total_cost rs) max_cost_microusd fits,
    IsDegraded-refl rs,
    (λ l. l),
  )
  | inr over ↦
      let (found, e, bound, degraded, labelled) =
        degrade-known_costs fuel (clear_heaviest rs)
          (omega (arith, clear_heaviest-known_costs rs over)) in
      let (d, l) = clear_heaviest_lem rs in
      (
        found,
        degrade-again fuel rs over ∙ e,
        bound,
        IsDegraded-trans rs (clear_heaviest rs) found d degraded,
        (λ g. labelled (l g)),
      )
]

-- On records that are labelled by Coordinate's rule, `_degrade_aggregate_cost` ends after at most one
-- round for each record and one more; what it leaves differs from its argument only in costs that are
-- now unknown, has a total that fits into a signed 64-bit integer, and is labelled by the rule again.
pub degrade_aggregate_cost_lem :
    (rs : List UsageRecord)
    → All IsLabelled rs
    → (found : List UsageRecord) × (degrade_aggregate_cost (suc (length rs)) rs ≡ some found)
      × (total_cost found ≤ max_cost_microusd)
      × IsDegraded rs found
      × All IsLabelled found
degrade_aggregate_cost_lem rs labels =
    let (found, e, bound, degraded, labelled) =
      degrade-known_costs (suc (length rs)) rs (omega (arith, known_costs-bound rs)) in
    (found, e, bound, degraded, labelled labels)
