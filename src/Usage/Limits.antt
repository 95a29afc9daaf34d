-- ===== src/Usage/Limits.antt =====
-- The limits that the blocks of multinexus/usage.py keep.
use mathlib.Core.Path.{subst}
use multinexus.Base.{
  ℕ, zero, suc, ◌≤◌, ◌≡◌, refl, sym, ◌∙◌, String, true, Option, none, some, List, [], ◌∷◌, ◌⊎◌, inl,
  inr, arith, leb, leb→le, length, take, length-take, All, Bool-cases,
}
use multinexus.Base.Order.{codes_leb}
use multinexus.Base.Value.{pos, negsuc, Value, Members, empty, member, get}
use Value.{null, boolean, int, float, decimal, text, array, object}
use multinexus.Usage.{
  UsageRecord, max_records, max_token_value, max_cost_microusd, is_valid_model_key, to_token,
}
use Prim.Native.Nat.{min}
use multinexus.Base.{ap}
use multinexus.Usage.Models.{IsModelKey, Counts, valid-IsModelKey, records_of-Counts}
use multinexus.Usage.Budget.{total_cost}
use multinexus.Usage.Degrade.{IsLabelled, IsSameButCost, IsDegraded, degrade_aggregate_cost_lem}
use multinexus.Usage.Normalize.{
  members_of, reported, records_of, insert_by_model, sort_records, sort_key, bounded_block,
  normalize_usage_evidence,
}

IsToken : Option ℕ → Type 0
IsToken none = Unit
IsToken (some n) = n ≤ max_token_value

-- A record that Coordinate's validator accepts: a valid model, counts that fit, and its own label.
unfoldable pub IsAcceptable : UsageRecord → Type 0
unfolding IsToken
IsAcceptable r =
    IsToken r.input_tokens
    × IsToken r.output_tokens
    × IsToken r.cache_read_tokens
    × IsToken r.cache_write_tokens
    × ((model : String) × (r.model ≡ some model) × IsModelKey model)

to_token-IsToken : (v : Value) → IsToken (to_token v)
unfolding to_token IsToken
to_token-IsToken (int (pos n)) = elim (Bool-cases (leb n max_token_value)) [
  | inl h ↦ rw h (leb→le n max_token_value h)
  | inr h ↦ rw h tt
]
to_token-IsToken (int (negsuc n)) = tt
to_token-IsToken null = tt
to_token-IsToken (boolean b) = tt
to_token-IsToken (float s) = tt
to_token-IsToken (decimal d) = tt
to_token-IsToken (text s) = tt
to_token-IsToken (array vs) = tt
to_token-IsToken (object ms) = tt

unfoldable IsGood : UsageRecord → Type 0
IsGood r = IsLabelled r × IsAcceptable r

reported-IsGood :
    (provider model : String) (usage : Members)
    → is_valid_model_key model ≡ true
    → IsGood (reported provider model usage)
unfolding IsGood IsAcceptable IsLabelled reported
reported-IsGood provider model usage h = (
  refl,
  (
    to_token-IsToken (get "inputTokens" usage),
    to_token-IsToken (get "outputTokens" usage),
    to_token-IsToken (get "cacheReadInputTokens" usage),
    to_token-IsToken (get "cacheCreationInputTokens" usage),
    (model, refl, valid-IsModelKey model h),
  ),
)

records_of-IsGood : (provider : String) (ms : Members) → All IsGood (records_of provider ms)
unfolding records_of
records_of-IsGood provider empty = tt
records_of-IsGood provider (member key raw ms) =
    let rest = records_of-IsGood provider ms in
    elim (Bool-cases (is_valid_model_key key)) [
      | inl h ↦ rw h (reported-IsGood provider key (members_of raw) h, rest)
      | inr h ↦ rw h rest
    ]

insert_by_model-All :
    (r : UsageRecord) (rs : List UsageRecord)
    → IsGood r
    → All IsGood rs
    → All IsGood (insert_by_model r rs)
unfolding insert_by_model
insert_by_model-All r [] h hs = (h, tt)
insert_by_model-All r (s ∷ ss) h (g, gs) =
    let rest = insert_by_model-All r ss h gs in
    elim (Bool-cases (codes_leb (sort_key r) (sort_key s))) [
      | inl e ↦ rw e (h, (g, gs))
      | inr e ↦ rw e (g, rest)
    ]

sort_records-All : (rs : List UsageRecord) → All IsGood rs → All IsGood (sort_records rs)
unfolding sort_records
sort_records-All [] h = tt
sort_records-All (r ∷ rs) (h, hs) =
    insert_by_model-All r (sort_records rs) h (sort_records-All rs hs)

take-All : (n : ℕ) (rs : List UsageRecord) → All IsGood rs → All IsGood (take n rs)
take-All zero rs h = tt
take-All (suc n) [] h = tt
take-All (suc n) (r ∷ rs) (h, hs) = (h, take-All n rs hs)

good-IsLabelled : (rs : List UsageRecord) → All IsGood rs → All IsLabelled rs
unfolding IsGood
good-IsLabelled [] h = tt
good-IsLabelled (r ∷ rs) (h, hs) = (h.0, good-IsLabelled rs hs)

same-IsAcceptable : (r s : UsageRecord) → IsSameButCost r s → IsAcceptable r → IsAcceptable s
unfolding IsSameButCost IsAcceptable
same-IsAcceptable r s (p1, p2, p3, p4, p5, p6, p7, p8) (i, o, cr, cw, (model, e, valid)) = (
  subst IsToken (sym p3) i,
  subst IsToken (sym p4) o,
  subst IsToken (sym p5) cr,
  subst IsToken (sym p6) cw,
  (model, p2 ∙ e, valid),
)

degraded-IsAcceptable :
    (rs ss : List UsageRecord) → IsDegraded rs ss → All IsGood rs → All IsAcceptable ss
unfolding IsDegraded IsGood
degraded-IsAcceptable [] [] d h = tt
degraded-IsAcceptable [] (s ∷ ss) d h = absurd d
degraded-IsAcceptable (r ∷ rs) [] d h = absurd d
degraded-IsAcceptable (r ∷ rs) (s ∷ ss) (d, ds) (h, hs) =
    (same-IsAcceptable r s d h.1, degraded-IsAcceptable rs ss ds hs)

length-IsDegraded : (rs ss : List UsageRecord) → IsDegraded rs ss → length ss ≡ length rs
unfolding IsDegraded
length-IsDegraded [] [] d = refl
length-IsDegraded [] (s ∷ ss) d = absurd d
length-IsDegraded (r ∷ rs) [] d = absurd d
length-IsDegraded (r ∷ rs) (s ∷ ss) (d, ds) = omega (arith, length-IsDegraded rs ss ds)

length-insert_by_model :
    (r : UsageRecord) (rs : List UsageRecord) → length (insert_by_model r rs) ≡ suc (length rs)
unfolding insert_by_model
length-insert_by_model r [] = refl
length-insert_by_model r (s ∷ ss) = ground (arith, length-insert_by_model r ss)

length-sort_records : (rs : List UsageRecord) → length (sort_records rs) ≡ length rs
unfolding sort_records
length-sort_records [] = refl
length-sort_records (r ∷ rs) =
    omega (arith, length-insert_by_model r (sort_records rs), length-sort_records rs)

-- A block: between one and eight records, each acceptable and labelled by Coordinate's rule, with a
-- total cost that fits into a signed 64-bit integer.
unfoldable pub IsBlock : List UsageRecord → Type 0
IsBlock block =
    (1 ≤ length block)
    × (length block ≤ max_records)
    × (total_cost block ≤ max_cost_microusd)
    × All IsLabelled block
    × All IsAcceptable block

bounded_block-IsBlock :
    (rs : List UsageRecord)
    → All IsGood rs
    → ((rs ≡ []) × (bounded_block rs ≡ none))
      ⊎ ((block : List UsageRecord) × (bounded_block rs ≡ some block)
          × (1 ≤ length rs)
          × (length block ≡ min max_records (length rs))
          × IsBlock block)
unfolding bounded_block IsBlock
bounded_block-IsBlock [] h = inl (refl, refl)
bounded_block-IsBlock (r ∷ rs) h =
    let kept = take max_records (sort_records (r ∷ rs)) in
    let good = take-All max_records (sort_records (r ∷ rs)) (sort_records-All (r ∷ rs) h) in
    let (block, e, bound, degraded, labelled) =
      degrade_aggregate_cost_lem kept (good-IsLabelled kept good) in
    let n = length-IsDegraded kept block degraded in
    let t = length-take max_records (sort_records (r ∷ rs)) in
    let l = length-sort_records (r ∷ rs) in
    inr (
      block,
      e,
      omega arith,
      omega arith,
      (omega arith, omega arith, bound, labelled, degraded-IsAcceptable kept block degraded good),
    )

counted-IsBlock :
    (rs : List UsageRecord) (o : Option (List UsageRecord))
    → ((rs ≡ []) × (o ≡ none))
      ⊎ ((block : List UsageRecord) × (o ≡ some block)
          × (1 ≤ length rs)
          × (length block ≡ min max_records (length rs))
          × IsBlock block)
    → ((length rs ≡ 0) × (o ≡ none))
      ⊎ ((block : List UsageRecord) × (o ≡ some block)
          × (1 ≤ length rs)
          × (length block ≡ min max_records (length rs))
          × IsBlock block)
counted-IsBlock rs o (inl (e, f)) = inl (ap length e, f)
counted-IsBlock rs o (inr found) = inr found

-- For a `dict` in which `n` members have a valid model key, `normalize_usage_evidence` returns `None` if
-- `n` is 0, and else a block of `n` records, or of eight if `n` is greater, each labelled by the rule, with
-- a valid model and bounded counts, and with a total cost that fits into 64 bits. A key is valid if it is
-- not empty and has no white space at its ends, no control characters and at most 256 characters.
pub normalize-IsBlock :
    (provider : String) (ms : Members)
    → (n : ℕ) × Counts ms n
      × (((n ≡ 0) × (normalize_usage_evidence provider (object ms) ≡ none))
          ⊎ ((block : List UsageRecord) × (normalize_usage_evidence provider (object ms)
                ≡ some block)
              × (1 ≤ n)
              × (length block ≡ min max_records n)
              × IsBlock block))
unfolding normalize_usage_evidence
normalize-IsBlock provider ms =
    let rs = records_of provider ms in
    (
      length rs,
      records_of-Counts provider ms,
      counted-IsBlock rs (bounded_block rs)
          (bounded_block-IsBlock rs (records_of-IsGood provider ms)),
    )
