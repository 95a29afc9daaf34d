-- ===== src/Adapters/Settlement.antt =====
-- What `__post_init__` and `effective_outcome` of multinexus/adapters/base.py promise.
use multinexus.Base.{◌∙◌, String, ◌≡◌, Option, none, some, arith}
use multinexus.Base.Result.{ok}
use multinexus.Adapters.{
  Outcome, success, failed, timed_out, Category, timeout, AdapterResult, effective_outcome,
  post_init, settle_category,
}

-- What the constructor changes.
post_init_shape :
    (bound : String → String) (r r' : AdapterResult)
    → post_init bound r ≡ ok r'
    → (r'.outcome ≡ r.outcome) × (settle_category r.outcome r.error_category ≡ ok r'.error_category)
unfolding post_init
post_init_shape bound r r' h = ground arith

effective_outcome-explicit :
    (r : AdapterResult) (o : Outcome) → r.outcome ≡ some o → effective_outcome r ≡ o
unfolding effective_outcome
effective_outcome-explicit r o e = rw e

-- The categories that go with an outcome.
unfoldable pub FitsOutcome : Outcome → Option Category → Type 0
FitsOutcome success category = category ≡ none
FitsOutcome failed category = (c : Category) × (category ≡ some c)
FitsOutcome timed_out category = category ≡ some timeout

settle_category-FitsOutcome :
    (o : Outcome) (given settled : Option Category)
    → settle_category (some o) given ≡ ok settled
    → FitsOutcome o settled
unfolding settle_category FitsOutcome
settle_category-FitsOutcome success given settled h = ground arith
settle_category-FitsOutcome failed none settled h = ground arith
settle_category-FitsOutcome failed (some c) settled h = (c, ground arith)
settle_category-FitsOutcome timed_out none settled h = ground arith
settle_category-FitsOutcome timed_out (some c) settled h = ground arith

-- A result that the constructor lets through and that carries an outcome is settled by it alone,
-- whatever its text is; it has no category if the outcome is a success, some category if it is a
-- failure, and the category `timeout` if it timed out.
pub post_init_lem :
    (bound : String → String) (r r' : AdapterResult) (o : Outcome)
    → post_init bound r ≡ ok r'
    → r.outcome ≡ some o
    → (effective_outcome r' ≡ o) × FitsOutcome o r'.error_category
post_init_lem bound r r' o h e =
    let (kept, settled) = post_init_shape bound r r' h in
    (
      effective_outcome-explicit r' o (kept ∙ e),
      settle_category-FitsOutcome o r.error_category r'.error_category (rw e at settled),
    )
