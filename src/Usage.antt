-- ===== src/Usage.antt =====
-- The usage evidence of multinexus/usage.py: its records and the functions that normalize them.
use multinexus.Base.{
  ℕ, zero, suc, ◌+◌, ◌*◌, ◌-◌, ◌^◌, String, Bool, true, false, not, ◌&&◌, ◌||◌, Option, none, some,
  List, [], ◌∷◌, ◌++◌, if◌then◌else◌, ltb, leb, eqb, length, take, drop, all, map,
}
use multinexus.Base.Text.{codes, strip, is_empty, same_codes}
use multinexus.Base.Value.{
  ℤ, pos, negsuc, Decimal, finite, special, Value, Members, empty, member, get,
}
use Value.{boolean, int, decimal, text, object}
pub mod Cost
pub mod Budget
pub mod Degrade
pub mod Normalize
pub mod Models
pub mod Limits
mod Examples

abbrev pub max_records : ℕ
max_records = 8

abbrev pub max_token_value : ℕ
max_token_value = 9007199254740991

abbrev pub max_cost_microusd : ℕ
max_cost_microusd = 9223372036854775807

abbrev pub max_model_len : ℕ
max_model_len = 256

pub data Source : Type 0 where
  provider_reported unknown_source : Source

pub data Completeness : Type 0 where
  complete partial unknown : Completeness

pub record UsageRecord : Type 0 where
  pub provider : String
  pub model : Option String
  pub input_tokens : Option ℕ
  pub output_tokens : Option ℕ
  pub cache_read_tokens : Option ℕ
  pub cache_write_tokens : Option ℕ
  pub provider_cost_microusd : Option ℕ
  pub source : Source
  pub completeness : Completeness

-- `_valid_model_key` on the key of a `dict` that `json.loads` returns, which is a `str`.
unfoldable pub is_valid_model_key : String → Bool
is_valid_model_key key =
    same_codes (codes key) (strip (codes key))
    && not (is_empty (codes key))
    && leb (length (codes key)) max_model_len
    && all (λ c. leb 32 c) (codes key)

unfoldable pub to_token : Value → Option ℕ
to_token (int (pos n)) = if leb n max_token_value then some n else none
to_token _ = none

-- `int("".join(...) or "0")`
unfoldable pub number_from : ℕ → List ℕ → ℕ
number_from acc [] = acc
number_from acc (d ∷ ds) = number_from (acc * 10 + d) ds

pub replicate : ℕ → ℕ → List ℕ
replicate zero d = []
replicate (suc n) d = d ∷ replicate n d

unfoldable pub is_zeros : List ℕ → Bool
is_zeros digits = all (λ d. eqb d 0) digits

-- `value.adjusted() > _MAX_COST_USD_ADJUSTED`, where `adjusted` is the exponent of the first digit.
unfoldable pub is_adjusted_above : List ℕ → ℤ → Bool
is_adjusted_above digits (pos e) = ltb 13 (length digits + e)
is_adjusted_above digits (negsuc e) = ltb (14 + e) (length digits)

-- `exponent + _MICROUSD_SCALE`
unfoldable pub scale_exponent : ℤ → ℤ
scale_exponent (pos e) = pos (e + 6)
scale_exponent (negsuc e) = if leb e 5 then pos (5 - e) else negsuc (e - 6)

unfoldable pub micro_digits : List ℕ → ℤ → Option (List ℕ)
unfolding replicate
micro_digits digits (pos k) = some (digits ++ replicate k 0)
micro_digits digits (negsuc k) =
    let fractional_digits = suc k in
    if ltb (length digits) fractional_digits
    then none
    else if not (is_zeros (drop (length digits - fractional_digits) digits))
    then none
    else some (take (length digits - fractional_digits) digits)

pub bounded_cost : ℕ → Option ℕ
bounded_cost micro = if leb micro max_cost_microusd then some micro else none

unfoldable pub decimal_cost : Bool → List ℕ → ℤ → Option ℕ
unfolding bounded_cost
decimal_cost negative digits exponent =
    if negative && not (is_zeros digits)
    then none
    else if is_zeros digits
    then some 0
    else if is_adjusted_above digits exponent
    then none
    else elim (micro_digits digits (scale_exponent exponent)) [
      | none ↦ none
      | some micro ↦ bounded_cost (number_from 0 micro)
    ]

unfoldable pub to_cost_microusd : Value → Option ℕ
unfolding bounded_cost
to_cost_microusd (int (pos n)) = bounded_cost (n * 10 ^ 6)
to_cost_microusd (decimal (finite negative digits exponent)) = decimal_cost negative digits exponent
to_cost_microusd _ = none

is_known : Option ℕ → Bool
is_known none = false
is_known (some n) = true

unfoldable pub derive_completeness : Source → List (Option ℕ) → Completeness
unfolding is_known
derive_completeness source numerics = if all is_known numerics then complete else elim source [
  | provider_reported ↦ partial
  | unknown_source ↦ if all (λ n. not (is_known n)) numerics then unknown else partial
]

abbrev pub numerics : UsageRecord → List (Option ℕ)
numerics r =
    r.input_tokens ∷ r.output_tokens ∷ r.cache_read_tokens ∷ r.cache_write_tokens
    ∷ r.provider_cost_microusd ∷ []
