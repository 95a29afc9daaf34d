-- ===== src/Adapters/Examples.antt =====
-- Results of multinexus/adapters/base.py, and the theorem on their settlement applied to one.
use multinexus.Base.{◌≡◌, refl, true, false, none, some}
use multinexus.Base.Text.{strip}
use multinexus.Base.Result.{ok}
use multinexus.Adapters.{
  timed_out, timeout, AdapterResult, post_init, is_error_text, has_any_prefix,
}

abbrev slow_result : AdapterResult
slow_result = record {
  text = "done";
  session_id = some "s1";
  resumed = false;
  has_timeout_metadata = false;
  outcome = some timed_out;
  error_category = none;
  diagnostic = "";
}

abbrev settled : AdapterResult
settled = record slow_result { error_category = some timeout }

slow_result_settles : post_init (λ d. d) slow_result ≡ ok settled
unfolding post_init
slow_result_settles = refl

sentinel_is_error : is_error_text "  (no response)\n" ≡ true
unfolding is_error_text strip has_any_prefix
sentinel_is_error = refl

sentinel_prefix_is_no_error : is_error_text "(no response) but text" ≡ false
unfolding is_error_text strip has_any_prefix
sentinel_prefix_is_no_error = refl
