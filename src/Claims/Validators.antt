-- ===== src/Claims/Validators.antt =====
-- The validators of the fields in multinexus/agentd/execution_context.py.
use multinexus.Base.{
  ◌==◌, ℕ, String, Bool, true, false, not, ◌&&◌, ◌||◌, Option, none, some, List, [], ◌∷◌, string_eq,
  if◌then◌else◌, leb, eqb, length, map,
}
use multinexus.Base.Text.{codes, strip, is_empty, is_digit, is_ascii_letter, same_codes}
use multinexus.Base.Value.{items_length, pos, Value, Items, nil, item, get, has_keys}
use Value.{null, boolean, int, float, text, array, object}
use multinexus.Base.Result.{Result, ok, err, ◌>>=◌, ◌>>◌, require}
use multinexus.Lease.{is_digest, end_of_text}
use multinexus.Lease.Resource.{split_slash}
use multinexus.Claims.{ClaimError, execution_context_error, LogHandle}

abbrev pub max_scope_len : ℕ
max_scope_len = 256

abbrev pub max_legacy_scopes : ℕ
max_legacy_scopes = 10

rest_of_class : (ℕ → Bool) → List ℕ → Bool
rest_of_class t [] = true
rest_of_class t (c ∷ cs) = let rest = rest_of_class t cs in (t c && rest) || end_of_text (c ∷ cs)

-- The pattern `^[...]+$` of a class of characters.
unfoldable pub is_of_class : (ℕ → Bool) → List ℕ → Bool
unfolding rest_of_class
is_of_class t [] = false
is_of_class t (c ∷ cs) = t c && rest_of_class t cs

unfoldable pub is_scope_char : ℕ → Bool
is_scope_char c =
    is_ascii_letter c
    || is_digit c
    || eqb c b'_'
    || eqb c b'.'
    || eqb c b':'
    || eqb c b'/'
    || eqb c b'-'

-- `_WINDOWS_ABS_RE`
unfoldable pub is_windows_absolute : List ℕ → Bool
is_windows_absolute (c ∷ d ∷ []) = eqb c b'\\' && eqb d b'\\'
is_windows_absolute (c ∷ d ∷ e ∷ cs) =
    (is_ascii_letter c && eqb d b':' && (eqb e b'\\' || eqb e b'/')) || (eqb c b'\\' && eqb d b'\\')
is_windows_absolute _ = false

-- `_isabs`
unfoldable pub is_absolute : List ℕ → Bool
is_absolute [] = false
is_absolute (c ∷ cs) = eqb c b'/' || is_windows_absolute (c ∷ cs)

-- `_has_traversal`
unfoldable pub has_traversal : List (List ℕ) → Bool
has_traversal [] = false
has_traversal (s ∷ ss) = same_codes s (codes "..") || same_codes s (codes ".") || has_traversal ss

-- `"\x00" in value or "\n" in value or "\r" in value`
unfoldable pub has_line_break : List ℕ → Bool
has_line_break [] = false
has_line_break (c ∷ cs) = eqb c 0 || eqb c 10 || eqb c 13 || has_line_break cs

-- `value.replace("\\", "/").split("/")`
unfoldable pub segments : List ℕ → List (List ℕ)
segments path = split_slash (map (λ c. if eqb c b'\\' then b'/' else c) path)

unfoldable pub is_authority_path : List ℕ → Bool
is_authority_path path =
    not (is_empty path)
    && not (has_line_break path)
    && is_absolute path
    && not (has_traversal (segments path))

unfoldable pub validate_path : Value → Result ClaimError String
validate_path (text s) = if is_authority_path (codes s) then ok s else err execution_context_error
validate_path _ = err execution_context_error

unfoldable pub validate_required_string : Value → Result ClaimError String
validate_required_string (text s) =
    if is_empty (codes s)
    then err execution_context_error
    else if is_empty (strip (codes s))
    then err execution_context_error
    else ok s
validate_required_string _ = err execution_context_error

-- `_is_nonempty_string` with `nullable=True`
unfoldable pub nullable_string : Value → Result ClaimError (Option String)
nullable_string null = ok none
nullable_string (text s) =
    if is_empty (strip (codes s)) then err execution_context_error else ok (some s)
nullable_string _ = err execution_context_error

unfoldable pub is_scope : List ℕ → Bool
is_scope s = leb (length s) max_scope_len && is_of_class is_scope_char s

unfoldable pub validate_scope : Value → Result ClaimError String
validate_scope (text s) = if is_scope (codes s) then ok s else err execution_context_error
validate_scope _ = err execution_context_error

unfoldable pub context_id_of : Value → Result ClaimError String
context_id_of (text s) = if is_digest (codes s) then ok s else err execution_context_error
context_id_of _ = err execution_context_error

-- `value == 1`; the values of a claim hold no `Decimal`.
unfoldable pub equals_one : Value → Bool
equals_one (int (pos n)) = eqb n 1
equals_one (boolean b) = b
equals_one (float s) = s == "1.0"
equals_one _ = false

unfoldable pub is_in : String → List String → Bool
is_in s [] = false
is_in s (t ∷ ts) = s == t || is_in s ts

-- The loop over `legacy_scope_ids`, with the scopes that it has `seen`.
unfoldable pub legacy_scopes : String → List String → Items → Result ClaimError (List String)
legacy_scopes primary seen nil = ok []
legacy_scopes primary seen (item v vs) = do
  scoped ← validate_scope v
  require (not (is_in scoped seen || scoped == primary)) execution_context_error
  rest ← legacy_scopes primary (scoped ∷ seen) vs
  ok (scoped ∷ rest)

unfoldable pub legacy_scope_ids_of : String → Value → Result ClaimError (List String)
legacy_scope_ids_of primary (array vs) = do
  require (leb (items_length vs) max_legacy_scopes) execution_context_error
  legacy_scopes primary [] vs
legacy_scope_ids_of primary _ = err execution_context_error

abbrev pub log_handle_keys : List String
log_handle_keys = "kind" ∷ "job_id" ∷ "logs_path" ∷ []

-- `value == s`
unfoldable pub is_text : String → Value → Bool
is_text s (text t) = t == s
is_text s _ = false

unfoldable pub nonempty : Value → Result ClaimError String
nonempty (text s) = if is_empty (codes s) then err execution_context_error else ok s
nonempty _ = err execution_context_error

unfoldable pub logs_path_of : Value → Result ClaimError (Option String)
logs_path_of null = ok none
logs_path_of v = do path ← validate_path v; ok (some path)

unfoldable pub validate_log_handle : String → Value → Result ClaimError LogHandle
unfolding nonempty
validate_log_handle expected (object ms) = do
  require (has_keys log_handle_keys ms) execution_context_error
  require (is_text "coordinate_job" (get "kind" ms)) execution_context_error
  job_id ← nonempty (get "job_id" ms)
  require (job_id == expected) execution_context_error
  logs_path ← logs_path_of (get "logs_path" ms)
  ok (record { job_id = job_id; logs_path = logs_path })
validate_log_handle expected _ = err execution_context_error
