-- ===== src/Claims/Fields.antt =====
-- What the validators of multinexus/agentd/execution_context.py accept: the value itself, with its
-- properties.
use mathlib.Core.Path.{subst}
use mathlib.Core.Option.{some-injective}
use multinexus.Base.{
  ◌≢◌, suc, ◌≤◌, ◌≡◌, ap, refl, String, true, false, not, ◌||◌, Option, none, some, List, [], ◌∷◌,
  ◌==◌, string_eq, ==_iff, arith, leb, length,
}
use multinexus.Base.Text.{codes}
use multinexus.Base.Value.{items_length, Value, Items, nil, item, Members, get, has_keys}
use Value.{null, boolean, int, float, decimal, text, array, object}
use multinexus.Base.Result.{ok, ◌>>=◌, after_bind, after_require, ok-injective}
use multinexus.Claims.{LogHandle}
use multinexus.Claims.Validators.{
  validate_required_string, validate_path, validate_scope, nullable_string, legacy_scope_ids_of,
  legacy_scopes, validate_log_handle, logs_path_of, is_authority_path, is_scope, is_in, is_text,
  max_legacy_scopes, log_handle_keys, nonempty, context_id_of,
}

-- What each validator accepts is the text itself.
pub validate_path-eq-ok :
    (v : Value) (s : String)
    → validate_path v ≡ ok s
    → (v ≡ text s) × (is_authority_path (codes s) ≡ true)
unfolding validate_path
validate_path-eq-ok (text t) s h = ground arith
validate_path-eq-ok null s h = cc
validate_path-eq-ok (boolean b) s h = cc
validate_path-eq-ok (int n) s h = cc
validate_path-eq-ok (float t) s h = cc
validate_path-eq-ok (decimal d) s h = cc
validate_path-eq-ok (array vs) s h = cc
validate_path-eq-ok (object ms) s h = cc

pub validate_scope-eq-ok :
    (v : Value) (s : String) → validate_scope v ≡ ok s → (v ≡ text s) × (is_scope (codes s) ≡ true)
unfolding validate_scope
validate_scope-eq-ok (text t) s h = ground arith
validate_scope-eq-ok null s h = cc
validate_scope-eq-ok (boolean b) s h = cc
validate_scope-eq-ok (int n) s h = cc
validate_scope-eq-ok (float t) s h = cc
validate_scope-eq-ok (decimal d) s h = cc
validate_scope-eq-ok (array vs) s h = cc
validate_scope-eq-ok (object ms) s h = cc

pub validate_required_string-eq-ok :
    (v : Value) (s : String) → validate_required_string v ≡ ok s → v ≡ text s
unfolding validate_required_string
validate_required_string-eq-ok (text t) s h = ground arith
validate_required_string-eq-ok null s h = cc
validate_required_string-eq-ok (boolean b) s h = cc
validate_required_string-eq-ok (int n) s h = cc
validate_required_string-eq-ok (float t) s h = cc
validate_required_string-eq-ok (decimal d) s h = cc
validate_required_string-eq-ok (array vs) s h = cc
validate_required_string-eq-ok (object ms) s h = cc

pub context_id_of-eq-ok : (v : Value) (s : String) → context_id_of v ≡ ok s → v ≡ text s
unfolding context_id_of
context_id_of-eq-ok (text t) s h = ground arith
context_id_of-eq-ok null s h = cc
context_id_of-eq-ok (boolean b) s h = cc
context_id_of-eq-ok (int n) s h = cc
context_id_of-eq-ok (float t) s h = cc
context_id_of-eq-ok (decimal d) s h = cc
context_id_of-eq-ok (array vs) s h = cc
context_id_of-eq-ok (object ms) s h = cc

-- A nullable field as a value.
unfoldable pub nullable_value : Option String → Value
nullable_value none = null
nullable_value (some s) = text s

pub nullable_string-eq-ok :
    (v : Value) (o : Option String) → nullable_string v ≡ ok o → v ≡ nullable_value o
unfolding nullable_string nullable_value
nullable_string-eq-ok null none h = refl
nullable_string-eq-ok null (some s) h = cc
nullable_string-eq-ok (text t) none h = ground arith
nullable_string-eq-ok (text t) (some s) h = ground arith
nullable_string-eq-ok (boolean b) o h = cc
nullable_string-eq-ok (int n) o h = cc
nullable_string-eq-ok (float t) o h = cc
nullable_string-eq-ok (decimal d) o h = cc
nullable_string-eq-ok (array vs) o h = cc
nullable_string-eq-ok (object ms) o h = cc

-- The scopes are safe labels, distinct from the primary scope, from those seen before and from each
-- other.
unfoldable pub AreFresh : String → List String → List String → Type 0
AreFresh primary seen [] = Unit
AreFresh primary seen (s ∷ ss) =
    (is_scope (codes s) ≡ true)
    × (is_in s seen ≡ false)
    × (s ≢ primary)
    × AreFresh primary (s ∷ seen) ss

unfoldable pub scopes_value : List String → Items
scopes_value [] = nil
scopes_value (s ∷ ss) = item (text s) (scopes_value ss)

pub legacy_scopes-AreFresh :
    (primary : String) (seen : List String) (vs : Items) (ss : List String)
    → legacy_scopes primary seen vs ≡ ok ss
    → (vs ≡ scopes_value ss) × (items_length vs ≡ length ss) × AreFresh primary seen ss
unfolding legacy_scopes AreFresh scopes_value items_length
legacy_scopes-AreFresh primary seen nil [] h = (refl, refl, tt)
legacy_scopes-AreFresh primary seen nil (s ∷ ss) h = cc
legacy_scopes-AreFresh primary seen (item v vs) ss h =
    after_bind (validate_scope v) _ h λ scoped e1 h1.
      after_require (not (is_in scoped seen || scoped == primary)) _ _ h1 λ e2 h2.
        after_bind (legacy_scopes primary (scoped ∷ seen) vs) _ h2 λ rest e3 h3.
          step scoped rest ss (validate_scope-eq-ok v scoped e1) e2
            (legacy_scopes-AreFresh primary (scoped ∷ seen) vs rest e3) (cc)
  where
    fresh :
        (s : String)
        → not (is_in s seen || s == primary) ≡ true
        → (is_in s seen ≡ false) × (s ≢ primary)
    fresh s e = (ground arith, λ same. absurd (ground (arith, (==_iff s primary).1 same)))

    step :
        (s : String) (rest all : List String)
        → (v ≡ text s) × (is_scope (codes s) ≡ true)
        → not (is_in s seen || s == primary) ≡ true
        → (vs ≡ scopes_value rest)
          × (items_length vs ≡ length rest)
          × AreFresh primary (s ∷ seen) rest
        → (s ∷ rest) ≡ all
        → (item v vs ≡ scopes_value all)
          × (suc (items_length vs) ≡ length all)
          × AreFresh primary seen all
    step s rest all safe e tail same =
        subst
          (λ r.
            (item v vs ≡ scopes_value r)
            × (suc (items_length vs) ≡ length r)
            × AreFresh primary seen r)
          same (cc, ap suc tail.1, (safe.1, (fresh s e).0, (fresh s e).1, tail.2))

pub legacy_scope_ids_of-AreFresh :
    (primary : String) (v : Value) (ss : List String)
    → legacy_scope_ids_of primary v ≡ ok ss
    → (v ≡ array (scopes_value ss)) × (length ss ≤ 10) × AreFresh primary [] ss
unfolding legacy_scope_ids_of
legacy_scope_ids_of-AreFresh primary (array vs) ss h =
    after_require (leb (items_length vs) max_legacy_scopes) _ _ h λ e1 h1.
      let found = legacy_scopes-AreFresh primary [] vs ss h1 in
      (ap array found.0, omega (arith, found.1, bound e1), found.2)
  where
    bound : leb (items_length vs) 10 ≡ true → items_length vs ≤ 10
    bound e = ground arith
legacy_scope_ids_of-AreFresh primary null ss h = cc
legacy_scope_ids_of-AreFresh primary (boolean b) ss h = cc
legacy_scope_ids_of-AreFresh primary (int n) ss h = cc
legacy_scope_ids_of-AreFresh primary (float t) ss h = cc
legacy_scope_ids_of-AreFresh primary (decimal d) ss h = cc
legacy_scope_ids_of-AreFresh primary (text t) ss h = cc
legacy_scope_ids_of-AreFresh primary (object ms) ss h = cc

-- A path that is given has an authority path as its text.
unfoldable pub IsLogsPath : Option String → Type 0
IsLogsPath none = Unit
IsLogsPath (some s) = is_authority_path (codes s) ≡ true

some_path :
    (v : Value) (o : Option String)
    → (validate_path v >>= λ path. ok (some path)) ≡ ok o
    → (v ≡ nullable_value o) × IsLogsPath o
unfolding nullable_value IsLogsPath
some_path v none h = after_bind (validate_path v) _ h λ path e h1. cc
some_path v (some s) h = after_bind (validate_path v) _ h λ path e h1.
    let found = validate_path-eq-ok v path e in
    subst (λ r. (v ≡ text r) × (is_authority_path (codes r) ≡ true))
      (some-injective _ _ (ok-injective _ _ _ refl h1)) found

pub logs_path_of-eq-ok :
    (v : Value) (o : Option String) → logs_path_of v ≡ ok o → (v ≡ nullable_value o) × IsLogsPath o
unfolding logs_path_of
logs_path_of-eq-ok null none h = (unfold nullable_value IsLogsPath in (refl, tt))
logs_path_of-eq-ok null (some s) h = cc
logs_path_of-eq-ok (boolean b) o h = some_path _ o h
logs_path_of-eq-ok (int n) o h = some_path _ o h
logs_path_of-eq-ok (float t) o h = some_path _ o h
logs_path_of-eq-ok (decimal d) o h = some_path _ o h
logs_path_of-eq-ok (text t) o h = some_path _ o h
logs_path_of-eq-ok (array vs) o h = some_path _ o h
logs_path_of-eq-ok (object ms) o h = some_path _ o h

pub nonempty-eq-ok : (v : Value) (s : String) → nonempty v ≡ ok s → v ≡ text s
unfolding nonempty
nonempty-eq-ok (text t) s h = ground arith
nonempty-eq-ok null s h = cc
nonempty-eq-ok (boolean b) s h = cc
nonempty-eq-ok (int n) s h = cc
nonempty-eq-ok (float t) s h = cc
nonempty-eq-ok (decimal d) s h = cc
nonempty-eq-ok (array vs) s h = cc
nonempty-eq-ok (object ms) s h = cc

-- The log handle as the fields of its value.
unfoldable pub IsLogHandle : String → Value → LogHandle → Type 0
IsLogHandle job v l =
    (ms : Members) × (v ≡ object ms)
    × (nonempty (get "job_id" ms) ≡ ok l.job_id)
    × (l.job_id ≡ job)
    × (logs_path_of (get "logs_path" ms) ≡ ok l.logs_path)

pub validate_log_handle-IsLogHandle :
    (job : String) (v : Value) (l : LogHandle)
    → validate_log_handle job v ≡ ok l
    → IsLogHandle job v l
unfolding validate_log_handle
validate_log_handle-IsLogHandle job (object ms) l h =
    after_require (has_keys log_handle_keys ms) _ _ h λ e1 h1.
      after_require (is_text "coordinate_job" (get "kind" ms)) _ _ h1 λ e2 h2.
        after_bind (nonempty (get "job_id" ms)) _ h2 λ id e3 h3.
          after_require (id == job) _ _ h3 λ e4 h4.
            after_bind (logs_path_of (get "logs_path" ms)) _ h4 λ path e5 h5.
              subst (IsLogHandle job (object ms)) (ok-injective _ _ _ refl h5)
                (unfold IsLogHandle in (ms, refl, e3, (==_iff id job).0 e4, e5))
validate_log_handle-IsLogHandle job null l h = cc
validate_log_handle-IsLogHandle job (boolean b) l h = cc
validate_log_handle-IsLogHandle job (int n) l h = cc
validate_log_handle-IsLogHandle job (float t) l h = cc
validate_log_handle-IsLogHandle job (decimal d) l h = cc
validate_log_handle-IsLogHandle job (text t) l h = cc
validate_log_handle-IsLogHandle job (array vs) l h = cc
