-- ===== src/Claims/Accepted.antt =====
-- What `parse_execution_context` of multinexus/agentd/execution_context.py accepts: the fields that were
-- read, and the identity of a context by its digest.
use mathlib.Core.Path.{subst, sym}
use multinexus.Base.{ℕ, ◌≡◌, ap, ◌∙◌, refl, true, List, [], ◌∷◌, ◌++◌, string_eq}
use multinexus.Base.Text.{codes, same_codes, same_codes-eq}
use multinexus.Base.Value.{Value, Members, get, has_keys}
use Value.{null, boolean, int, float, decimal, text, array, object}
use multinexus.Base.Json.{dumps}
use multinexus.Base.Json.Injective.{dumps-injective}
use multinexus.Base.Result.{ok, after_bind, after_require}
use multinexus.Lease.{Platform}
use multinexus.Claims.{ExecutionContext}
use multinexus.Claims.Snapshot.{
  compute_context_id, canonical_snapshot_dict, canonical_snapshot_dict-injective,
}
use multinexus.Claims.Validators.{
  context_id_of, validate_required_string, validate_path, validate_scope, nullable_string,
  legacy_scope_ids_of, validate_log_handle, equals_one,
}
use multinexus.Claims.Parse.{
  ExpectedIdentity, agrees_expected, check_identity, parse_context_fields, parse_execution_context,
  snapshot_keys,
}

-- Each field that was read, under the validator of its key.
unfoldable pub ContextFields : Members → ExecutionContext → Type 0
ContextFields ms c =
    (context_id_of (get "context_id" ms) ≡ ok c.context_id)
    × (validate_required_string (get "job_id" ms) ≡ ok c.job_id)
    × (validate_required_string (get "workspace_id" ms) ≡ ok c.workspace_id)
    × (validate_required_string (get "assigned_agent" ms) ≡ ok c.assigned_agent)
    × (validate_required_string (get "host_id" ms) ≡ ok c.host_id)
    × (validate_path (get "workspace_path" ms) ≡ ok c.workspace_path)
    × (validate_path (get "worktree_path" ms) ≡ ok c.worktree_path)
    × (validate_path (get "harness_root" ms) ≡ ok c.harness_root)
    × (validate_scope (get "session_scope_id" ms) ≡ ok c.session_scope_id)
    × (nullable_string (get "branch" ms) ≡ ok c.branch)
    × (nullable_string (get "task_id" ms) ≡ ok c.task_id)
    × (legacy_scope_ids_of c.session_scope_id (get "legacy_scope_ids" ms) ≡ ok c.legacy_scope_ids)
    × (validate_log_handle c.job_id (get "log_handle" ms) ≡ ok c.log_handle)

-- The digest is the identifier, and the identity is the expected one.
unfoldable pub IsIdentified : Platform → ExpectedIdentity → ExecutionContext → Type 0
IsIdentified p x c =
    (compute_context_id p c ≡ codes c.context_id)
    × (agrees_expected x.job_id c.job_id ≡ true)
    × (agrees_expected x.workspace_id c.workspace_id ≡ true)
    × (agrees_expected x.assigned_agent c.assigned_agent ≡ true)

check_identity-inversion :
    (p : Platform) (x : ExpectedIdentity) (c d : ExecutionContext)
    → check_identity p x c ≡ ok d
    → (c ≡ d) × IsIdentified p x c
unfolding check_identity IsIdentified
check_identity-inversion p x c d h =
    after_require (same_codes (compute_context_id p c) (codes c.context_id)) _ _ h λ e1 h1.
      after_require (agrees_expected x.job_id c.job_id) _ _ h1 λ e2 h2.
        after_require (agrees_expected x.workspace_id c.workspace_id) _ _ h2 λ e3 h3.
          after_require (agrees_expected x.assigned_agent c.assigned_agent) _ _ h3
            λ e4 h4. (cc, (same_codes-eq _ _ e1, e2, e3, e4))

unfoldable pub IsRead : Platform → ExpectedIdentity → Members → ExecutionContext → Type 0
IsRead p x ms c = ContextFields ms c × IsIdentified p x c

transported :
    (p : Platform) (x : ExpectedIdentity) (ms : Members) (c d : ExecutionContext)
    → ContextFields ms c
    → (c ≡ d) × IsIdentified p x c
    → IsRead p x ms d
unfolding IsRead
transported p x ms c d f g = subst (λ e. ContextFields ms e × IsIdentified p x e) g.0 (f, g.1)

pub parse_context_fields-IsRead :
    (p : Platform) (x : ExpectedIdentity) (ms : Members) (c : ExecutionContext)
    → parse_context_fields p x ms ≡ ok c
    → IsRead p x ms c
unfolding parse_context_fields ContextFields
parse_context_fields-IsRead p x ms c h =
    after_bind (context_id_of (get "context_id" ms)) _ h λ id e1 h1.
      after_bind (validate_required_string (get "job_id" ms)) _ h1 λ job e2 h2.
        after_bind (validate_required_string (get "workspace_id" ms)) _ h2 λ workspace e3 h3.
          after_bind (validate_required_string (get "assigned_agent" ms)) _ h3 λ agent e4 h4.
            after_bind (validate_required_string (get "host_id" ms)) _ h4 λ host e5 h5.
              after_bind (validate_path (get "workspace_path" ms)) _ h5 λ directory e6 h6.
                after_bind (validate_path (get "worktree_path" ms)) _ h6 λ worktree e7 h7.
                  after_bind (validate_path (get "harness_root" ms)) _ h7 λ root e8 h8.
                    after_bind (validate_scope (get "session_scope_id" ms)) _ h8 λ scope e9 h9.
                      after_bind (nullable_string (get "branch" ms)) _ h9 λ branch e10 h10.
                        after_bind (nullable_string (get "task_id" ms)) _ h10 λ task e11 h11.
                          after_bind (legacy_scope_ids_of scope (get "legacy_scope_ids" ms)) _ h11
                            λ legacy e12 h12.
                              after_bind (validate_log_handle job (get "log_handle" ms)) _ h12
                                λ log e13 h13.
                                  transported p x ms _ c
                                    ((e1, e2, e3, e4, e5, e6, e7, e8, e9, e10, e11, e12, e13))
                                    (check_identity-inversion p x _ c h13)

-- An accepted value is an object with the keys of the contract and its version.
unfoldable pub IsAccepted : Platform → ExpectedIdentity → Value → ExecutionContext → Type 0
IsAccepted p x v c =
    (ms : Members) × (v ≡ object ms)
    × (has_keys snapshot_keys ms ≡ true)
    × (equals_one (get "contract_version" ms) ≡ true)
    × IsRead p x ms c

pub parse_execution_context-IsAccepted :
    (p : Platform) (x : ExpectedIdentity) (v : Value) (c : ExecutionContext)
    → parse_execution_context p x v ≡ ok c
    → IsAccepted p x v c
unfolding parse_execution_context IsAccepted
parse_execution_context-IsAccepted p x (object ms) c h =
    after_require (has_keys snapshot_keys ms) _ _ h λ e1 h1.
      after_require (equals_one (get "contract_version" ms)) _ _ h1
        λ e2 h2. (ms, refl, e1, e2, parse_context_fields-IsRead p x ms c h2)
parse_execution_context-IsAccepted p x null c h = cc
parse_execution_context-IsAccepted p x (boolean b) c h = cc
parse_execution_context-IsAccepted p x (int n) c h = cc
parse_execution_context-IsAccepted p x (float t) c h = cc
parse_execution_context-IsAccepted p x (decimal d) c h = cc
parse_execution_context-IsAccepted p x (text s) c h = cc
parse_execution_context-IsAccepted p x (array vs) c h = cc

context_id_lem :
    (p : Platform) (x : ExpectedIdentity) (v : Value) (c : ExecutionContext)
    → parse_execution_context p x v ≡ ok c
    → compute_context_id p c ≡ codes c.context_id
unfolding IsAccepted IsRead IsIdentified
context_id_lem p x v c h =
    let (ms, e0, e1, e2, read) = parse_execution_context-IsAccepted p x v c h in read.1.0

-- Two documents that were accepted, for whatever expected identities, with the same context_id are the
-- same context in every field, unless their canonical texts are a collision of the hash: what the
-- identifier is a digest of leaves out no field but the identifier itself.
pub parse_execution_context-identified :
    (p : Platform) (x y : ExpectedIdentity) (v w : Value) (c d : ExecutionContext)
    → parse_execution_context p x v ≡ ok c
    → parse_execution_context p y w ≡ ok d
    → c.context_id ≡ d.context_id
    → (p.sha256_hex (dumps (canonical_snapshot_dict c))
          ≡ p.sha256_hex (dumps (canonical_snapshot_dict d))
        → dumps (canonical_snapshot_dict c) ≡ dumps (canonical_snapshot_dict d))
    → c ≡ d
unfolding compute_context_id
parse_execution_context-identified p x y v w c d hc hd same no_collision =
    let left = context_id_lem p x v c hc in
    let right = context_id_lem p y w d hd in
    let whole = left ∙ ap codes same ∙ sym right in
    canonical_snapshot_dict-injective c d same
      (dumps-injective _ _ (no_collision (after_prefix (codes "sha256:") _ _ whole)))
  where
    after_prefix : (xs : List ℕ) (ys zs : List ℕ) → xs ++ ys ≡ xs ++ zs → ys ≡ zs
    after_prefix [] ys zs e = e
    after_prefix (k ∷ xs) ys zs e = after_prefix xs ys zs (cc)
