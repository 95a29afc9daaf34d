-- ===== src/Claims/Binding/Bound.antt =====
-- What `validate_executor_binding` of multinexus/agentd/executor_binding.py accepts.
use mathlib.Core.Path.{subst}
use multinexus.Base.{
  arith, ◌≤◌, ◌≡◌, refl, String, true, Option, none, some, ◌==◌, ==_iff, string_eq, eqb, length,
}
use multinexus.Base.Text.{codes, same_codes, same_codes-eq}
use multinexus.Base.Value.{Value, Members, get, has_keys}
use Value.{null, boolean, int, float, decimal, text, array, object}
use multinexus.Base.Result.{ok, ◌>>=◌, ◌>>◌, require, after_bind, after_require, ok-injective}
use multinexus.Lease.{Platform}
use multinexus.Claims.{executor_binding_error, ExecutorBinding}
use multinexus.Claims.Binding.{
  validate_bounded_label, validate_binding_id, validate_catalog_hash, validate_positive_int,
  validate_capabilities, is_bounded_label, is_catalog_hash, binding_keys, check_binding_digest,
  compute_binding_id, parse_binding_fields, parse_executor_binding, validate_executor_binding,
}
use multinexus.Claims.Binding.Capabilities.{
  bounded_label_of-text, AreAscending, validate_capabilities-AreAscending,
}

-- The labels are bounded, the capabilities ascend, and the digest is the identifier.
unfoldable pub IsBinding : Platform → ExecutorBinding → Type 0
IsBinding p b =
    (is_bounded_label (codes b.source_id) ≡ true)
    × (is_bounded_label (codes b.executor_definition_id) ≡ true)
    × (is_bounded_label (codes b.executor_instance_id) ≡ true)
    × (is_bounded_label (codes b.runner_profile_id) ≡ true)
    × (is_bounded_label (codes b.provider) ≡ true)
    × (is_bounded_label (codes b.adapter) ≡ true)
    × (is_catalog_hash (codes b.catalog_hash) ≡ true)
    × (length b.capabilities ≤ 32)
    × AreAscending b.capabilities
    × (compute_binding_id p b ≡ codes b.binding_id)

-- The runner profile that the document names.
unfoldable pub NamesProfile : Value → ExecutorBinding → Type 0
NamesProfile (object ms) b = get "runner_profile_id" ms ≡ text b.runner_profile_id
NamesProfile _ b = ⊥

catalog_hash_of-text :
    (v : Value) (s : String) → validate_catalog_hash v ≡ ok s → is_catalog_hash (codes s) ≡ true
unfolding validate_catalog_hash
catalog_hash_of-text (text t) s h = ground arith
catalog_hash_of-text null s h = cc
catalog_hash_of-text (boolean b) s h = cc
catalog_hash_of-text (int n) s h = cc
catalog_hash_of-text (float t) s h = cc
catalog_hash_of-text (decimal d) s h = cc
catalog_hash_of-text (array vs) s h = cc
catalog_hash_of-text (object ms) s h = cc

digest_lem :
    (p : Platform) (b c : ExecutorBinding)
    → check_binding_digest p b ≡ ok c
    → (b ≡ c) × (compute_binding_id p b ≡ codes b.binding_id)
unfolding check_binding_digest
digest_lem p b c h =
    after_require (same_codes (compute_binding_id p b) (codes b.binding_id)) _ _ h
      λ e h1. (ok-injective _ _ _ refl h1, same_codes-eq _ _ e)

fields-IsBinding :
    (p : Platform) (ms : Members) (b : ExecutorBinding)
    → parse_binding_fields p ms ≡ ok b
    → IsBinding p b × NamesProfile (object ms) b
unfolding parse_binding_fields IsBinding NamesProfile
fields-IsBinding p ms b h =
    after_bind (validate_positive_int (get "contract_version" ms)) _ h λ version e1 h1.
      after_require (eqb version 1) _ _ h1 λ e2 h2.
        after_bind (validate_binding_id (get "binding_id" ms)) _ h2 λ id e3 h3.
          after_bind (validate_bounded_label (get "source_id" ms)) _ h3 λ source e4 h4.
            after_bind (validate_positive_int (get "source_version" ms)) _ h4 λ number e5 h5.
              after_bind (validate_catalog_hash (get "catalog_hash" ms)) _ h5 λ hash e6 h6.
                after_bind (validate_bounded_label (get "executor_definition_id" ms)) _ h6
                  λ definition e7 h7.
                    after_bind (validate_bounded_label (get "executor_instance_id" ms)) _ h7
                      λ instance_id e8 h8.
                        after_bind (validate_bounded_label (get "runner_profile_id" ms)) _ h8
                          λ profile e9 h9.
                            after_bind (validate_bounded_label (get "provider" ms)) _ h9
                              λ provider e10 h10.
                                after_bind (validate_bounded_label (get "adapter" ms)) _ h10
                                  λ adapter e11 h11.
                                    after_bind (validate_capabilities (get "capabilities" ms)) _ h11
                                      λ capabilities e12 h12.
                                        let digest = digest_lem p _ b h12 in
                                        let caps =
                                          validate_capabilities-AreAscending _ capabilities e12 in
                                        subst (λ r. IsBinding p r × NamesProfile (object ms) r)
                                          digest.0
                                          (
                                            (
                                              (bounded_label_of-text _ _ e4).1,
                                              (bounded_label_of-text _ _ e7).1,
                                              (bounded_label_of-text _ _ e8).1,
                                              (bounded_label_of-text _ _ e9).1,
                                              (bounded_label_of-text _ _ e10).1,
                                              (bounded_label_of-text _ _ e11).1,
                                              catalog_hash_of-text _ _ e6,
                                              caps.0,
                                              caps.1,
                                              digest.1,
                                            ),
                                            (bounded_label_of-text _ _ e9).0,
                                          )

pub parse_executor_binding-IsBinding :
    (p : Platform) (v : Value) (b : ExecutorBinding)
    → parse_executor_binding p v ≡ ok b
    → IsBinding p b × NamesProfile v b
unfolding parse_executor_binding
parse_executor_binding-IsBinding p (object ms) b h =
    after_require (has_keys binding_keys ms) _ _ h λ e1 h1. fields-IsBinding p ms b h1
parse_executor_binding-IsBinding p null b h = cc
parse_executor_binding-IsBinding p (boolean c) b h = cc
parse_executor_binding-IsBinding p (int n) b h = cc
parse_executor_binding-IsBinding p (float t) b h = cc
parse_executor_binding-IsBinding p (decimal d) b h = cc
parse_executor_binding-IsBinding p (text s) b h = cc
parse_executor_binding-IsBinding p (array vs) b h = cc

-- The binding is bound to the agent and its adapter; without a binding, the value is null.
unfoldable pub IsBoundTo : Platform → String → String → Value → Option ExecutorBinding → Type 0
IsBoundTo p agent adapter v none = v ≡ null
IsBoundTo p agent adapter v (some b) =
    IsBinding p b
    × NamesProfile v b
    × (b.executor_instance_id ≡ agent)
    × (b.runner_profile_id ≡ agent)
    × (b.adapter ≡ adapter)

matched :
    (p : Platform) (agent adapter : String) (v : Value) (o : Option ExecutorBinding)
    → (do
      b ← parse_executor_binding p v
      require (b.executor_instance_id == agent) executor_binding_error
      require (b.runner_profile_id == agent) executor_binding_error
      require (b.adapter == adapter) executor_binding_error
      ok (some b))
      ≡ ok o
    → IsBoundTo p agent adapter v o
matched p agent adapter v o h = after_bind (parse_executor_binding p v) _ h λ b e h1.
    after_require (b.executor_instance_id == agent) _ _ h1 λ e1 h2.
      after_require (b.runner_profile_id == agent) _ _ h2 λ e2 h3.
        after_require (b.adapter == adapter) _ _ h3 λ e3 h4.
          subst (IsBoundTo p agent adapter v) (ok-injective _ _ _ refl h4) (
            unfold IsBoundTo in
            (
              (parse_executor_binding-IsBinding p v b e).0,
              (parse_executor_binding-IsBinding p v b e).1,
              (==_iff b.executor_instance_id agent).0 e1,
              (==_iff b.runner_profile_id agent).0 e2,
              (==_iff b.adapter adapter).0 e3,
            ))

-- An accepted executor binding names the agent both as its instance and as its runner profile and has
-- the local adapter; its labels are bounded, its capabilities at most 32 bounded labels in strictly
-- ascending order, and its identifier the digest of its fields. Only null is accepted as no binding.
pub validate_executor_binding-IsBoundTo :
    (p : Platform) (agent adapter : String) (v : Value) (o : Option ExecutorBinding)
    → validate_executor_binding p agent adapter v ≡ ok o
    → IsBoundTo p agent adapter v o
unfolding validate_executor_binding
validate_executor_binding-IsBoundTo p agent adapter null none h = (unfold IsBoundTo in refl)
validate_executor_binding-IsBoundTo p agent adapter null (some b) h = cc
validate_executor_binding-IsBoundTo p agent adapter (boolean c) o h = matched p agent adapter _ o h
validate_executor_binding-IsBoundTo p agent adapter (int n) o h = matched p agent adapter _ o h
validate_executor_binding-IsBoundTo p agent adapter (float t) o h = matched p agent adapter _ o h
validate_executor_binding-IsBoundTo p agent adapter (decimal d) o h = matched p agent adapter _ o h
validate_executor_binding-IsBoundTo p agent adapter (text s) o h = matched p agent adapter _ o h
validate_executor_binding-IsBoundTo p agent adapter (array vs) o h = matched p agent adapter _ o h
validate_executor_binding-IsBoundTo p agent adapter (object ms) o h = matched p agent adapter _ o h
