-- ===== src/Worker/Report/Kept.antt =====
-- The members of `result_json` of multinexus/agentd/worker.py that every report has, and what a matching
-- receipt says of them.
use mathlib.Core.Option.{some-injective}
use multinexus.Base.{
  ◌≡◌, ap, ◌∙◌, refl, sym, String, Bool, true, false, not, Option, none, some, ◌==◌, string_eq,
  ==_iff, ==_refl, if◌then◌else◌, arith, Bool-cases, Option-cases, inl, inr,
}
use multinexus.Base.Text.{codes, is_empty}
use multinexus.Base.Value.{Value, Members, empty, member, lookup, get, text, object}
use multinexus.Base.Same.{same_value, same_value-text, same_value-null}
use Value.{null, boolean, int, float, decimal, array}
use multinexus.Adapters.{Category, effective_outcome}
use multinexus.Claims.{ExecutionContext, ExecutorBinding}
use multinexus.Claims.Response.{truthy}
use multinexus.Worker.Report.{
  Trusted, Completion, text_or_null, is_no_response, put, base_document, put_category, put_binding,
  put_timeout, put_evidence, with_evidence, is_some_member, outcome_text, settled_document,
  result_json, is_stored, category_text,
}

-- A key other than those that are added to the base document.
abbrev pub IsEarly : String → Type 0
IsEarly j =
    (("error" == j) ≡ false)
    × (("error_category" == j) ≡ false)
    × (("diagnostic" == j) ≡ false)
    × (("executor_binding_id" == j) ≡ false)
    × (("executor_definition_id" == j) ≡ false)
    × (("runner_profile_id" == j) ≡ false)
    × (("progress" == j) ≡ false)
    × (("timeout" == j) ≡ false)
    × (("provider_evidence" == j) ≡ false)
    × (("usage_evidence" == j) ≡ false)

lookup-put :
    (j k : String) (v : Value) (ms : Members)
    → (k == j) ≡ false
    → lookup j (put k v ms) ≡ lookup j ms
unfolding put lookup
lookup-put j k v empty h = rw h
lookup-put j k v (member i w ms) h = elim (Bool-cases (i == k)) [
  | inl e ↦ let other : (i == j) ≡ false = ap (λ x. x == j) ((==_iff i k).0 e) ∙ h in rw (e, other)
  | inr e ↦ rw (e, lookup-put j k v ms h)
]

pub lookup-put_self : (k : String) (v : Value) (ms : Members) → lookup k (put k v ms) ≡ some v
unfolding put lookup
lookup-put_self k v empty = rw (==_refl k)
lookup-put_self k v (member i w ms) = elim (Bool-cases (i == k)) [
  | inl e ↦ rw (e, e)
  | inr e ↦ rw (e, e, lookup-put_self k v ms)
]

module _ (j : String) (early : IsEarly j) where
  lookup-put_if :
      (b : Bool) (k : String) (v : Value) (ms : Members)
      → (k == j) ≡ false
      → lookup j (if b then put k v ms else ms) ≡ lookup j ms
  lookup-put_if true k v ms h = lookup-put j k v ms h
  lookup-put_if false k v ms h = refl

  lookup-put_category :
      (o : Option Category) (ms : Members) → lookup j (put_category o ms) ≡ lookup j ms
  unfolding put_category
  lookup-put_category none ms = refl
  lookup-put_category (some c) ms =
      lookup-put j "error_category" (text (category_text c)) ms early.1

  lookup-put_binding :
      (o : Option ExecutorBinding) (ms : Members) → lookup j (put_binding o ms) ≡ lookup j ms
  unfolding put_binding
  lookup-put_binding none ms = refl
  lookup-put_binding (some b) ms =
      lookup-put j "runner_profile_id" (text b.runner_profile_id) _ early.5
      ∙ lookup-put j "executor_definition_id" (text b.executor_definition_id) _ early.4
      ∙ lookup-put j "executor_binding_id" (text b.binding_id) ms early.3

  lookup-put_timeout :
      (o : Option Value) (progress ms doc : Members)
      → put_timeout o progress ms ≡ some doc
      → lookup j doc ≡ lookup j ms
  unfolding put_timeout
  lookup-put_timeout none progress ms doc h = ap (lookup j) (sym (some-injective _ _ h))
  lookup-put_timeout (some (object t)) progress ms doc h =
      ap (lookup j) (sym (some-injective _ _ h)) ∙ lookup-put j "timeout" _ ms early.7
  lookup-put_timeout (some null) progress ms doc h = cc
  lookup-put_timeout (some (boolean b)) progress ms doc h = cc
  lookup-put_timeout (some (int n)) progress ms doc h = cc
  lookup-put_timeout (some (float s)) progress ms doc h = cc
  lookup-put_timeout (some (decimal d)) progress ms doc h = cc
  lookup-put_timeout (some (text s)) progress ms doc h = cc
  lookup-put_timeout (some (array vs)) progress ms doc h = cc

  lookup-settled_document :
      (t : Trusted) (c : ExecutionContext) (binding : Option ExecutorBinding) (x : Completion)
      → lookup j (settled_document t c binding x) ≡ lookup j (base_document t c x)
  unfolding settled_document
  lookup-settled_document t c binding x =
      lookup-put_if (is_some_member x.progress) "progress" _ _ early.6
      ∙ lookup-put_binding binding _
      ∙ lookup-put_if (not (is_empty (codes x.result.diagnostic))) "diagnostic" _ _ early.2
      ∙ lookup-put_category x.result.error_category _
      ∙ lookup-put_if (is_no_response x.result) "error" _ (base_document t c x) early.0

  lookup-put_evidence :
      (metadata ms : Members)
      → lookup j
          (put_evidence "usage_evidence" metadata (put_evidence "provider_evidence" metadata ms))
        ≡ lookup j ms
  unfolding put_evidence
  lookup-put_evidence metadata ms =
      lookup-put_if (truthy (get "usage_evidence" metadata)) "usage_evidence" _ _ early.9
      ∙ lookup-put_if (truthy (get "provider_evidence" metadata)) "provider_evidence" _ ms early.8

  lookup-with_evidence :
      (metadata doc : Members) (o : Option Members)
      → with_evidence metadata o ≡ some doc
      → (ms : Members) × (o ≡ some ms) × (lookup j doc ≡ lookup j ms)
  unfolding with_evidence
  lookup-with_evidence metadata doc none h = cc
  lookup-with_evidence metadata doc (some ms) h =
      (ms, refl, ap (lookup j) (sym (some-injective _ _ h)) ∙ lookup-put_evidence metadata ms)

  -- What a report has under a key of the base document.
  pub lookup-result_json :
      (t : Trusted) (c : ExecutionContext) (binding : Option ExecutorBinding) (x : Completion)
      (doc : Members)
      → result_json t c binding x ≡ some doc
      → lookup j doc ≡ lookup j (base_document t c x)
  unfolding result_json
  lookup-result_json t c binding x doc h =
      let settled = settled_document t c binding x in
      let o = put_timeout (lookup "timeout" x.metadata) x.progress settled in
      let (ms, e, same) = lookup-with_evidence x.metadata doc o h in
      same
      ∙ lookup-put_timeout (lookup "timeout" x.metadata) x.progress settled ms e
      ∙ lookup-settled_document t c binding x

-- What a matching receipt stores under a key of the report, the usage evidence excepted.
here_stored :
    (f : Value → Value → Bool) (i : String) (w : Value) (ms stored : Members) (k : String)
    (v : Value)
    → is_stored f (member i w ms) stored ≡ true
    → w ≡ v
    → i ≡ k
    → (i == "usage_evidence") ≡ false
    → (x : Value) × (lookup k stored ≡ some x) × (same_value f x v ≡ true)
unfolding is_stored
here_stored f i w ms stored k v h e same n = elim (Option-cases (lookup i stored)) [
  | inl missing ↦ absurd (ground (arith, missing, n, h))
  | inr (x, found) ↦
      (x, ap (λ y. lookup y stored) (sym same) ∙ found, ground (arith, found, n, h, e))
]

later_stored :
    (f : Value → Value → Bool) (i : String) (w : Value) (ms stored : Members)
    → is_stored f (member i w ms) stored ≡ true
    → is_stored f ms stored ≡ true
unfolding is_stored
later_stored f i w ms stored h = ground arith

pub stored-is_stored :
    (f : Value → Value → Bool) (doc stored : Members) (k : String) (v : Value)
    → is_stored f doc stored ≡ true
    → lookup k doc ≡ some v
    → (k == "usage_evidence") ≡ false
    → (w : Value) × (lookup k stored ≡ some w) × (same_value f w v ≡ true)
unfolding is_stored lookup
stored-is_stored f empty stored k v h e n = cc
stored-is_stored f (member i w ms) stored k v h e n = elim (Bool-cases (i == k)) [
  | inl same ↦
      let value : some w ≡ some v = sym (rw (same, lookup)) ∙ e in
      let not_usage : (i == "usage_evidence") ≡ false =
        ap (λ x. x == "usage_evidence") ((==_iff i k).0 same) ∙ n in
      here_stored f i w ms stored k v h (some-injective _ _ value) ((==_iff i k).0 same) not_usage
  | inr other ↦
      stored-is_stored f ms stored k v (later_stored f i w ms stored h)
        (sym (rw (other, lookup)) ∙ e) n
]

-- What a matching receipt stores under a key whose value in the report is a text, or None.
pub stored-text_or_null :
    (f : Value → Value → Bool) (doc stored : Members) (k : String) (o : Option String)
    → is_stored f doc stored ≡ true
    → lookup k doc ≡ some (text_or_null o)
    → (k == "usage_evidence") ≡ false
    → lookup k stored ≡ some (text_or_null o)
unfolding text_or_null
stored-text_or_null f doc stored k none h e n =
    let (w, found, same) = stored-is_stored f doc stored k null h e n in
    found ∙ ap some (same_value-null f w same)
stored-text_or_null f doc stored k (some s) h e n =
    let (w, found, same) = stored-is_stored f doc stored k (text s) h e n in
    found ∙ ap some (same_value-text f w s same)

-- The identity and the settlement that a report states.
unfoldable pub Names : Trusted → ExecutionContext → Completion → Members → Type 0
Names t c x doc =
    (lookup "attempt_token" doc ≡ some t.attempt_token)
    × (lookup "lease_id" doc ≡ some (text_or_null t.lease_id))
    × (lookup "execution_context_id" doc ≡ some (text c.context_id))
    × (lookup "session_scope_id" doc ≡ some (text c.session_scope_id))
    × (lookup "outcome" doc ≡ some (text (outcome_text (effective_outcome x.result))))
    × (lookup "session_id" doc
        ≡ some (elim x.result.session_id [ none ↦ text "" | some s ↦ text s ]))

base_document-Names :
    (t : Trusted) (c : ExecutionContext) (x : Completion) → Names t c x (base_document t c x)
unfolding Names base_document lookup
base_document-Names t c x = (refl, refl, refl, refl, refl, refl)

pub result_json-Names :
    (t : Trusted) (c : ExecutionContext) (binding : Option ExecutorBinding) (x : Completion)
    (doc : Members)
    → result_json t c binding x ≡ some doc
    → Names t c x doc
unfolding Names
result_json-Names t c binding x doc h =
    let base = base_document-Names t c x in
    (
      lookup-result_json "attempt_token"
            (refl, refl, refl, refl, refl, refl, refl, refl, refl, refl) t c binding x doc h
          ∙ base.0,
      lookup-result_json "lease_id" (refl, refl, refl, refl, refl, refl, refl, refl, refl, refl) t c
            binding x doc h
          ∙ base.1,
      lookup-result_json "execution_context_id"
            (refl, refl, refl, refl, refl, refl, refl, refl, refl, refl) t c binding x doc h
          ∙ base.2,
      lookup-result_json "session_scope_id"
            (refl, refl, refl, refl, refl, refl, refl, refl, refl, refl) t c binding x doc h
          ∙ base.3,
      lookup-result_json "outcome" (refl, refl, refl, refl, refl, refl, refl, refl, refl, refl) t c
            binding x doc h
          ∙ base.4,
      lookup-result_json "session_id" (refl, refl, refl, refl, refl, refl, refl, refl, refl, refl) t
            c binding x doc h
          ∙ base.5,
    )
