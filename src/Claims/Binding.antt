-- ===== src/Claims/Binding.antt =====
-- The executor binding of multinexus/agentd/executor_binding.py.
use multinexus.Base.{
  ℕ, ◌≡◌, String, Bool, true, false, not, ◌&&◌, ◌||◌, Option, none, some, List, [], ◌∷◌, ◌++◌, ◌==◌,
  string_eq, if◌then◌else◌, ltb, leb, eqb, length,
}
use multinexus.Base.Order.{codes_leb}
use multinexus.Base.Text.{codes, strip, is_empty, is_lower_hex, same_codes}
use multinexus.Base.Value.{items_length, pos, Value, Items, nil, item, Members, get, has_keys}
use Value.{null, int, text, array, object}
use multinexus.Base.Json.{Json, Fields, end, field, dumps}
use multinexus.Base.Result.{Result, ok, err, ◌>>=◌, ◌>>◌, require}
use multinexus.Lease.{Platform, is_digest, is_label, match_all, times}
use multinexus.Claims.{ClaimError, executor_binding_error, ExecutorBinding}
use multinexus.Claims.Snapshot.{string_json, list_items}
use multinexus.Claims.Validators.{is_in}
pub mod Capabilities
pub mod Bound

abbrev pub executor_max_label_len : ℕ
executor_max_label_len = 64

abbrev pub max_capabilities : ℕ
max_capabilities = 32

-- `_validate_bounded_label` on a text
unfoldable pub is_bounded_label : List ℕ → Bool
is_bounded_label s =
    same_codes s (strip s)
    && not (is_empty s)
    && leb (length s) executor_max_label_len
    && is_label s

unfoldable pub validate_bounded_label : Value → Result ClaimError String
validate_bounded_label (text s) =
    if is_bounded_label (codes s) then ok s else err executor_binding_error
validate_bounded_label _ = err executor_binding_error

unfoldable pub insert_sorted : String → List String → List String
insert_sorted s [] = s ∷ []
insert_sorted s (t ∷ ts) =
    let rest = insert_sorted s ts in if codes_leb (codes s) (codes t) then s ∷ t ∷ ts else t ∷ rest

-- `sorted(texts)`
unfoldable pub sorted : List String → List String
sorted [] = []
sorted (s ∷ ss) = insert_sorted s (sorted ss)

same_texts : List String → List String → Bool
same_texts [] [] = true
same_texts [] (t ∷ ts) = false
same_texts (s ∷ ss) [] = false
same_texts (s ∷ ss) (t ∷ ts) = s == t && same_texts ss ts

-- The loop over the capabilities, with those that it has `seen`.
unfoldable pub capability_items : List String → Items → Result ClaimError (List String)
capability_items seen nil = ok []
capability_items seen (item v vs) = do
  cap ← validate_bounded_label v
  require (not (is_in cap seen)) executor_binding_error
  rest ← capability_items (cap ∷ seen) vs
  ok (cap ∷ rest)

unfoldable pub validate_capabilities : Value → Result ClaimError (List String)
unfolding same_texts
validate_capabilities (array vs) = do
  require (leb (items_length vs) max_capabilities) executor_binding_error
  normalized ← capability_items [] vs
  require (same_texts normalized (sorted normalized)) executor_binding_error
  ok normalized
validate_capabilities _ = err executor_binding_error

unfoldable pub validate_binding_id : Value → Result ClaimError String
validate_binding_id (text s) = if is_digest (codes s) then ok s else err executor_binding_error
validate_binding_id _ = err executor_binding_error

-- `_CATALOG_HASH_RE`
unfoldable pub is_catalog_hash : List ℕ → Bool
is_catalog_hash = match_all (times 64 is_lower_hex [])

unfoldable pub validate_catalog_hash : Value → Result ClaimError String
validate_catalog_hash (text s) =
    if is_catalog_hash (codes s) then ok s else err executor_binding_error
validate_catalog_hash _ = err executor_binding_error

-- `_validate_positive_int`, which accepts zero.
unfoldable pub validate_positive_int : Value → Result ClaimError ℕ
validate_positive_int (int (pos n)) = ok n
validate_positive_int _ = err executor_binding_error

abbrev pub binding_keys : List String
binding_keys =
    "contract_version" ∷ "binding_id" ∷ "source_id" ∷ "source_version" ∷ "catalog_hash"
    ∷ "executor_definition_id" ∷ "executor_instance_id" ∷ "runner_profile_id" ∷ "provider"
    ∷ "adapter" ∷ "capabilities" ∷ []

-- The document of the digest: the values as they were read, in the order of their keys.
unfoldable pub binding_snapshot_dict : ExecutorBinding → Json
binding_snapshot_dict b = Json.object (
    field (codes "adapter") (string_json b.adapter) (
      field (codes "capabilities") (Json.array (list_items b.capabilities)) (
        field (codes "catalog_hash") (string_json b.catalog_hash) (
          field (codes "contract_version") (Json.number 1) (
            field (codes "executor_definition_id") (string_json b.executor_definition_id) (
              field (codes "executor_instance_id") (string_json b.executor_instance_id) (
                field (codes "provider") (string_json b.provider) (
                  field (codes "runner_profile_id") (string_json b.runner_profile_id) (
                    field (codes "source_id") (string_json b.source_id)
                      (field (codes "source_version") (Json.number b.source_version) end))))))))))

unfoldable pub compute_binding_id : Platform → ExecutorBinding → List ℕ
compute_binding_id p b = codes "sha256:" ++ p.sha256_hex (dumps (binding_snapshot_dict b))

unfoldable pub check_binding_digest : Platform → ExecutorBinding → Result ClaimError ExecutorBinding
check_binding_digest p b = do
  require (same_codes (compute_binding_id p b) (codes b.binding_id)) executor_binding_error
  ok b

-- The fields in the order in which the parser reads them.
unfoldable pub parse_binding_fields : Platform → Members → Result ClaimError ExecutorBinding
parse_binding_fields p ms = do
  contract_version ← validate_positive_int (get "contract_version" ms)
  require (eqb contract_version 1) executor_binding_error
  binding_id ← validate_binding_id (get "binding_id" ms)
  source_id ← validate_bounded_label (get "source_id" ms)
  source_version ← validate_positive_int (get "source_version" ms)
  catalog_hash ← validate_catalog_hash (get "catalog_hash" ms)
  executor_definition_id ← validate_bounded_label (get "executor_definition_id" ms)
  executor_instance_id ← validate_bounded_label (get "executor_instance_id" ms)
  runner_profile_id ← validate_bounded_label (get "runner_profile_id" ms)
  provider ← validate_bounded_label (get "provider" ms)
  adapter ← validate_bounded_label (get "adapter" ms)
  capabilities ← validate_capabilities (get "capabilities" ms)
  check_binding_digest p (record {
    binding_id = binding_id;
    source_id = source_id;
    source_version = source_version;
    catalog_hash = catalog_hash;
    executor_definition_id = executor_definition_id;
    executor_instance_id = executor_instance_id;
    runner_profile_id = runner_profile_id;
    provider = provider;
    adapter = adapter;
    capabilities = capabilities;
  })

unfoldable pub parse_executor_binding : Platform → Value → Result ClaimError ExecutorBinding
parse_executor_binding p (object ms) = do
  require (has_keys binding_keys ms) executor_binding_error
  parse_binding_fields p ms
parse_executor_binding p _ = err executor_binding_error

unfoldable pub validate_executor_binding :
    Platform → String → String → Value → Result ClaimError (Option ExecutorBinding)
validate_executor_binding p agent_id adapter null = ok none
validate_executor_binding p agent_id adapter v = do
  binding ← parse_executor_binding p v
  require (binding.executor_instance_id == agent_id) executor_binding_error
  require (binding.runner_profile_id == agent_id) executor_binding_error
  require (binding.adapter == adapter) executor_binding_error
  ok (some binding)
