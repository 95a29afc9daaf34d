-- ===== src/Capacity.antt =====
-- The capacity projection of the agent registry, multinexus/executor_capacity_authority.py, from the
-- document that `tomllib` reads. A date of TOML, which is no `Value`, is refused wherever the parser
-- looks.
use multinexus.Base.{
  ℕ, ◌≡◌, String, Bool, true, false, not, ◌&&◌, Option, none, some, List, [], ◌∷◌, ◌++◌, string_eq,
  if◌then◌else◌, leb, length,
}
use multinexus.Base.Text.{codes, strip, is_empty, same_codes}
use multinexus.Base.Value.{ℤ, pos, Value, Items, nil, item, Members, empty, lookup, get, has_only}
use Value.{int, text, array, object}
use multinexus.Base.Json.{
  Json, Items as JsonItems, nil as json_nil, item as json_item, Fields, end, field, dumps,
}
use multinexus.Base.Result.{Result, ok, err, ◌>>=◌, ◌>>◌, require}
use multinexus.Lease.{Platform, is_label}
use multinexus.Claims.Validators.{is_in}
use multinexus.Base.Order.{codes_leb}
pub mod Catalog
mod Examples

-- `CapacityAuthorityError`, and the `TypeError` of a loop over what cannot be iterated.
pub data CapacityError : Type 0 where
  capacity_authority_error type_error : CapacityError

pub record CapacityPolicy : Type 0 where
  pub agent_id : String
  pub max_concurrent_jobs : ℕ

-- The hash is the text of its code points.
pub record CapacityCatalog : Type 0 where
  pub source_id : String
  pub source_version : ℕ
  pub catalog_hash : List ℕ
  pub policies : List CapacityPolicy

abbrev pub allowed_root_keys : List String
allowed_root_keys =
    "registry" ∷ "executor_definitions" ∷ "agents" ∷ "external_agents" ∷ "capacity_registry"
    ∷ "executor_capacities" ∷ []

unfoldable pub is_capacity_label : List ℕ → Bool
is_capacity_label s = same_codes s (strip s) && not (is_empty s) && leb (length s) 64 && is_label s

unfoldable pub capacity_label : Value → Result CapacityError String
capacity_label (text s) = if is_capacity_label (codes s) then ok s else err capacity_authority_error
capacity_label _ = err capacity_authority_error

unfoldable pub validate_max_concurrent_jobs : Value → Result CapacityError ℕ
validate_max_concurrent_jobs (int (pos n)) =
    if leb 1 n && leb n 32 then ok n else err capacity_authority_error
validate_max_concurrent_jobs _ = err capacity_authority_error

-- `sorted(..., key=...)` by the agent
unfoldable pub insert_policy : CapacityPolicy → List CapacityPolicy → List CapacityPolicy
insert_policy p [] = p ∷ []
insert_policy p (q ∷ qs) =
    let rest = insert_policy p qs in
    if codes_leb (codes p.agent_id) (codes q.agent_id) then p ∷ q ∷ qs else q ∷ rest

unfoldable pub sorted_policies : List CapacityPolicy → List CapacityPolicy
sorted_policies [] = []
sorted_policies (p ∷ ps) = insert_policy p (sorted_policies ps)

-- `canonical_dict`, with the members in the order of their keys
unfoldable pub policy_json : CapacityPolicy → Json
policy_json p = Json.object (
    field (codes "agent_id") (Json.text (codes p.agent_id))
      (field (codes "max_concurrent_jobs") (Json.number p.max_concurrent_jobs) end))

unfoldable pub policy_items : List CapacityPolicy → JsonItems
policy_items [] = json_nil
policy_items (p ∷ ps) = json_item (policy_json p) (policy_items ps)

unfoldable pub canonical_capacity_catalog_dict : CapacityCatalog → Json
canonical_capacity_catalog_dict c = Json.object (
    field (codes "contract_version") (Json.number 1) (
      field (codes "policies") (Json.array (policy_items (sorted_policies c.policies))) (
        field (codes "source_id") (Json.text (codes c.source_id))
          (field (codes "source_version") (Json.number c.source_version) end))))

unfoldable pub compute_capacity_catalog_hash : Platform → CapacityCatalog → List ℕ
compute_capacity_catalog_hash p c = p.sha256_hex (dumps (canonical_capacity_catalog_dict c))

-- The document of a policy's identifier.
unfoldable pub capacity_policy_dict : CapacityPolicy → List ℕ → String → ℕ → Json
capacity_policy_dict q catalog_hash source_id source_version = Json.object (
    field (codes "agent_id") (Json.text (codes q.agent_id)) (
      field (codes "catalog_hash") (Json.text catalog_hash) (
        field (codes "contract_version") (Json.number 1) (
          field (codes "max_concurrent_jobs") (Json.number q.max_concurrent_jobs) (
            field (codes "source_id") (Json.text (codes source_id))
              (field (codes "source_version") (Json.number source_version) end))))))

unfoldable pub compute_capacity_policy_id : Platform → CapacityPolicy → List ℕ → String → ℕ → List ℕ
compute_capacity_policy_id p q catalog_hash source_id source_version =
    codes "sha256:"
    ++ p.sha256_hex (dumps (capacity_policy_dict q catalog_hash source_id source_version))

unfoldable pub source_version_of : Value → Result CapacityError ℕ
source_version_of (int (pos n)) = ok n
source_version_of _ = err capacity_authority_error

unfoldable pub table_of : Value → Result CapacityError Members
table_of (object ms) = ok ms
table_of _ = err capacity_authority_error

-- What the loop over `data.get("executor_capacities", [])` meets: a text is read by characters and a
-- table by keys, none of which is a table.
unfoldable pub entries_of : Option Value → Result CapacityError Items
entries_of none = ok nil
entries_of (some (array vs)) = ok vs
entries_of (some (text s)) = if is_empty (codes s) then ok nil else err capacity_authority_error
entries_of (some (object empty)) = ok nil
entries_of (some (object _)) = err capacity_authority_error
entries_of (some _) = err type_error

unfoldable pub capacity_entries : List String → Items → Result CapacityError (List CapacityPolicy)
capacity_entries seen nil = ok []
capacity_entries seen (item v vs) = do
  raw ← table_of v
  require (has_only ("agent_id" ∷ "max_concurrent_jobs" ∷ []) raw) capacity_authority_error
  agent_id ← capacity_label (get "agent_id" raw)
  require (not (is_in agent_id seen)) capacity_authority_error
  jobs ← validate_max_concurrent_jobs (get "max_concurrent_jobs" raw)
  rest ← capacity_entries (agent_id ∷ seen) vs
  ok (record { agent_id = agent_id; max_concurrent_jobs = jobs } ∷ rest)

hashed : Platform → CapacityCatalog → CapacityCatalog
hashed p c = record c { catalog_hash = compute_capacity_catalog_hash p c }

-- `parse_capacity_catalog` on the document.
unfoldable pub parse_capacity_catalog : Platform → Members → Result CapacityError CapacityCatalog
unfolding hashed
parse_capacity_catalog p root = do
  require (has_only allowed_root_keys root) capacity_authority_error
  registry ← table_of (get "capacity_registry" root)
  require (has_only ("id" ∷ "version" ∷ []) registry) capacity_authority_error
  source_id ← capacity_label (get "id" registry)
  source_version ← source_version_of (get "version" registry)
  entries ← entries_of (lookup "executor_capacities" root)
  policies ← capacity_entries [] entries
  ok (
      hashed p (record {
        source_id = source_id;
        source_version = source_version;
        catalog_hash = [];
        policies = policies;
      }))
