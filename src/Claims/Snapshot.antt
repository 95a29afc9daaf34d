-- ===== src/Claims/Snapshot.antt =====
-- The document whose digest identifies an execution context: `_canonical_snapshot_dict` and
-- `_compute_context_id` of multinexus/agentd/execution_context.py. The members stand in the order of
-- their keys.
use multinexus.Base.{ℕ, ◌≡◌, ap, refl, String, Option, none, some, List, [], ◌∷◌, ◌++◌}
use multinexus.Base.Text.{codes, codes-injective}
use multinexus.Base.Json.{Json, Items, nil, item, end, field, dumps}
use multinexus.Lease.{Platform}
use multinexus.Claims.{LogHandle, ExecutionContext}

unfoldable pub string_json : String → Json
string_json s = Json.text (codes s)

unfoldable pub nullable_json : Option String → Json
nullable_json none = Json.null
nullable_json (some s) = string_json s

unfoldable pub list_items : List String → Items
list_items [] = nil
list_items (s ∷ ss) = item (string_json s) (list_items ss)

log_handle_json : LogHandle → Json
log_handle_json h = Json.object (
    field (codes "job_id") (string_json h.job_id) (
      field (codes "kind") (string_json "coordinate_job")
        (field (codes "logs_path") (nullable_json h.logs_path) end)))

unfoldable pub canonical_snapshot_dict : ExecutionContext → Json
unfolding string_json nullable_json list_items log_handle_json
canonical_snapshot_dict c = Json.object (
    field (codes "assigned_agent") (string_json c.assigned_agent) (
      field (codes "branch") (nullable_json c.branch) (
        field (codes "contract_version") (Json.number 1) (
          field (codes "harness_root") (string_json c.harness_root) (
            field (codes "host_id") (string_json c.host_id) (
              field (codes "job_id") (string_json c.job_id) (
                field (codes "legacy_scope_ids") (Json.array (list_items c.legacy_scope_ids)) (
                  field (codes "log_handle") (log_handle_json c.log_handle) (
                    field (codes "session_scope_id") (string_json c.session_scope_id) (
                      field (codes "task_id") (nullable_json c.task_id) (
                        field (codes "workspace_id") (string_json c.workspace_id) (
                          field (codes "workspace_path") (string_json c.workspace_path) (
                            field (codes "worktree_path") (string_json c.worktree_path)
                              end)))))))))))))

unfoldable pub compute_context_id : Platform → ExecutionContext → List ℕ
compute_context_id p c = codes "sha256:" ++ p.sha256_hex (dumps (canonical_snapshot_dict c))

-- The document determines the context, but for the identifier itself.
pub string_json-injective : (s t : String) → string_json s ≡ string_json t → s ≡ t
unfolding string_json
string_json-injective s t h = codes-injective s t (cc)

nullable_json-injective : (a b : Option String) → nullable_json a ≡ nullable_json b → a ≡ b
unfolding nullable_json
nullable_json-injective none none h = refl
nullable_json-injective none (some b) h = (unfold string_json in cc)
nullable_json-injective (some a) none h = (unfold string_json in cc)
nullable_json-injective (some a) (some b) h = ap some (string_json-injective a b h)

pub list_items-injective : (xs ys : List String) → list_items xs ≡ list_items ys → xs ≡ ys
unfolding list_items
list_items-injective [] [] h = refl
list_items-injective [] (y ∷ ys) h = cc
list_items-injective (x ∷ xs) [] h = cc
list_items-injective (x ∷ xs) (y ∷ ys) h =
    let first = string_json-injective x y (cc) in let rest = list_items-injective xs ys (cc) in cc

log_handle_json-injective : (a b : LogHandle) → log_handle_json a ≡ log_handle_json b → a ≡ b
unfolding log_handle_json
log_handle_json-injective a b h =
    let job = string_json-injective a.job_id b.job_id (cc) in
    let path = nullable_json-injective a.logs_path b.logs_path (cc) in
    λ i. record { job_id = job i; logs_path = path i }

pub canonical_snapshot_dict-injective :
    (c d : ExecutionContext)
    → c.context_id ≡ d.context_id
    → canonical_snapshot_dict c ≡ canonical_snapshot_dict d
    → c ≡ d
unfolding canonical_snapshot_dict
canonical_snapshot_dict-injective c d same h =
    let agent = string_json-injective c.assigned_agent d.assigned_agent (cc) in
    let branch = nullable_json-injective c.branch d.branch (cc) in
    let root = string_json-injective c.harness_root d.harness_root (cc) in
    let host = string_json-injective c.host_id d.host_id (cc) in
    let job = string_json-injective c.job_id d.job_id (cc) in
    let legacy = list_items-injective c.legacy_scope_ids d.legacy_scope_ids (cc) in
    let log = log_handle_json-injective c.log_handle d.log_handle (cc) in
    let scope = string_json-injective c.session_scope_id d.session_scope_id (cc) in
    let task = nullable_json-injective c.task_id d.task_id (cc) in
    let workspace = string_json-injective c.workspace_id d.workspace_id (cc) in
    let workspace_path = string_json-injective c.workspace_path d.workspace_path (cc) in
    let worktree = string_json-injective c.worktree_path d.worktree_path (cc) in
    λ i. record {
      context_id = same i;
      job_id = job i;
      workspace_id = workspace i;
      task_id = task i;
      assigned_agent = agent i;
      host_id = host i;
      workspace_path = workspace_path i;
      worktree_path = worktree i;
      harness_root = root i;
      branch = branch i;
      session_scope_id = scope i;
      legacy_scope_ids = legacy i;
      log_handle = log i;
    }
