-- ===== src/Lease/Resource.antt =====
-- The worktree resource of multinexus/agentd/execution_lease.py: normal paths and resource keys.
use multinexus.Base.{
  ℕ, Bool, not, ◌&&◌, ◌||◌, List, [], ◌∷◌, ◌++◌, if◌then◌else◌, leb, eqb, length, drop, map,
}
use mathlib.Core.List.{reverse}
use multinexus.Base.Json.{escape}
use multinexus.Base.Text.{codes, strip, is_empty, same_codes}
use multinexus.Base.Result.{Result, ok, ◌>>◌, require}
use multinexus.Lease.{Platform, LeaseError, resource_identity_error, has_control}
use multinexus.Lease.Validators.{
  max_path_len, is_windows_unc, is_windows_drive, has_drive_root, is_posix_absolute,
}

cons_head : ℕ → List (List ℕ) → List (List ℕ)
cons_head c [] = (c ∷ []) ∷ []
cons_head c (r ∷ rs) = (c ∷ r) ∷ rs

-- `path.split("/")`
unfoldable pub split_slash : List ℕ → List (List ℕ)
unfolding cons_head
split_slash [] = [] ∷ []
split_slash (c ∷ cs) =
    let rest = split_slash cs in if eqb c b'/' then [] ∷ rest else cons_head c rest

pop : List (List ℕ) → List (List ℕ)
pop [] = []
pop (c ∷ cs) = cs

-- The components that stay; `stack` holds those before, the last one first.
unfoldable pub resolve : List (List ℕ) → List (List ℕ) → List (List ℕ)
unfolding pop
resolve stack [] = reverse stack
resolve stack (c ∷ cs) =
    let skipped = resolve stack cs in
    let popped = resolve (pop stack) cs in
    let pushed = resolve (c ∷ stack) cs in
    if is_empty c || same_codes c (codes ".")
    then skipped
    else if same_codes c (codes "..")
    then popped
    else pushed

-- `"/".join(components)`
unfoldable pub join_slash : List (List ℕ) → List ℕ
join_slash [] = []
join_slash (c ∷ cs) = elim cs [ [] ↦ c | _ ↦ c ++ (b'/' ∷ join_slash cs) ]

-- `posixpath.normpath` on a path that starts with exactly one slash.
unfoldable pub posix_normpath : List ℕ → List ℕ
posix_normpath path = b'/' ∷ join_slash (resolve [] (split_slash path))

backslashes : List ℕ → List ℕ
backslashes s = map (λ c. if eqb c b'/' then b'\\' else c) s

is_collapsed : List ℕ → Bool
is_collapsed s = same_codes s (codes ".") || is_empty s

lower_drive : Platform → List ℕ → List ℕ
lower_drive p [] = codes ":"
lower_drive p (c ∷ cs) = p.lower c ++ (b':' ∷ drop 1 cs)

unfoldable pub normalize_unc : Platform → List ℕ → Result LeaseError (List ℕ)
unfolding backslashes is_collapsed
normalize_unc p path = do
  require (not (is_collapsed (p.ntpath_normpath path))) resource_identity_error
  ok (p.casefold (p.nfc (backslashes (p.ntpath_normpath path))))

unfoldable pub normalize_drive : Platform → List ℕ → Result LeaseError (List ℕ)
unfolding backslashes is_collapsed lower_drive
normalize_drive p path = do
  require (has_drive_root path) resource_identity_error
  require (not (is_collapsed (p.ntpath_normpath path))) resource_identity_error
  ok (p.casefold (p.nfc (lower_drive p (backslashes (p.ntpath_normpath path)))))

root_or : List ℕ → List ℕ
root_or [] = codes "/"
root_or (c ∷ cs) = c ∷ cs

unfoldable pub normalize_posix : Platform → List ℕ → Result LeaseError (List ℕ)
unfolding root_or
normalize_posix p path = do
  require (is_posix_absolute path) resource_identity_error
  require (not (same_codes (posix_normpath path) (codes "."))) resource_identity_error
  ok (p.nfc (root_or (posix_normpath path)))

unfoldable pub normalize_worktree_path : Platform → List ℕ → Result LeaseError (List ℕ)
normalize_worktree_path p raw =
    let path = strip raw in
    do
      require (not (is_empty path)) resource_identity_error
      require (leb (length path) max_path_len) resource_identity_error
      require (not (has_control path)) resource_identity_error
      if is_windows_unc path
          then normalize_unc p path
          else if is_windows_drive p path
          then normalize_drive p path
          else normalize_posix p path

-- `_validate_host_id`
unfoldable pub is_host_id : List ℕ → Bool
is_host_id host =
    not (is_empty host)
    && same_codes host (strip host)
    && leb (length host) 64
    && not (has_control host)

-- `_canonical_json(resource.canonical_dict())`: the keys are sorted.
unfoldable pub canonical_json : List ℕ → List ℕ → List ℕ
canonical_json host path =
    codes "{\"contract_version\":1,\"host_id\":\""
    ++ (escape host
        ++ (codes "\",\"normalized_path\":\""
            ++ (escape path ++ codes "\",\"resource_kind\":\"worktree\"}")))

unfoldable pub compute_resource_key : Platform → List ℕ → List ℕ → List ℕ
compute_resource_key p host path = codes "sha256:" ++ p.sha256_hex (canonical_json host path)
