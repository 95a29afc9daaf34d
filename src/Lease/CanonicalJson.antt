-- ===== src/Lease/CanonicalJson.antt =====
-- The canonical text of a worktree resource in multinexus/agentd/execution_lease.py, which is hashed,
-- names one host and one path.
use multinexus.Base.{ℕ, ◌≡◌, ap, List, drop}
use multinexus.Base.Json.Escape.{escape-injective}
use multinexus.Lease.Resource.{canonical_json}

-- The canonical text determines the host and the path, so that two worktrees with one resource key are
-- the same or collide under the hash.
pub canonical_json-injective :
    (host path host' path' : List ℕ)
    → canonical_json host path ≡ canonical_json host' path'
    → (host ≡ host') × (path ≡ path')
unfolding canonical_json
canonical_json-injective host path host' path' h =
    let (hosts, rest) = escape-injective host host' _ _ (ap (drop 33) h) in
    let (paths, end) = escape-injective path path' _ _ (ap (drop 20) rest) in (hosts, paths)
