-- ===== src/Lease/Validators.antt =====
-- The validators of the fields of a lease in multinexus/agentd/execution_lease.py.
use multinexus.Base.{
  ℕ, suc, ◌≤◌, ◌≡◌, ap, ◌∙◌, String, Bool, true, false, not, ◌&&◌, ◌||◌, Option, none, some, List,
  [], ◌∷◌, string_eq, if◌then◌else◌, arith, leb, eqb, length, inl, inr,
}
use multinexus.Base.Text.{codes, strip, is_empty}
use multinexus.Base.Value.{pos, Value}
use Value.{null, boolean, int, float, decimal, text, array, object}
use multinexus.Base.Result.{Result, ok, err, ◌>>=◌, ◌>>◌, require, Result-cases}
use multinexus.Lease.{
  Platform, LeaseError, lease_error, is_lease_id, is_digest, is_timestamp, is_label, has_control,
}

abbrev pub max_label_len : ℕ
max_label_len = 256

abbrev pub max_path_len : ℕ
max_path_len = 4096

unfoldable pub required_string : Value → Result LeaseError String
required_string (text s) =
    if is_empty (codes s)
    then err lease_error
    else if is_empty (strip (codes s))
    then err lease_error
    else ok s
required_string _ = err lease_error

unfoldable pub bounded_label : Value → Result LeaseError String
bounded_label v = do
  s ← required_string v
  require (leb (length (codes s)) max_label_len) lease_error
  require (is_label (codes s)) lease_error
  ok s

unfoldable pub lease_id_of : Value → Result LeaseError String
lease_id_of v = do s ← required_string v; require (is_lease_id (codes s)) lease_error; ok s

unfoldable pub digest_of : Value → Result LeaseError String
digest_of v = do s ← required_string v; require (is_digest (codes s)) lease_error; ok s

is_date : Option ℕ → Bool
is_date none = false
is_date (some n) = true

unfoldable pub timestamp_of : Platform → Value → Result LeaseError String
unfolding is_date
timestamp_of p v = do
  s ← required_string v
  require (is_timestamp p (codes s)) lease_error
  require (is_date (p.strptime s)) lease_error
  ok s

-- `path[0].isalpha() and path[1] == ":"`
unfoldable pub is_windows_drive : Platform → List ℕ → Bool
is_windows_drive p (c ∷ d ∷ cs) = p.is_alpha c && eqb d b':'
is_windows_drive p _ = false

unfoldable pub is_slash : ℕ → Bool
is_slash c = eqb c b'\\' || eqb c b'/'

-- `path[:2] in ("\\\\", "//")`
unfoldable pub is_windows_unc : List ℕ → Bool
is_windows_unc (c ∷ d ∷ cs) = is_slash c && eqb c d
is_windows_unc _ = false

-- `len(path) > 2 and path[2] in ("\\", "/")`
unfoldable pub has_drive_root : List ℕ → Bool
has_drive_root (c ∷ d ∷ e ∷ cs) = is_slash e
has_drive_root _ = false

unfoldable pub is_posix_absolute : List ℕ → Bool
is_posix_absolute [] = false
is_posix_absolute (c ∷ cs) = eqb c b'/'

unfoldable pub is_absolute_worktree_path : Platform → List ℕ → Bool
is_absolute_worktree_path p path =
    if is_windows_unc path
    then true
    else if is_windows_drive p path
    then has_drive_root path
    else is_posix_absolute path

unfoldable pub path_of : Platform → Value → Result LeaseError String
path_of p v = do
  s ← required_string v
  require (leb (length (codes s)) max_path_len) lease_error
  require (not (has_control (codes s))) lease_error
  require (is_absolute_worktree_path p (codes s)) lease_error
  ok s

unfoldable pub positive_int : Value → Result LeaseError ℕ
positive_int (int (pos (suc n))) = ok (suc n)
positive_int _ = err lease_error

unfoldable pub ttl_of : Value → Result LeaseError ℕ
ttl_of v = do ttl ← positive_int v; require (leb 30 ttl && leb ttl 600) lease_error; ok ttl

unfoldable pub max_concurrent_jobs_of : Value → Result LeaseError ℕ
max_concurrent_jobs_of v = do n ← positive_int v; require (leb n 32) lease_error; ok n

pub required_string-eq-ok : (v : Value) (s : String) → required_string v ≡ ok s → v ≡ text s
unfolding required_string
required_string-eq-ok (text t) s h = ground arith
required_string-eq-ok null s h = cc
required_string-eq-ok (boolean b) s h = cc
required_string-eq-ok (int n) s h = cc
required_string-eq-ok (float t) s h = cc
required_string-eq-ok (decimal d) s h = cc
required_string-eq-ok (array vs) s h = cc
required_string-eq-ok (object ms) s h = cc

pub bounded_label-eq-ok :
    (v : Value) (s : String)
    → bounded_label v ≡ ok s
    → (v ≡ text s) × (length (codes s) ≤ 256) × (is_label (codes s) ≡ true)
unfolding bounded_label
bounded_label-eq-ok v s h = elim (Result-cases (required_string v)) [
  | inr (x, e) ↦ absurd (ground arith)
  | inl (t, e) ↦
      let same : t ≡ s = ground arith in
      (required_string-eq-ok v t e ∙ ap text same, ground arith, ground arith)
]
