-- ===== src/Lease/Bounds.antt =====
-- The numbers and the times of a lease that multinexus/agentd/execution_lease.py parses.
use multinexus.Base.{
  ℕ, zero, suc, ◌+◌, ◌-◌, ◌≤◌, ◌<◌, ◌≡◌, ap, ◌∙◌, String, ◌&&◌, some, string_eq, arith, ltb, leb,
  eqb, Option-cases, inl, inr,
}
use multinexus.Base.Value.{pos, negsuc, Value, Members, get}
use Value.{null, boolean, int, float, decimal, text, array, object}
use multinexus.Base.Result.{ok, after_bind, after_require}
use multinexus.Lease.{Platform, lease_error, ExecutionLease}
use multinexus.Lease.Validators.{positive_int, ttl_of, max_concurrent_jobs_of}
use multinexus.Lease.Parse.{
  parse_execution_lease, parse_fields-FieldsOf, FieldsOf, has_envelope_keys, is_contract_version,
  check_times, parse_iso,
}

-- The lease runs at the server's time, and from `acquired_at` to `expires_at` are `ttl_seconds`.
unfoldable pub IsRunning : Platform → ExecutionLease → Type 0
IsRunning p l =
    (acquired : ℕ) × (server : ℕ) × (p.strptime l.acquired_at ≡ some acquired)
    × (p.strptime l.server_now ≡ some server)
    × (p.strptime l.expires_at ≡ some (acquired + l.ttl_seconds))
    × (acquired ≤ server)
    × (server < acquired + l.ttl_seconds)

unfoldable pub IsBounded : ExecutionLease → Type 0
IsBounded l =
    (1 ≤ l.attempt_token)
    × (30 ≤ l.ttl_seconds)
    × (l.ttl_seconds ≤ 600)
    × (1 ≤ l.renew_interval_seconds)
    × (l.renew_interval_seconds < l.ttl_seconds)
    × (1 ≤ l.max_concurrent_jobs)
    × (l.max_concurrent_jobs ≤ 32)
    × (l.resource_kind ≡ "worktree")

parse_iso-eq : (p : Platform) (s : String) (n : ℕ) → parse_iso p s ≡ ok n → p.strptime s ≡ some n
unfolding parse_iso
parse_iso-eq p s n h = elim (Option-cases (p.strptime s)) [
  | inl e ↦ absurd (ground arith)
  | inr (m, e) ↦ ground arith
]

check_times-IsRunning : (p : Platform) (l : ExecutionLease) → check_times p l ≡ ok l → IsRunning p l
unfolding check_times
check_times-IsRunning p l h = after_bind (parse_iso p l.acquired_at) _ h λ acquired e1 h1.
    after_bind (parse_iso p l.expires_at) _ h1 λ expires e2 h2.
      after_bind (parse_iso p l.server_now) _ h2 λ server e3 h3.
        after_require (leb acquired server && ltb server expires) lease_error _ h3 λ order h4.
          after_require (eqb (expires - acquired) l.ttl_seconds) lease_error _ h4 λ interval h5.
            let e : expires ≡ acquired + l.ttl_seconds = ground arith in
            unfold IsRunning in
            (
              acquired,
              server,
              parse_iso-eq p l.acquired_at acquired e1,
              parse_iso-eq p l.server_now server e3,
              parse_iso-eq p l.expires_at expires e2 ∙ ap some e,
              ground arith,
              ground arith,
            )

positive_int-bound : (v : Value) (n : ℕ) → positive_int v ≡ ok n → 1 ≤ n
unfolding positive_int
positive_int-bound (int (pos (suc m))) n h = ground arith
positive_int-bound (int (pos zero)) n h = cc
positive_int-bound (int (negsuc m)) n h = cc
positive_int-bound null n h = cc
positive_int-bound (boolean b) n h = cc
positive_int-bound (float t) n h = cc
positive_int-bound (decimal d) n h = cc
positive_int-bound (text s) n h = cc
positive_int-bound (array vs) n h = cc
positive_int-bound (object ms) n h = cc

ttl_of-bounds : (v : Value) (n : ℕ) → ttl_of v ≡ ok n → (30 ≤ n) × (n ≤ 600)
unfolding ttl_of
ttl_of-bounds v n h =
    after_bind (positive_int v) _ h
      λ m e1 h1. after_require (leb 30 m && leb m 600) lease_error _ h1 λ e2 h2. ground arith

max_concurrent_jobs_of-bounds :
    (v : Value) (n : ℕ) → max_concurrent_jobs_of v ≡ ok n → (1 ≤ n) × (n ≤ 32)
unfolding max_concurrent_jobs_of
max_concurrent_jobs_of-bounds v n h = after_bind (positive_int v) _ h λ m e1 h1.
    after_require (leb m 32) lease_error _ h1 λ e2 h2. ground (arith, positive_int-bound v m e1)

FieldsOf-IsBounded :
    (p : Platform) (ms : Members) (l : ExecutionLease)
    → FieldsOf p ms l
    → IsBounded l × IsRunning p l
unfolding FieldsOf IsBounded
FieldsOf-IsBounded p ms l (a, b, c, d, e, f, g, i, j, k, m, n, o, q, r) =
    let (low, high) = ttl_of-bounds _ l.ttl_seconds n in
    let (some_jobs, jobs) = max_concurrent_jobs_of-bounds _ l.max_concurrent_jobs m in
    (
      (
        positive_int-bound _ l.attempt_token c,
        low,
        high,
        positive_int-bound _ l.renew_interval_seconds o,
        q,
        some_jobs,
        jobs,
        g,
      ),
      check_times-IsRunning p l r,
    )

pub parse-IsBounded :
    (p : Platform) (v : Value) (l : ExecutionLease)
    → parse_execution_lease p v ≡ ok l
    → IsBounded l × IsRunning p l
unfolding parse_execution_lease
parse-IsBounded p (object ms) l h = after_require (has_envelope_keys ms) lease_error _ h λ e1 h1.
    after_require (is_contract_version (get "contract_version" ms)) lease_error _ h1
      λ e2 h2. FieldsOf-IsBounded p ms l (parse_fields-FieldsOf p ms l h2)
parse-IsBounded p null l h = cc
parse-IsBounded p (boolean b) l h = cc
parse-IsBounded p (int n) l h = cc
parse-IsBounded p (float t) l h = cc
parse-IsBounded p (decimal d) l h = cc
parse-IsBounded p (text s) l h = cc
parse-IsBounded p (array vs) l h = cc
