-- ===== src/Lease.antt =====
-- The execution lease of multinexus/agentd/execution_lease.py: the envelope and its parser. Texts are
-- checked as code points.
use multinexus.Base.{
  ℕ, zero, suc, ◌+◌, ◌-◌, String, Bool, true, false, not, ◌&&◌, ◌||◌, Option, none, some, List, [],
  ◌∷◌, ◌++◌, ◌==◌, string_eq, if◌then◌else◌, ltb, leb, eqb, length, all,
}
use multinexus.Base.Text.{
  codes, strip, is_empty, is_digit, is_lower_hex, is_ascii_letter, same_codes,
}
use multinexus.Base.Value.{ℤ, pos, negsuc, Value, Members, empty, member, lookup, get}
use Value.{int, text, object}
use multinexus.Base.Result.{Result, ok, err, ◌>>=◌, ◌>>◌, require}
pub mod Validators
pub mod Parse
pub mod Resource
pub mod Validate
pub mod Bounds
pub mod Accepted
pub mod CanonicalJson
pub mod Examples

-- What the parser takes from Python's Unicode tables, calendar, path and hash modules.
pub record Platform : Type 0 where
  -- `\d` and `str.isalpha` on one character
  pub is_decimal : ℕ → Bool
  pub is_alpha : ℕ → Bool
  -- `datetime.strptime(s, "%Y-%m-%dT%H:%M:%SZ")`, in seconds from the first of January of year 1
  pub strptime : String → Option ℕ
  -- `ntpath.normpath`, NFC, `str.lower` of a drive letter and `str.casefold`
  pub ntpath_normpath : List ℕ → List ℕ
  pub nfc : List ℕ → List ℕ
  pub lower : ℕ → List ℕ
  pub casefold : List ℕ → List ℕ
  -- the digest of the UTF-8 encoding, in hexadecimal digits
  pub sha256_hex : List ℕ → List ℕ

-- `ExecutionLeaseError` and `ResourceIdentityError`
pub data LeaseError : Type 0 where
  lease_error resource_identity_error : LeaseError

pub record ExecutionLease : Type 0 where
  pub lease_id : String
  pub job_id : String
  pub attempt_token : ℕ
  pub agent_id : String
  pub runner_profile_id : String
  pub host_id : String
  pub resource_kind : String
  pub resource_key : String
  pub normalized_path : String
  pub capacity_policy_id : String
  pub max_concurrent_jobs : ℕ
  pub acquired_at : String
  pub expires_at : String
  pub server_now : String
  pub ttl_seconds : ℕ
  pub renew_interval_seconds : ℕ

-- `$` at the end of a pattern also matches before a final line feed.
abbrev pub end_of_text : List ℕ → Bool
end_of_text [] = true
end_of_text (c ∷ cs) = eqb c b'\n' && is_empty cs

-- A pattern with one test for each character.
unfoldable pub match_all : List (ℕ → Bool) → List ℕ → Bool
match_all [] s = end_of_text s
match_all (t ∷ ts) [] = false
match_all (t ∷ ts) (c ∷ cs) = t c && match_all ts cs

abbrev pub times {ℓ} : {A : Type ℓ} → ℕ → A → List A → List A
times zero x rest = rest
times (suc n) x rest = x ∷ times n x rest

abbrev pub literally : List ℕ → List (ℕ → Bool) → List (ℕ → Bool)
literally [] rest = rest
literally (c ∷ cs) rest = (λ d. eqb d c) ∷ literally cs rest

-- `_LEASE_ID_RE`
unfoldable pub is_lease_id : List ℕ → Bool
is_lease_id =
    let dash = literally (codes "-") in
    match_all (
      times 8 is_lower_hex (
        dash (
          times 4 is_lower_hex (
            dash (
              times 4 is_lower_hex
                (dash (times 4 is_lower_hex (dash (times 12 is_lower_hex [])))))))))

-- `_DIGEST_RE`
unfoldable pub is_digest : List ℕ → Bool
is_digest = match_all (literally (codes "sha256:") (times 64 is_lower_hex []))

-- `_TS_RE`
unfoldable pub is_timestamp : Platform → List ℕ → Bool
is_timestamp p =
    let two : List (ℕ → Bool) → List (ℕ → Bool) = λ rest. times 2 p.is_decimal rest in
    match_all (
      times 4 p.is_decimal (
        literally (codes "-") (
          two (
            literally (codes "-") (
              two (
                literally (codes "T") (
                  two (
                    literally (codes ":")
                      (two (literally (codes ":") (two (literally (codes "Z") []))))))))))))

unfoldable pub is_label_char : ℕ → Bool
is_label_char c = is_ascii_letter c || is_digit c || eqb c b'_' || eqb c b'.' || eqb c b'-'

-- `_SAFE_LABEL_RE`: some label characters, then `$`.
label_rest : List ℕ → Bool
label_rest [] = true
label_rest (c ∷ cs) = let rest = label_rest cs in (is_label_char c && rest) || end_of_text (c ∷ cs)

unfoldable pub is_label : List ℕ → Bool
unfolding label_rest
is_label [] = false
is_label (c ∷ cs) = is_label_char c && label_rest cs

-- `_CONTROL_RE.search`
unfoldable pub has_control : List ℕ → Bool
has_control s = not (all (λ c. leb 32 c && not (eqb c 127)) s)
