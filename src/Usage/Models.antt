-- ===== src/Usage/Models.antt =====
-- The model keys of a `dict` that multinexus/usage.py accepts.
use multinexus.Base.{
  both, ℕ, suc, ◌≤◌, ◌≡◌, ◌≢◌, refl, String, true, not, List, [], ◌∷◌, arith, leb, leb→le, length,
  all, All, Bool-cases, inl, inr,
}
use multinexus.Base.Text.{codes, strip, is_empty, same_codes-eq, eq-same_codes}
use multinexus.Base.Value.{Value, Members, empty, member}
use multinexus.Usage.{max_model_len, is_valid_model_key}
use multinexus.Usage.Normalize.{records_of}

-- A key is not empty, has no white space at its ends, at most 256 characters and no control characters.
unfoldable pub IsModelKey : String → Type 0
IsModelKey key =
    (codes key ≡ strip (codes key))
    × (codes key ≢ [])
    × (length (codes key) ≤ 256)
    × All (λ c. 32 ≤ c) (codes key)

-- The number of members with such a key.
pub data Counts : Members → ℕ → Type 0 where
  no_members : Counts empty 0
  counted :
      {key : String} {raw : Value} {ms : Members} {n : ℕ}
      → IsModelKey key
      → Counts ms n
      → Counts (member key raw ms) (suc n)
  passed_over :
      {key : String} {raw : Value} {ms : Members} {n : ℕ}
      → ¬ IsModelKey key
      → Counts ms n
      → Counts (member key raw ms) n

nonempty-≢ : (s : List ℕ) → not (is_empty s) ≡ true → s ≢ []
nonempty-≢ [] h e = cc
nonempty-≢ (c ∷ cs) h e = cc

≢-nonempty : (s : List ℕ) → s ≢ [] → not (is_empty s) ≡ true
≢-nonempty [] h = absurd (h refl)
≢-nonempty (c ∷ cs) h = refl

printable-All : (s : List ℕ) → all (λ c. leb 32 c) s ≡ true → All (λ c. 32 ≤ c) s
printable-All [] h = tt
printable-All (c ∷ cs) h =
    let (first, rest) = both _ _ h in (leb→le 32 c first, printable-All cs rest)

All-printable : (s : List ℕ) → All (λ c. 32 ≤ c) s → all (λ c. leb 32 c) s ≡ true
All-printable [] h = refl
All-printable (c ∷ cs) (h, hs) =
    let first : leb 32 c ≡ true = ground arith in rw first (All-printable cs hs)

pub valid-IsModelKey : (key : String) → is_valid_model_key key ≡ true → IsModelKey key
unfolding is_valid_model_key IsModelKey
valid-IsModelKey key h =
    let (h1, printable) = both _ _ h in
    let (h2, short) = both _ _ h1 in
    let (stripped, nonempty) = both _ _ h2 in
    (
      same_codes-eq (codes key) (strip (codes key)) stripped,
      nonempty-≢ (codes key) nonempty,
      leb→le (length (codes key)) max_model_len short,
      printable-All (codes key) printable,
    )

IsModelKey-valid : (key : String) → IsModelKey key → is_valid_model_key key ≡ true
unfolding is_valid_model_key IsModelKey
IsModelKey-valid key (stripped, nonempty, short, printable) =
    let within : leb (length (codes key)) max_model_len ≡ true = ground arith in
    rw
      (
        eq-same_codes (codes key) (strip (codes key)) stripped,
        ≢-nonempty (codes key) nonempty,
        within,
        All-printable (codes key) printable,
      )
      refl

-- Every such member, and no other, gives a record.
pub records_of-Counts :
    (provider : String) (ms : Members) → Counts ms (length (records_of provider ms))
unfolding records_of
records_of-Counts provider empty = Counts.no_members
records_of-Counts provider (member key raw ms) =
    let rest = records_of-Counts provider ms in
    elim (Bool-cases (is_valid_model_key key)) [
      | inl h ↦ rw h (Counts.counted (valid-IsModelKey key h) rest)
      | inr h ↦ rw h (Counts.passed_over (λ k. let g = IsModelKey-valid key k in cc) rest)
    ]
