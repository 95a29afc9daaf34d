-- ===== src/Chunks/Content.antt =====
-- What the chunks of multinexus/message_chunks.py say: the text, less separators between chunks.
use mathlib.Core.Path.{subst}
use multinexus.Base.{
  leb→le, leb→lt, ◌≤◌, false, ◌<◌, ◌⊎◌, ℕ, zero, suc, ◌≡◌, refl, sym, ap, ◌∙◌, true, Option, none,
  some, List, [], ◌∷◌, ◌++◌, if◌then◌else◌, length, take, drop, take-append-drop, All, Bool-cases,
  leb, inl, inr,
}
use multinexus.Base.Text.{drop_while, strip, is_empty}
use multinexus.Chunks.Termination.{
  chunk_loop-last, chunk_loop-next, chunk_message-long, chunk_message-blank, chunk_message-short,
}
use multinexus.Chunks.{prepend, cut_of, is_separator, chunk_loop, chunk_message}

-- The chunks are the text in order; what lies between two chunks, or after the last one, are
-- separators.
pub data Splits : List ℕ → List (List ℕ) → Type 0 where
  nothing : Splits [] []
  whole : (text : List ℕ) → Splits text (text ∷ [])
  piece :
      (chunk gap rest : List ℕ) {chunks : List (List ℕ)}
      → All (λ c. is_separator c ≡ true) gap
      → Splits rest chunks
      → Splits (chunk ++ (gap ++ rest)) (chunk ∷ chunks)

-- The characters that `lstrip` takes away.
unfoldable pub stripped : List ℕ → List ℕ
stripped [] = []
stripped (c ∷ cs) = let rest = stripped cs in if is_separator c then c ∷ rest else []

stripped-append :
    (s : List ℕ)
    → (stripped s ++ drop_while is_separator s ≡ s) × All (λ c. is_separator c ≡ true) (stripped s)
unfolding stripped drop_while
stripped-append [] = (refl, tt)
stripped-append (c ∷ cs) = elim (Bool-cases (is_separator c)) [
  | inl separates ↦
      let (e, gap) = stripped-append cs in rw separates (ap (λ r. c ∷ r) e, (separates, gap))
  | inr other ↦ rw other (refl, tt)
]

Splits-cut :
    (n : ℕ) (text : List ℕ) (chunks : List (List ℕ))
    → Splits (drop_while is_separator (drop n text)) chunks
    → Splits text (take n text ∷ chunks)
Splits-cut n text chunks splits =
    let (e, gap) = stripped-append (drop n text) in
    subst (λ s. Splits s (take n text ∷ chunks))
      (ap (λ r. take n text ++ r) e ∙ take-append-drop n text)
      (piece (take n text) (stripped (drop n text)) _ gap splits)

prepend-eq :
    (chunk : List ℕ) (rest : Option (List (List ℕ))) (chunks : List (List ℕ))
    → prepend chunk rest ≡ some chunks
    → (later : List (List ℕ)) × (rest ≡ some later) × (chunks ≡ chunk ∷ later)
prepend-eq chunk none chunks h = cc
prepend-eq chunk (some later) chunks h = (later, refl, cc)

chunk_loop-Splits :
    (fuel : ℕ) (text : List ℕ) (chunks : List (List ℕ))
    → chunk_loop fuel text ≡ some chunks
    → Splits text chunks
chunk_loop-Splits zero text chunks h = unfold chunk_loop in cc
chunk_loop-Splits (suc fuel) [] chunks h =
    let e : [] ≡ chunks = (unfold chunk_loop in cc) in subst (Splits []) e nothing
chunk_loop-Splits (suc fuel) (c ∷ cs) chunks h = elim (Bool-cases (leb (length (c ∷ cs)) 1900)) [
  | inl short ↦
      let e : (c ∷ cs) ∷ [] ≡ chunks = (let g = chunk_loop-last fuel c cs short in cc) in
      subst (Splits (c ∷ cs)) e (whole (c ∷ cs))
  | inr long ↦
      let (later, e, same) = prepend-eq _ _ chunks (sym (chunk_loop-next fuel c cs long) ∙ h) in
      subst (Splits (c ∷ cs)) (sym same)
        (Splits-cut (cut_of (c ∷ cs)) (c ∷ cs) later (chunk_loop-Splits fuel _ later e))
]

-- The chunks that `chunk_message` returns for a text that is longer than 1900 characters, or not blank,
-- are the text split at runs of line feeds and spaces, which alone are left out; every other text is of
-- blanks, fits into one message and has no chunk.
pub chunk_message-Splits :
    (text : List ℕ) (chunks : List (List ℕ))
    → chunk_message text ≡ some chunks
    → (Splits text chunks × ((1900 < length text) ⊎ (is_empty (strip text) ≡ false)))
      ⊎ ((length text ≤ 1900) × (is_empty (strip text) ≡ true) × (chunks ≡ []))
chunk_message-Splits text chunks h = elim (Bool-cases (leb (length text) 1900)) [
  | inr long ↦ inl (
    chunk_loop-Splits (suc (length text)) text chunks (sym (chunk_message-long text long) ∙ h),
    inl (leb→lt (length text) 1900 long),
  )
  | inl short ↦ elim (Bool-cases (is_empty (strip text))) [
    | inl blank ↦ inr (
      leb→le (length text) 1900 short,
      blank,
      (let g = chunk_message-blank text short blank in cc),
    )
    | inr full ↦
        let e : text ∷ [] ≡ chunks = (let g = chunk_message-short text short full in cc) in
        inl (subst (Splits text) e (whole text), inr full)
  ]
]
