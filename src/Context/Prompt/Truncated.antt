-- ===== src/Context/Prompt/Truncated.antt =====
-- `_truncate_history_message` of multinexus/context/prompt.py: how long its result is.
use multinexus.Base.{
  ℕ, zero, suc, ◌+◌, ◌-◌, ◌%◌, ◌/◌, ◌*◌, ◌≤◌, ◌<◌, ◌≡◌, true, false, ◌&&◌, List, [], ◌∷◌, ◌++◌,
  if◌then◌else◌, leb, ltb, length, take, arith, Bool-cases, inl, inr, length-append, length-take,
  leb→le, leb→lt, lt→ltb,
}
use Prim.Native.Nat.{max}
use Prim.Native.Char.{Char, code}
use multinexus.Base.Text.{is_space, is_empty}
use multinexus.Base.Chars.{chars, rstrip}
use multinexus.Base.Value.{pos}
use multinexus.Context.Prompt.{
  normalized_space, split_words, join, onto_first, starts_word, digit_char, decimal_chars, str_of,
  shortened, truncate_normalized, truncate_history_message,
}

rstrip-le : (s : List Char) → length (rstrip s) ≤ length s
unfolding rstrip
rstrip-le [] = omega arith
rstrip-le (c ∷ cs) = elim (Bool-cases (is_space (code c) && is_empty (rstrip cs))) [
  | inl e ↦ rw e (omega arith)
  | inr e ↦ rw e (omega (arith, rstrip-le cs))
]

-- 10 ^ (k + 1), the first number with more than `k + 1` digits.
abbrev pub ten_to_next : ℕ → ℕ
ten_to_next zero = 10
ten_to_next (suc k) = 10 * ten_to_next k

decimal_chars-le :
    (fuel k n : ℕ) (rest : List Char)
    → n < ten_to_next k
    → length (decimal_chars fuel n rest) ≤ suc k + length rest
unfolding decimal_chars
decimal_chars-le zero k n rest h = omega arith
decimal_chars-le (suc fuel) zero n rest h = rw (lt→ltb n 10 h) (omega arith)
decimal_chars-le (suc fuel) (suc k) n rest h = elim (Bool-cases (ltb n 10)) [
  | inl e ↦ rw e (omega arith)
  | inr e ↦
      rw e
        (omega (arith, decimal_chars-le fuel k (n / 10) (digit_char (n % 10) ∷ rest) (omega arith)))
]

decimal_chars-pos :
    (fuel n : ℕ) (rest : List Char) → length rest < length (decimal_chars (suc fuel) n rest)
unfolding decimal_chars
decimal_chars-pos zero n rest = elim (Bool-cases (ltb n 10)) [
  | inl e ↦ rw e (omega arith)
  | inr e ↦ rw e (omega arith)
]
decimal_chars-pos (suc fuel) n rest = elim (Bool-cases (ltb n 10)) [
  | inl e ↦ rw e (omega arith)
  | inr e ↦ rw e (omega (arith, decimal_chars-pos fuel (n / 10) (digit_char (n % 10) ∷ rest)))
]

abbrev weight : List (List Char) → ℕ
weight [] = 0
weight (w ∷ ws) = length w + 1 + weight ws

length-join : (ws : List (List Char)) → length (join (chars " ") ws) ≤ weight ws - 1
unfolding join
length-join [] = omega arith
length-join (w ∷ []) = omega arith
length-join (w ∷ v ∷ ws) =
    omega (arith, length-join (v ∷ ws), length-append w (chars " " ++ join (chars " ") (v ∷ ws)))

weight-onto_first :
    (c : Char) (ws : List (List Char)) → weight (onto_first c ws) ≤ max 2 (weight ws + 1)
unfolding onto_first
weight-onto_first c [] = omega arith
weight-onto_first c (w ∷ ws) = omega arith

starts_word-pos : (s : List Char) → starts_word s ≡ true → 1 ≤ length s
unfolding starts_word
starts_word-pos [] h = cc
starts_word-pos (c ∷ cs) h = omega arith

lt→leb : (n : ℕ) → 24 < n → leb n 24 ≡ false
lt→leb n h = ground arith

weight-split_words :
    (s : List Char)
    → (weight (split_words s) ≤ length s + 1)
      × (starts_word s ≡ false → weight (split_words s) ≤ length s)
unfolding split_words
weight-split_words [] = (omega arith, λ h. omega arith)
weight-split_words (c ∷ cs) =
    let (most, after) = weight-split_words cs in
    elim (Bool-cases (is_space (code c))) [
      | inl e ↦ (rw e (omega arith), λ h. rw e (omega arith))
      | inr e ↦ elim (Bool-cases (starts_word cs)) [
        | inl f ↦ (
          rw (e, f) (omega (arith, weight-onto_first c (split_words cs), starts_word-pos cs f)),
          λ h. absurd (ground arith),
        )
        | inr f ↦ (rw (e, f) (omega (arith, after f)), λ h. absurd (ground arith))
      ]
    ]

length-normalized : (s : List Char) → length (normalized_space s) ≤ length s
unfolding normalized_space
length-normalized s = omega (arith, length-join (split_words s), (weight-split_words s).0)

shortened-le :
    (k n : ℕ) (s : List Char)
    → 24 < n
    → length s ≤ ten_to_next k
    → n < length s
    → length (shortened n s) ≤ n + suc k
unfolding shortened str_of
shortened-le k n s h l m =
    let digits = decimal_chars (suc (length s - n)) (length s - n) [] in
    rw (lt→leb n h) (
      omega (
        arith,
        length-append (rstrip (take (n - 20) s))
            (chars " [..." ++ (digits ++ chars " chars omitted]")),
        length-append digits (chars " chars omitted]"),
        rstrip-le (take (n - 20) s),
        length-take (n - 20) s,
        decimal_chars-le (suc (length s - n)) k (length s - n) [] (omega arith),
      ))

is_cut :
    (n : ℕ) (s : List Char) → 0 < n → n < length s → truncate_normalized (pos n) s ≡ shortened n s
unfolding truncate_normalized
is_cut n s h l = ground arith

fits : (n : ℕ) (s : List Char) → length s ≤ n → truncate_normalized (pos n) s ≡ s
unfolding truncate_normalized
fits n s h = ground arith

cut-le :
    (k n : ℕ) (s : List Char)
    → n < length s
    → length s ≤ ten_to_next k
    → length (shortened n s) ≤ n + (if leb n 24 then 0 else suc k)
unfolding shortened
cut-le k n s h l = elim (Bool-cases (leb n 24)) [
  | inl f ↦ rw f (omega (arith, length-take n s))
  | inr f ↦
      let most = shortened-le k n s (leb→lt n 24 f) l h in rw f (unfold shortened in rw f at most)
]

-- A message of at most 10 ^ (k + 1) characters is rendered, at a positive limit, in at most `k + 1`
-- characters more than the limit, and within a limit of at most 24 characters; for the 10000 characters of
-- an envelope's message these are four.
pub truncate_history_message-le :
    (content : List Char) (k n : ℕ)
    → 0 < n
    → length content ≤ ten_to_next k
    → length (truncate_history_message content (pos n)) ≤ n + (if leb n 24 then 0 else suc k)
unfolding truncate_history_message
truncate_history_message-le content k n positive h =
    let s = normalized_space content in
    let most = length-normalized content in
    elim (Bool-cases (leb (length s) n)) [
      | inl e ↦ rw (fits n s (leb→le _ n e)) (omega (arith, leb→le (length s) n e))
      | inr e ↦
          rw (is_cut n s positive (leb→lt _ n e))
            (cut-le k n s (leb→lt _ n e) (omega (arith, most)))
    ]

length-exceeds :
    (n : ℕ) (s : List Char)
    → 24 < n
    → n < length s
    → rstrip (take (n - 20) s) ≡ take (n - 20) s
    → n < length (shortened n s)
unfolding shortened str_of
length-exceeds n s h l k =
    let digits = decimal_chars (suc (length s - n)) (length s - n) [] in
    rw (lt→leb n h, k)
      (omega (
        arith,
        length-append (take (n - 20) s) (chars " [..." ++ (digits ++ chars " chars omitted]")),
        length-append digits (chars " chars omitted]"),
        length-take (n - 20) s,
        decimal_chars-pos (length s - n) (length s - n) [],
      ))

-- Above a limit of 24 the limit is exceeded by every message that is cut at a character that is no
-- white space.
pub truncate_history_message-exceeds :
    (content : List Char) (n : ℕ)
    → 24 < n
    → n < length (normalized_space content)
    → rstrip (take (n - 20) (normalized_space content)) ≡ take (n - 20) (normalized_space content)
    → n < length (truncate_history_message content (pos n))
unfolding truncate_history_message
truncate_history_message-exceeds content n h l k =
    let s = normalized_space content in rw (is_cut n s (omega arith) l) (length-exceeds n s h l k)
