-- ===== src/Sessions/Like.antt =====
-- The SQL `LIKE` operator as `list_by_scope_prefix` of multinexus/sessions/store.py uses it, with
-- `ESCAPE '\'`, over code points. SQLite compares ASCII letters without regard to case.
use multinexus.Base.{
  ap, ◌≢◌, ℕ, ◌+◌, ◌≡◌, refl, Bool, true, false, ◌&&◌, ◌||◌, List, [], ◌∷◌, ◌++◌, arith,
  if◌then◌else◌, leb, eqb, Bool-cases, inl, inr,
}

abbrev pub percent : ℕ
percent = b'%'

abbrev pub underscore : ℕ
underscore = b'_'

abbrev pub backslash : ℕ
backslash = 92

unfoldable pub fold_case : ℕ → ℕ
fold_case c = if leb b'A' c && leb c b'Z' then c + 32 else c

same_letter : ℕ → ℕ → Bool
unfolding fold_case
same_letter a b = eqb (fold_case a) (fold_case b)

-- What a pattern asks of the next characters: any number of them, any one, or a given one.
pub data Item : Type 0 where
  many : Item
  one : Item
  char : ℕ → Item

-- The pattern with its escapes read.
unfoldable pub items : List ℕ → List Item
items [] = []
items (c ∷ []) = (if eqb c percent then many else if eqb c underscore then one else char c) ∷ []
items (c ∷ d ∷ cs) =
    let escaped = char d ∷ items cs in
    let plain = items (d ∷ cs) in
    if eqb c backslash
    then escaped
    else (if eqb c percent then many else if eqb c underscore then one else char c) ∷ plain

some_suffix : (List ℕ → Bool) → List ℕ → Bool
some_suffix p [] = p []
some_suffix p (c ∷ cs) = p (c ∷ cs) || some_suffix p cs

matches : List Item → List ℕ → Bool
unfolding some_suffix same_letter
matches [] [] = true
matches [] (c ∷ cs) = false
matches (many ∷ ps) s = some_suffix (matches ps) s
matches (one ∷ ps) [] = false
matches (one ∷ ps) (c ∷ cs) = matches ps cs
matches (char p ∷ ps) [] = false
matches (char p ∷ ps) (c ∷ cs) = same_letter p c && matches ps cs

-- `text LIKE pattern ESCAPE '\'`
unfoldable pub like : List ℕ → List ℕ → Bool
unfolding items matches
like text pattern = matches (items pattern) text

-- `value.replace(c, "\" + c)` for one character `c`
replace_escaped : ℕ → List ℕ → List ℕ
replace_escaped c [] = []
replace_escaped c (d ∷ ds) =
    let rest = replace_escaped c ds in if eqb d c then backslash ∷ c ∷ rest else d ∷ rest

-- `_escape_like`
unfoldable pub escape_like : List ℕ → List ℕ
unfolding replace_escaped
escape_like value =
    replace_escaped underscore (replace_escaped percent (replace_escaped backslash value))

-- `text` starts with `prefix` up to the case of ASCII letters.
unfoldable pub has_prefix_nocase : List ℕ → List ℕ → Bool
unfolding same_letter
has_prefix_nocase [] s = true
has_prefix_nocase (p ∷ ps) [] = false
has_prefix_nocase (p ∷ ps) (c ∷ cs) = same_letter p c && has_prefix_nocase ps cs

is_special : ℕ → Bool
is_special c = eqb c backslash || eqb c percent || eqb c underscore

escape_like-cons :
    (c : ℕ) (cs : List ℕ)
    → escape_like (c ∷ cs)
      ≡ (if is_special c then backslash ∷ c ∷ escape_like cs else c ∷ escape_like cs)
unfolding escape_like is_special
escape_like-cons c cs = ground arith

-- The pattern that the program builds.
abbrev pub prefix_pattern : List ℕ → List ℕ
prefix_pattern p = escape_like p ++ percent ∷ []

prefix_items : List ℕ → List Item
prefix_items [] = many ∷ []
prefix_items (c ∷ cs) = char c ∷ prefix_items cs

items-plain :
    (c : ℕ) (ds : List ℕ) → is_special c ≡ false → ds ≢ [] → items (c ∷ ds) ≡ char c ∷ items ds
unfolding items is_special
items-plain c [] h n = absurd (n refl)
items-plain c (d ∷ ds) h n = ground arith

items-escaped : (c : ℕ) (ds : List ℕ) → items (backslash ∷ c ∷ ds) ≡ char c ∷ items ds
unfolding items
items-escaped c ds = refl

prefix_pattern-ne-nil : (p : List ℕ) → prefix_pattern p ≢ []
unfolding escape_like
prefix_pattern-ne-nil [] = cc
prefix_pattern-ne-nil (c ∷ cs) = rw (escape_like-cons c cs) (ground arith)

items-prefix_pattern : (p : List ℕ) → items (prefix_pattern p) ≡ prefix_items p
unfolding prefix_items
items-prefix_pattern [] = unfold items escape_like in refl
items-prefix_pattern (c ∷ cs) = elim (Bool-cases (is_special c)) [
  | inl e ↦
      rw (escape_like-cons c cs, e)
        (rw (items-escaped c (prefix_pattern cs)) (ap (λ r. char c ∷ r) (items-prefix_pattern cs)))
  | inr e ↦
      rw (escape_like-cons c cs, e)
        (rw (items-plain c (prefix_pattern cs) e (prefix_pattern-ne-nil cs))
          (ap (λ r. char c ∷ r) (items-prefix_pattern cs)))
]

some_suffix-nil : (s : List ℕ) → some_suffix (matches []) s ≡ true
unfolding some_suffix matches
some_suffix-nil [] = refl
some_suffix-nil (c ∷ cs) = some_suffix-nil cs

matches-prefix_items : (p s : List ℕ) → matches (prefix_items p) s ≡ has_prefix_nocase p s
unfolding matches prefix_items has_prefix_nocase
matches-prefix_items [] s = some_suffix-nil s
matches-prefix_items (p ∷ ps) [] = refl
matches-prefix_items (p ∷ ps) (c ∷ cs) = ap (λ b. same_letter p c && b) (matches-prefix_items ps cs)

-- The `LIKE` pattern built from any prefix, with `%`, `_` and `\` in it or not, matches exactly the
-- texts that start with the prefix up to the case of ASCII letters.
pub like-prefix_pattern :
    (prefix text : List ℕ) → like text (prefix_pattern prefix) ≡ has_prefix_nocase prefix text
unfolding like
like-prefix_pattern prefix text =
    rw (items-prefix_pattern prefix) (matches-prefix_items prefix text)
