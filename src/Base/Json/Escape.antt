-- ===== src/Base/Json/Escape.antt =====
-- The escapes of a text in canonical JSON can be read back.
use Prim.Native.Nat.{ℕ, ◌+◌, ◌-◌, ◌*◌, ◌/◌, ◌%◌, ◌<◌}
use mathlib.Core.Path.{◌≡◌, refl, sym, ap, ◌∙◌}
use mathlib.Core.Logic.{inl, inr}
use mathlib.Core.Option.{Option, none, some, some-injective}
use mathlib.Core.List.{List, [], ◌∷◌, ◌++◌, append_assoc}
use native.Mathlib.Omega.{arith}
use multinexus.Base.Tests.{if◌then◌else◌, eqb, ltb, ltb→lt, Bool-cases}
use multinexus.Base.Json.{hex_digit, escape_char, escape}

hex_value : ℕ → ℕ
hex_value d = if ltb d b'a' then d - b'0' else d - b'a' + 10

unescape_hex : List ℕ → Option (ℕ × List ℕ)
unescape_hex (y ∷ z ∷ high ∷ low ∷ rest) = some (hex_value high * 16 + hex_value low, rest)
unescape_hex _ = none

-- What follows a backslash.
unescape_after : List ℕ → Option (ℕ × List ℕ)
unescape_after [] = none
unescape_after (b ∷ rest) =
    if eqb b b'n'
    then some (10, rest)
    else if eqb b b'r'
    then some (13, rest)
    else if eqb b b't'
    then some (9, rest)
    else if eqb b b'f'
    then some (12, rest)
    else if eqb b b'b'
    then some (8, rest)
    else if eqb b b'u'
    then unescape_hex rest
    else some (b, rest)

-- The first character of a JSON text, and what follows; `none` at the closing quotation mark.
unescape : List ℕ → Option (ℕ × List ℕ)
unfolding unescape_after unescape_hex
unescape [] = none
unescape (c ∷ cs) =
    if eqb c b'"' then none else if eqb c b'\\' then unescape_after cs else some (c, cs)

hex_value-hex_digit : (n : ℕ) → n < 16 → hex_value (hex_digit n) ≡ n
unfolding hex_value hex_digit
hex_value-hex_digit n h = ground arith

hex_digits :
    (c : ℕ) → c < 32 → hex_value (hex_digit (c / 16)) * 16 + hex_value (hex_digit (c % 16)) ≡ c
hex_digits c h =
    let high = hex_value-hex_digit (c / 16) (omega arith) in
    let low = hex_value-hex_digit (c % 16) (omega arith) in omega arith

unescape-escape_char : (c : ℕ) (rest : List ℕ) → unescape (escape_char c ++ rest) ≡ some (c, rest)
unfolding unescape unescape_after unescape_hex escape_char
unescape-escape_char c rest = elim (Bool-cases (eqb c b'"')) [
  | inl e ↦ ground arith
  | inr e1 ↦ elim (Bool-cases (eqb c b'\\')) [
    | inl e ↦ ground arith
    | inr e2 ↦ elim (Bool-cases (ltb c 32)) [
      | inl e ↦ ground (arith, hex_digits c (ltb→lt c 32 e))
      | inr e ↦ ground arith
    ]
  ]
]

unescape-quote : (r : List ℕ) → unescape (b'"' ∷ r) ≡ none
unfolding unescape
unescape-quote r = refl

unescape-escape :
    (c : ℕ) (cs rest : List ℕ) → unescape (escape (c ∷ cs) ++ rest) ≡ some (c, escape cs ++ rest)
unfolding escape
unescape-escape c cs rest =
    ap unescape (append_assoc (escape_char c) (escape cs) rest)
    ∙ unescape-escape_char c (escape cs ++ rest)

pub escape-injective :
    (xs ys r s : List ℕ) → escape xs ++ (b'"' ∷ r) ≡ escape ys ++ (b'"' ∷ s) → (xs ≡ ys) × (r ≡ s)
unfolding escape
escape-injective [] [] r s h = (refl, cc)
escape-injective [] (y ∷ ys) r s h =
    let e : unescape (b'"' ∷ r) ≡ none = unescape-quote r in
    absurd (let g = sym e ∙ ap unescape h ∙ unescape-escape y ys (b'"' ∷ s) in cc)
escape-injective (x ∷ xs) [] r s h =
    let e : unescape (b'"' ∷ s) ≡ none = unescape-quote s in
    absurd (let g = sym e ∙ sym (ap unescape h) ∙ unescape-escape x xs (b'"' ∷ r) in cc)
escape-injective (x ∷ xs) (y ∷ ys) r s h =
    let g : some (x, escape xs ++ (b'"' ∷ r)) ≡ some (y, escape ys ++ (b'"' ∷ s)) =
      sym (unescape-escape x xs (b'"' ∷ r)) ∙ ap unescape h ∙ unescape-escape y ys (b'"' ∷ s) in
    let pair : (x, escape xs ++ (b'"' ∷ r)) ≡ (y, escape ys ++ (b'"' ∷ s)) = some-injective _ _ g in
    let rest : (xs ≡ ys) × (r ≡ s) = escape-injective xs ys r s (ap (λ q. q.1) pair) in
    (whole x y xs ys (ap (λ q. q.0) pair) rest.0, rest.1)
  where
    whole : (a b : ℕ) (l m : List ℕ) → a ≡ b → l ≡ m → a ∷ l ≡ b ∷ m
    whole a b l m e f = cc
