-- ===== src/Base/Json/Injective.antt =====
-- A canonical text is the text of one document only.
use Prim.Native.Nat.{ℕ, zero, suc, ◌+◌, ◌/◌, ◌%◌, ◌<◌, ◌≤◌}
use mathlib.Core.Path.{◌≡◌, refl, sym, ap, ◌∙◌}
use mathlib.Core.Logic.{inl, inr}
use mathlib.Core.Bool.{true, false}
use mathlib.Core.List.{List, [], ◌∷◌}
use native.Mathlib.Omega.{arith}
use multinexus.Base.Tests.{if◌then◌else◌, eqb, ltb, ltb→lt, ltb→le, Bool-cases}
use multinexus.Base.Text.{is_digit}
use multinexus.Base.Json.{
  Json, Items, nil, item, Fields, end, field, digits_onto, print, print_items, print_more_items,
  print_fields, print_more_fields, dumps,
}
use multinexus.Base.Json.Escape.{escape-injective}
use multinexus.Base.Json.Numbers.{IsEnd, number-injective}

-- The kind of a document, by its first character.
tag : List ℕ → ℕ
tag [] = 7
tag (c ∷ cs) =
    if eqb c b'n'
    then 0
    else if eqb c b't'
    then 1
    else if eqb c b'f'
    then 1
    else if eqb c b'"'
    then 3
    else if eqb c b'['
    then 4
    else if eqb c b'{'
    then 5
    else if is_digit c
    then 6
    else 7

kind : Json → ℕ
kind Json.null = 0
kind (Json.boolean b) = 1
kind (Json.number n) = 6
kind (Json.text s) = 3
kind (Json.array vs) = 4
kind (Json.object fs) = 5

tag-digits : (fuel n : ℕ) (rest : List ℕ) → n < fuel → tag (digits_onto fuel n rest) ≡ 6
unfolding digits_onto
tag-digits zero n rest h = absurd (omega arith)
tag-digits (suc fuel) n rest h = elim (Bool-cases (ltb n 10)) [
  | inl e ↦ let small = ltb→lt n 10 e in rw e (unfold tag in ground arith)
  | inr e ↦
      let large = ltb→le n 10 e in
      rw e (tag-digits fuel (n / 10) ((b'0' + n % 10) ∷ rest) (omega arith))
]

tag-print : (v : Json) (r : List ℕ) → tag (print v r) ≡ kind v
unfolding tag kind print
tag-print Json.null r = refl
tag-print (Json.boolean true) r = refl
tag-print (Json.boolean false) r = refl
tag-print (Json.number n) r = unfold print in tag-digits (suc n) n r (omega arith)
tag-print (Json.text s) r = refl
tag-print (Json.array vs) r = refl
tag-print (Json.object fs) r = refl

same_kind : (v w : Json) (r s : List ℕ) → print v r ≡ print w s → kind v ≡ kind w
same_kind v w r s h = sym (tag-print v r) ∙ ap tag h ∙ tag-print w s

tail_of : List ℕ → List ℕ
tail_of [] = []
tail_of (c ∷ cs) = cs

tail : {c d : ℕ} {xs ys : List ℕ} → c ∷ xs ≡ d ∷ ys → xs ≡ ys
unfolding tail_of
tail h = ap tail_of h

kind-bound : (v : Json) → kind v ≤ 6
unfolding kind
kind-bound Json.null = omega arith
kind-bound (Json.boolean b) = omega arith
kind-bound (Json.number n) = omega arith
kind-bound (Json.text s) = omega arith
kind-bound (Json.array vs) = omega arith
kind-bound (Json.object fs) = omega arith

not_bracket : (v : Json) (r s : List ℕ) → b']' ∷ r ≡ print v s → ⊥
not_bracket v r s h =
    let e : tag (b']' ∷ r) ≡ 7 = (unfold tag in refl) in
    omega (arith, kind-bound v, sym e ∙ ap tag h ∙ tag-print v s)

items-IsEnd : (vs : Items) (r : List ℕ) → IsEnd (print_more_items vs r)
unfolding IsEnd print
items-IsEnd nil r = refl
items-IsEnd (item v vs) r = refl

fields-IsEnd : (fs : Fields) (r : List ℕ) → IsEnd (print_more_fields fs r)
unfolding IsEnd print
fields-IsEnd end r = refl
fields-IsEnd (field k v fs) r = refl

mutual
  unfolding print kind

  print-injective :
      (v w : Json) (r s : List ℕ) → IsEnd r → IsEnd s → print v r ≡ print w s → (v ≡ w) × (r ≡ s)
  print-injective Json.null Json.null r s p q h = (refl, cc)
  print-injective (Json.boolean true) (Json.boolean true) r s p q h = (refl, cc)
  print-injective (Json.boolean false) (Json.boolean false) r s p q h = (refl, cc)
  print-injective (Json.boolean true) (Json.boolean false) r s p q h = absurd (ground arith)
  print-injective (Json.boolean false) (Json.boolean true) r s p q h = absurd (ground arith)
  print-injective (Json.number n) (Json.number m) r s p q h =
      let (e, f) = number-injective n m r s p q h in (ap Json.number e, f)
  print-injective (Json.text t) (Json.text u) r s p q h =
      let (e, f) = escape-injective t u r s (tail h) in (ap Json.text e, f)
  print-injective (Json.array vs) (Json.array ws) r s p q h =
      let (e, f) = items-injective vs ws r s p q (tail h) in (ap Json.array e, f)
  print-injective (Json.object fs) (Json.object gs) r s p q h =
      let (e, f) = fields-injective fs gs r s p q (tail h) in (ap Json.object e, f)
  print-injective v w r s p q h = absurd (omega (arith, same_kind v w r s h))

  items-injective :
      (vs ws : Items) (r s : List ℕ)
      → IsEnd r
      → IsEnd s
      → print_items vs r ≡ print_items ws s
      → (vs ≡ ws) × (r ≡ s)
  items-injective nil nil r s p q h = (refl, tail h)
  items-injective nil (item w ws) r s p q h = absurd (not_bracket w r (print_more_items ws s) h)
  items-injective (item v vs) nil r s p q h =
      absurd (not_bracket v s (print_more_items vs r) (sym h))
  items-injective (item v vs) (item w ws) r s p q h =
      let (e, f) =
        print-injective v w (print_more_items vs r) (print_more_items ws s) (items-IsEnd vs r)
          (items-IsEnd ws s) h in
      let (g, k) = more_items-injective vs ws r s p q f in (cc, k)

  more_items-injective :
      (vs ws : Items) (r s : List ℕ)
      → IsEnd r
      → IsEnd s
      → print_more_items vs r ≡ print_more_items ws s
      → (vs ≡ ws) × (r ≡ s)
  more_items-injective nil nil r s p q h = (refl, tail h)
  more_items-injective nil (item w ws) r s p q h = absurd (ground arith)
  more_items-injective (item v vs) nil r s p q h = absurd (ground arith)
  more_items-injective (item v vs) (item w ws) r s p q h =
      let (e, f) =
        print-injective v w (print_more_items vs r) (print_more_items ws s) (items-IsEnd vs r)
          (items-IsEnd ws s) (tail h) in
      let (g, k) = more_items-injective vs ws r s p q f in (cc, k)

  fields-injective :
      (fs gs : Fields) (r s : List ℕ)
      → IsEnd r
      → IsEnd s
      → print_fields fs r ≡ print_fields gs s
      → (fs ≡ gs) × (r ≡ s)
  fields-injective end end r s p q h = (refl, tail h)
  fields-injective end (field k v gs) r s p q h = absurd (ground arith)
  fields-injective (field k v fs) end r s p q h = absurd (ground arith)
  fields-injective (field k v fs) (field j w gs) r s p q h =
      let (key, f) = escape-injective k j _ _ (tail h) in
      let (e, g) =
        print-injective v w (print_more_fields fs r) (print_more_fields gs s) (fields-IsEnd fs r)
          (fields-IsEnd gs s) (tail f) in
      let (rest, t) = more_fields-injective fs gs r s p q g in (cc, t)

  more_fields-injective :
      (fs gs : Fields) (r s : List ℕ)
      → IsEnd r
      → IsEnd s
      → print_more_fields fs r ≡ print_more_fields gs s
      → (fs ≡ gs) × (r ≡ s)
  more_fields-injective end end r s p q h = (refl, tail h)
  more_fields-injective end (field k v gs) r s p q h = absurd (ground arith)
  more_fields-injective (field k v fs) end r s p q h = absurd (ground arith)
  more_fields-injective (field k v fs) (field j w gs) r s p q h =
      let (key, f) = escape-injective k j _ _ (tail (tail h)) in
      let (e, g) =
        print-injective v w (print_more_fields fs r) (print_more_fields gs s) (fields-IsEnd fs r)
          (fields-IsEnd gs s) (tail f) in
      let (rest, t) = more_fields-injective fs gs r s p q g in (cc, t)

pub dumps-injective : (v w : Json) → dumps v ≡ dumps w → v ≡ w
unfolding dumps IsEnd
dumps-injective v w h = (print-injective v w [] [] tt tt h).0
