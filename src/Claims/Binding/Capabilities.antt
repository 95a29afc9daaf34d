-- ===== src/Claims/Binding/Capabilities.antt =====
-- The capabilities that multinexus/agentd/executor_binding.py accepts.
use mathlib.Core.Path.{subst, sym}
use multinexus.Base.{
  suc, ◌≤◌, ◌≡◌, ◌≢◌, ap, refl, String, true, false, not, List, [], ◌∷◌, ◌==◌, ==_iff, string_eq,
  arith, leb, length, inl, inr, Bool-cases,
}
use multinexus.Base.Order.{codes_leb, codes_leb_refl}
use multinexus.Base.Text.{codes}
use multinexus.Base.Value.{items_length, Value, Items, nil, item}
use Value.{null, boolean, int, float, decimal, text, array, object}
use multinexus.Base.Result.{ok, after_bind, after_require, ok-injective}
use multinexus.Claims.Validators.{is_in}
use multinexus.Claims.Binding.{
  validate_bounded_label, is_bounded_label, insert_sorted, sorted, same_texts, capability_items,
  validate_capabilities, max_capabilities,
}

pub bounded_label_of-text :
    (v : Value) (s : String)
    → validate_bounded_label v ≡ ok s
    → (v ≡ text s) × (is_bounded_label (codes s) ≡ true)
unfolding validate_bounded_label
bounded_label_of-text (text t) s h = ground arith
bounded_label_of-text null s h = cc
bounded_label_of-text (boolean b) s h = cc
bounded_label_of-text (int n) s h = cc
bounded_label_of-text (float t) s h = cc
bounded_label_of-text (decimal d) s h = cc
bounded_label_of-text (array vs) s h = cc
bounded_label_of-text (object ms) s h = cc

-- Each text is bounded and was not seen before.
AreNew : List String → List String → Type 0
AreNew seen [] = Unit
AreNew seen (s ∷ ss) =
    (is_bounded_label (codes s) ≡ true) × (is_in s seen ≡ false) × AreNew (s ∷ seen) ss

-- Each text is bounded and below the next one, in the order of code points.
Precedes : String → List String → Type 0
Precedes s [] = Unit
Precedes s (t ∷ ts) = (codes_leb (codes s) (codes t) ≡ true) × (s ≢ t)

unfoldable pub AreAscending : List String → Type 0
unfolding Precedes
AreAscending [] = Unit
AreAscending (s ∷ ss) = (is_bounded_label (codes s) ≡ true) × Precedes s ss × AreAscending ss

capability_items-AreNew :
    (seen : List String) (vs : Items) (ss : List String)
    → capability_items seen vs ≡ ok ss
    → (items_length vs ≡ length ss) × AreNew seen ss
unfolding capability_items AreNew items_length
capability_items-AreNew seen nil [] h = (refl, tt)
capability_items-AreNew seen nil (s ∷ ss) h = cc
capability_items-AreNew seen (item v vs) ss h =
    after_bind (validate_bounded_label v) _ h λ cap e1 h1.
      after_require (not (is_in cap seen)) _ _ h1 λ e2 h2.
        after_bind (capability_items (cap ∷ seen) vs) _ h2 λ rest e3 h3.
          let tail = capability_items-AreNew (cap ∷ seen) vs rest e3 in
          subst (λ r. (suc (items_length vs) ≡ length r) × AreNew seen r)
            (ok-injective _ _ _ refl h3)
            (ap suc tail.0, ((bounded_label_of-text v cap e1).1, off cap e2, tail.1))
  where
    off : (s : String) → not (is_in s seen) ≡ true → is_in s seen ≡ false
    off s e = ground arith

same_texts-eq : (xs ys : List String) → same_texts xs ys ≡ true → xs ≡ ys
unfolding same_texts
same_texts-eq [] [] h = refl
same_texts-eq [] (y ∷ ys) h = cc
same_texts-eq (x ∷ xs) [] h = cc
same_texts-eq (x ∷ xs) (y ∷ ys) h =
    let first : x == y ≡ true = ground arith in
    let e = (==_iff x y).0 first in let rest = same_texts-eq xs ys (ground arith) in cc

Below : String → List String → Type 0
Below s [] = Unit
Below s (t ∷ ts) = codes_leb (codes s) (codes t) ≡ true

-- A list that sorting leaves alone: its tail too, and its head is not above the next element.
insert-head :
    (s : String) (ts ss : List String) → insert_sorted s ts ≡ s ∷ ss → (ts ≡ ss) × Below s ss
unfolding insert_sorted Below
insert-head s [] [] h = (refl, tt)
insert-head s [] (x ∷ xs) h = cc
insert-head s (t ∷ ts) ss h = elim (Bool-cases (codes_leb (codes s) (codes t))) [
  | inl e ↦ let same : t ∷ ts ≡ ss = ground arith in (same, subst (Below s) same e)
  | inr e ↦
      let same : t ≡ s = ground arith in
      absurd
        (ground (arith, ap (λ r. codes_leb (codes s) (codes r)) same, codes_leb_refl (codes s)))
]

sorted-tail :
    (s : String) (ss : List String) → sorted (s ∷ ss) ≡ s ∷ ss → (sorted ss ≡ ss) × Below s ss
unfolding sorted
sorted-tail s ss h = insert-head s (sorted ss) ss h

sorted-AreAscending :
    (seen : List String) (ss : List String) → AreNew seen ss → sorted ss ≡ ss → AreAscending ss
unfolding AreNew AreAscending Precedes Below is_in
sorted-AreAscending seen [] new h = tt
sorted-AreAscending seen (s ∷ []) new h = (new.0, tt, tt)
sorted-AreAscending seen (s ∷ t ∷ ts) new h =
    let next = sorted-tail s (t ∷ ts) h in
    let rest = sorted-AreAscending (s ∷ seen) (t ∷ ts) new.2 next.0 in
    (new.0, (next.1, λ same. absurd (ground (arith, new.2.1, (==_iff t s).1 (sym same)))), rest)

-- The accepted capabilities are at most 32 bounded labels in strictly ascending order.
pub validate_capabilities-AreAscending :
    (v : Value) (ss : List String)
    → validate_capabilities v ≡ ok ss
    → (length ss ≤ 32) × AreAscending ss
unfolding validate_capabilities
validate_capabilities-AreAscending (array vs) ss h =
    after_require (leb (items_length vs) max_capabilities) _ _ h λ e1 h1.
      after_bind (capability_items [] vs) _ h1 λ normalized e2 h2.
        after_require (same_texts normalized (sorted normalized)) _ _ h2 λ e3 h3.
          let new = capability_items-AreNew [] vs normalized e2 in
          subst (λ r. (length r ≤ 32) × AreAscending r) (ok-injective _ _ _ refl h3)
            (
              omega (arith, new.0, bound e1),
              sorted-AreAscending [] normalized new.1 (sym (same_texts-eq _ _ e3)),
            )
  where
    bound : leb (items_length vs) 32 ≡ true → items_length vs ≤ 32
    bound e = ground arith
validate_capabilities-AreAscending null ss h = cc
validate_capabilities-AreAscending (boolean b) ss h = cc
validate_capabilities-AreAscending (int n) ss h = cc
validate_capabilities-AreAscending (float t) ss h = cc
validate_capabilities-AreAscending (decimal d) ss h = cc
validate_capabilities-AreAscending (text t) ss h = cc
validate_capabilities-AreAscending (object ms) ss h = cc
