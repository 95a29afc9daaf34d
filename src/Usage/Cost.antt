-- ===== src/Usage/Cost.antt =====
-- The conversion of dollars to millionths of a dollar in multinexus/usage.py.
use native.Mathlib.Nat.{pow-zero, pow-succ', mul_assoc}
use mathlib.Core.Path.{◌≡◌, refl, sym, ap, ◌∙◌, subst}
use multinexus.Base.{
  ℕ, zero, suc, ◌+◌, ◌*◌, ◌-◌, ◌^◌, ◌≤◌, Bool, true, false, some, List, [], ◌∷◌, ◌++◌, arith,
  length, take, drop, take-append-drop, length-drop, ltb, leb, leb→le, leb→lt, ltb→le, Bool-cases,
  Option-cases, inl, inr,
}
use multinexus.Base.Value.{ℤ, pos, negsuc, finite, special, Value}
use Value.{null, boolean, int, float, decimal, text, array, object}
use multinexus.Usage.{
  max_cost_microusd, number_from, replicate, is_zeros, scale_exponent, micro_digits, bounded_cost,
  decimal_cost, to_cost_microusd,
}

-- The amount `digits * 10 ^ exponent` dollars is `micro` millionths of a dollar.
unfoldable pub IsMicro : List ℕ → ℤ → ℕ → Type 0
IsMicro digits (pos e) micro = micro ≡ number_from 0 digits * 10 ^ (e + 6)
IsMicro digits (negsuc e) micro = micro * 10 ^ suc e ≡ number_from 0 digits * 10 ^ 6

-- A sign is allowed before zero only.
IsSigned : Bool → ℕ → Type 0
IsSigned true n = n ≡ 0
IsSigned false n = Unit

-- A JSON number that is not negative and worth exactly `micro` millionths.
unfoldable pub IsAmount : Value → ℕ → Type 0
unfolding IsSigned
IsAmount (int (pos n)) micro = micro ≡ n * 10 ^ 6
IsAmount (decimal (finite negative digits exponent)) micro =
    IsSigned negative (number_from 0 digits) × IsMicro digits exponent micro
IsAmount _ micro = ⊥

pow-add : (b m n : ℕ) → b ^ (m + n) ≡ b ^ m * b ^ n
pow-add b zero n =
    let e : 0 + n ≡ n = omega arith in ap (λ m. b ^ m) e ∙ rw (pow-zero b) (omega arith)
pow-add b (suc m) n =
    let e : suc m + n ≡ suc (m + n) = omega arith in
    ap (λ k. b ^ k) e
    ∙ pow-succ' b (m + n)
    ∙ ap (λ p. b * p) (pow-add b m n)
    ∙ sym (mul_assoc b (b ^ m) (b ^ n))
    ∙ ap (λ p. p * b ^ n) (sym (pow-succ' b m))

shift : (acc d k : ℕ) → d ≡ 0 → (acc * 10 + d) * 10 ^ k ≡ acc * 10 ^ suc k
shift acc d k h =
    let e : acc * 10 + d ≡ acc * 10 = omega arith in
    ap (λ n. n * 10 ^ k) e ∙ mul_assoc acc 10 (10 ^ k) ∙ ap (λ p. acc * p) (sym (pow-succ' 10 k))

number_from-append :
    (acc : ℕ) (xs ys : List ℕ) → number_from acc (xs ++ ys) ≡ number_from (number_from acc xs) ys
unfolding number_from
number_from-append acc [] ys = refl
number_from-append acc (x ∷ xs) ys = number_from-append (acc * 10 + x) xs ys

number_from-replicate : (acc k : ℕ) → number_from acc (replicate k 0) ≡ acc * 10 ^ k
unfolding number_from replicate
number_from-replicate acc zero = omega (arith, pow-zero 10)
number_from-replicate acc (suc k) = number_from-replicate (acc * 10 + 0) k ∙ shift acc 0 k refl

number_from-zeros :
    (acc : ℕ) (ds : List ℕ) → is_zeros ds ≡ true → number_from acc ds ≡ acc * 10 ^ length ds
unfolding number_from is_zeros
number_from-zeros acc [] h = omega (arith, pow-zero 10)
number_from-zeros acc (d ∷ ds) h =
    number_from-zeros (acc * 10 + d) ds (ground arith) ∙ shift acc d (length ds) (ground arith)

-- Leaving out `k` digits that are zeros divides by `10 ^ k`.
number_from-take :
    (digits : List ℕ) (k : ℕ)
    → k ≤ length digits
    → is_zeros (drop (length digits - k) digits) ≡ true
    → number_from 0 digits ≡ number_from 0 (take (length digits - k) digits) * 10 ^ k
number_from-take digits k h z =
    let j = length digits - k in
    let e : length (drop j digits) ≡ k = omega (arith, length-drop j digits) in
    ap (number_from 0) (sym (take-append-drop j digits))
    ∙ number_from-append 0 (take j digits) (drop j digits)
    ∙ number_from-zeros (number_from 0 (take j digits)) (drop j digits) z
    ∙ ap (λ n. number_from 0 (take j digits) * 10 ^ n) e

micro_digits-pos :
    (digits : List ℕ) (k : ℕ) (micro : List ℕ)
    → micro_digits digits (pos k) ≡ some micro
    → number_from 0 micro ≡ number_from 0 digits * 10 ^ k
unfolding micro_digits
micro_digits-pos digits k micro h =
    let g : micro ≡ digits ++ replicate k 0 = cc in
    ap (number_from 0) g
    ∙ number_from-append 0 digits (replicate k 0)
    ∙ number_from-replicate (number_from 0 digits) k

micro_digits-negsuc :
    (digits : List ℕ) (k : ℕ) (micro : List ℕ)
    → micro_digits digits (negsuc k) ≡ some micro
    → number_from 0 digits ≡ number_from 0 micro * 10 ^ suc k
micro_digits-negsuc digits k micro h = elim (Bool-cases (ltb (length digits) (suc k))) [
  | inl few ↦ absurd (unfold micro_digits in ground arith)
  | inr enough ↦ elim (Bool-cases (is_zeros (drop (length digits - suc k) digits))) [
    | inr lost ↦ absurd (unfold micro_digits in ground arith)
    | inl zeros ↦
        let g : micro ≡ take (length digits - suc k) digits =
          (unfold micro_digits in ground arith) in
        number_from-take digits (suc k) (ltb→le (length digits) (suc k) enough) zeros
        ∙ ap (λ ds. number_from 0 ds * 10 ^ suc k) (sym g)
  ]
]

-- What scaling by `10 ^ 6` means: the digits found are those of the amount in millionths.
micro_digits-IsMicro :
    (digits : List ℕ) (exponent : ℤ) (micro : List ℕ)
    → micro_digits digits (scale_exponent exponent) ≡ some micro
    → IsMicro digits exponent (number_from 0 micro)
unfolding IsMicro scale_exponent
micro_digits-IsMicro digits (pos e) micro h = micro_digits-pos digits (e + 6) micro h
micro_digits-IsMicro digits (negsuc e) micro h = elim (Bool-cases (leb e 5)) [
  | inl near ↦
      let g : micro_digits digits (pos (5 - e)) ≡ some micro = rw near at h in
      let six : 5 - e + suc e ≡ 6 = omega (arith, leb→le e 5 near) in
      ap (λ n. n * 10 ^ suc e) (micro_digits-pos digits (5 - e) micro g)
      ∙ mul_assoc (number_from 0 digits) (10 ^ (5 - e)) (10 ^ suc e)
      ∙ ap (λ p. number_from 0 digits * p) (sym (pow-add 10 (5 - e) (suc e)) ∙ ap (λ k. 10 ^ k) six)
  | inr far ↦
      let g : micro_digits digits (negsuc (e - 6)) ≡ some micro = rw far at h in
      let same : suc e ≡ suc (e - 6) + 6 = omega (arith, leb→lt e 5 far) in
      ap (λ k. number_from 0 micro * 10 ^ k) same
      ∙ ap (λ p. number_from 0 micro * p) (pow-add 10 (suc (e - 6)) 6)
      ∙ sym (mul_assoc (number_from 0 micro) (10 ^ suc (e - 6)) (10 ^ 6))
      ∙ ap (λ n. n * 10 ^ 6) (sym (micro_digits-negsuc digits (e - 6) micro g))
]

number_from-is_zeros : (digits : List ℕ) → is_zeros digits ≡ true → number_from 0 digits ≡ 0
number_from-is_zeros digits h = omega (arith, number_from-zeros 0 digits h)

IsMicro-zero :
    (digits : List ℕ) (exponent : ℤ) → number_from 0 digits ≡ 0 → IsMicro digits exponent 0
unfolding IsMicro
IsMicro-zero digits (pos e) h =
    let z : 0 ≡ 0 * 10 ^ (e + 6) = omega arith in z ∙ ap (λ n. n * 10 ^ (e + 6)) (sym h)
IsMicro-zero digits (negsuc e) h =
    let z : 0 * 10 ^ suc e ≡ 0 = omega arith in z ∙ ap (λ n. n * 10 ^ 6) (sym h)

bounded_cost-eq :
    (n micro : ℕ) → bounded_cost n ≡ some micro → (micro ≡ n) × (micro ≤ max_cost_microusd)
unfolding bounded_cost
bounded_cost-eq n micro h = elim (Bool-cases (leb n max_cost_microusd)) [
  | inl fits ↦ ground (arith, leb→le n max_cost_microusd fits)
  | inr over ↦ absurd (ground arith)
]

positive_cost :
    (negative : Bool) (digits : List ℕ) (exponent : ℤ) (micro : ℕ)
    → is_zeros digits ≡ false
    → decimal_cost negative digits exponent ≡ some micro
    → (negative ≡ false)
      × ((found : List ℕ) × (micro_digits digits (scale_exponent exponent) ≡ some found)
          × (bounded_cost (number_from 0 found) ≡ some micro))
positive_cost negative digits exponent micro z h =
    elim (Option-cases (micro_digits digits (scale_exponent exponent))) [
      | inl e ↦ absurd (unfold decimal_cost in ground arith)
      | inr (found, e) ↦
          ((unfold decimal_cost in ground arith), (found, e, unfold decimal_cost in ground arith))
    ]

IsSigned-zero : (negative : Bool) (n : ℕ) → n ≡ 0 → IsSigned negative n
unfolding IsSigned
IsSigned-zero true n h = h
IsSigned-zero false n h = tt

IsSigned-positive : (negative : Bool) (n : ℕ) → negative ≡ false → IsSigned negative n
unfolding IsSigned
IsSigned-positive true n h = cc
IsSigned-positive false n h = tt

decimal_cost-IsMicro :
    (negative : Bool) (digits : List ℕ) (exponent : ℤ) (micro : ℕ)
    → decimal_cost negative digits exponent ≡ some micro
    → (IsSigned negative (number_from 0 digits) × IsMicro digits exponent micro)
      × (micro ≤ max_cost_microusd)
decimal_cost-IsMicro negative digits exponent micro h = elim (Bool-cases (is_zeros digits)) [
  | inl zeros ↦
      let zero_value = number_from-is_zeros digits zeros in
      let e : micro ≡ 0 = (unfold decimal_cost in ground arith) in
      (
        (
          IsSigned-zero negative (number_from 0 digits) zero_value,
          subst (IsMicro digits exponent) (sym e) (IsMicro-zero digits exponent zero_value),
        ),
        omega arith,
      )
  | inr z ↦
      let (positive, (found, e, b)) = positive_cost negative digits exponent micro z h in
      let (same, bound) = bounded_cost-eq (number_from 0 found) micro b in
      (
        (
          IsSigned-positive negative (number_from 0 digits) positive,
          subst (IsMicro digits exponent) (sym same) (micro_digits-IsMicro digits exponent found e),
        ),
        bound,
      )
]

-- An accepted cost is an exact conversion: a JSON integer or `Decimal`, not negative, that is worth a
-- whole number of millionths of a dollar below 2 ^ 63, and that number is the result.
pub to_cost_microusd-IsAmount :
    (v : Value) (micro : ℕ)
    → to_cost_microusd v ≡ some micro
    → IsAmount v micro × (micro ≤ max_cost_microusd)
unfolding to_cost_microusd
to_cost_microusd-IsAmount (int (pos n)) micro h =
    unfold IsAmount in bounded_cost-eq (n * 10 ^ 6) micro h
to_cost_microusd-IsAmount (decimal (finite negative digits exponent)) micro h =
    unfold IsAmount in decimal_cost-IsMicro negative digits exponent micro h
to_cost_microusd-IsAmount null micro h = cc
to_cost_microusd-IsAmount (boolean b) micro h = cc
to_cost_microusd-IsAmount (int (negsuc n)) micro h = cc
to_cost_microusd-IsAmount (float s) micro h = cc
to_cost_microusd-IsAmount (decimal special) micro h = cc
to_cost_microusd-IsAmount (text s) micro h = cc
to_cost_microusd-IsAmount (array vs) micro h = cc
to_cost_microusd-IsAmount (object ms) micro h = cc
