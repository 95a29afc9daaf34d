-- ===== src/Base/Json/Numbers.antt =====
-- The decimal numbers of canonical JSON can be read back.
use Prim.Native.Nat.{ℕ, zero, suc, ◌+◌, ◌-◌, ◌*◌, ◌/◌, ◌%◌, ◌<◌}
use mathlib.Core.Path.{◌≡◌, refl, sym, ap, ◌∙◌}
use mathlib.Core.Logic.{inl, inr}
use mathlib.Core.Bool.{true, false}
use mathlib.Core.List.{List, [], ◌∷◌}
use native.Mathlib.Omega.{arith}
use multinexus.Base.Tests.{if◌then◌else◌, ltb, ltb→lt, ltb→le, Bool-cases}
use multinexus.Base.Text.{is_digit}
use multinexus.Base.Json.{digits_onto}

-- What follows a document does not go on with a digit.
unfoldable pub IsEnd : List ℕ → Type 0
IsEnd [] = Unit
IsEnd (c ∷ cs) = is_digit c ≡ false

-- A decimal number and what follows.
unfoldable pub read_number : ℕ → List ℕ → ℕ × List ℕ
read_number acc [] = (acc, [])
read_number acc (c ∷ cs) =
    let rest = read_number (acc * 10 + (c - b'0')) cs in if is_digit c then rest else (acc, c ∷ cs)

read_number-digit :
    (acc d : ℕ) (cs : List ℕ)
    → d < 10
    → read_number acc ((b'0' + d) ∷ cs) ≡ read_number (acc * 10 + d) cs
unfolding read_number
read_number-digit acc d cs h =
    let e : b'0' + d - b'0' ≡ d = omega arith in
    let t : is_digit (b'0' + d) ≡ true = ground arith in
    rw t (ap (λ n. read_number (acc * 10 + n) cs) e)

read_number-digits :
    (fuel n : ℕ) (rest : List ℕ)
    → n < fuel
    → read_number 0 (digits_onto fuel n rest) ≡ read_number n rest
unfolding digits_onto
read_number-digits zero n rest h = absurd (omega arith)
read_number-digits (suc fuel) n rest h = elim (Bool-cases (ltb n 10)) [
  | inl e ↦
      let z : 0 * 10 + n ≡ n = omega arith in
      rw e (read_number-digit 0 n rest (ltb→lt n 10 e) ∙ ap (λ m. read_number m rest) z)
  | inr e ↦
      let large = ltb→le n 10 e in
      let z : n / 10 * 10 + n % 10 ≡ n = omega arith in
      rw e (
        read_number-digits fuel (n / 10) ((b'0' + n % 10) ∷ rest) (omega arith)
        ∙ read_number-digit (n / 10) (n % 10) rest (omega arith)
        ∙ ap (λ m. read_number m rest) z)
]

read_number-end : (n : ℕ) (rest : List ℕ) → IsEnd rest → read_number n rest ≡ (n, rest)
unfolding read_number IsEnd
read_number-end n [] h = refl
read_number-end n (c ∷ cs) h = rw h refl

pub number-injective :
    (n m : ℕ) (r s : List ℕ)
    → IsEnd r
    → IsEnd s
    → digits_onto (suc n) n r ≡ digits_onto (suc m) m s
    → (n ≡ m) × (r ≡ s)
number-injective n m r s p q h =
    let e =
      sym (read_number-digits (suc n) n r (omega arith) ∙ read_number-end n r p)
      ∙ ap (read_number 0) h
      ∙ (read_number-digits (suc m) m s (omega arith) ∙ read_number-end m s q) in
    (ap (λ x. x.0) e, ap (λ x. x.1) e)

pub read_number-digits_onto : (n : ℕ) → read_number 0 (digits_onto (suc n) n []) ≡ (n, [])
read_number-digits_onto n =
    read_number-digits (suc n) n [] (omega arith) ∙ read_number-end n [] (unfold IsEnd in tt)
