-- ===== src/Base/Result.antt =====
-- A call that may raise: its value, or the exception.
use mathlib.Core.Path.{◌≡◌, refl}
use mathlib.Core.Logic.{◌⊎◌, inl, inr}
use mathlib.Core.Bool.{Bool, true, false}

pub data Result {ℓ} (E A : Type ℓ) : Type ℓ where
  ok : A → Result E A
  err : E → Result E A

infixl 5 ◌>>=◌ ◌>>◌
abbrev pub ◌>>=◌ {ℓ} : {E A B : Type ℓ} → Result E A → (A → Result E B) → Result E B
ok value >>= next = next value
err error >>= next = err error

abbrev pub ◌>>◌ {ℓ} : {E B : Type ℓ} → Result E (Unit {ℓ}) → Result E B → Result E B
first >> second = first >>= λ _. second

-- `if not condition: raise error`
abbrev pub require {ℓ} : {E : Type ℓ} → Bool → E → Result E (Unit {ℓ})
require true e = ok tt
require false e = err e

-- Inversion of a successful bind, where the parts stay shut.
pub >>=-eq-ok {ℓ} :
    {E A B : Type ℓ} (first : Result E A) (next : A → Result E B) {b : B}
    → (first >>= next) ≡ ok b
    → (value : A) × (first ≡ ok value) × (next value ≡ ok b)
>>=-eq-ok (err error) next h = cc
>>=-eq-ok (ok value) next h = (value, refl, h)

pub require-eq-ok {ℓ} :
    {E B : Type ℓ} (c : Bool) (e : E) (k : Result E B) {b : B}
    → (require c e >> k) ≡ ok b
    → (c ≡ true) × (k ≡ ok b)
require-eq-ok true e k h = (refl, h)
require-eq-ok false e k h = cc

pub Result-cases {ℓ} :
    {E A : Type ℓ} (r : Result E A) → ((a : A) × (r ≡ ok a)) ⊎ ((e : E) × (r ≡ err e))
Result-cases (ok a) = inl (a, refl)
Result-cases (err e) = inr (e, refl)

-- The same inversions in the form that keeps the parts variables.
pub after_bind {ℓ} :
    {E A B C : Type ℓ} (first : Result E A) (next : A → Result E B) {b : B}
    → (first >>= next) ≡ ok b
    → ((value : A) → first ≡ ok value → next value ≡ ok b → C)
    → C
after_bind (err error) next h k = cc
after_bind (ok value) next h k = k value refl h

pub after_require {ℓ} :
    {E B C : Type ℓ} (c : Bool) (e : E) (rest : Result E B) {b : B}
    → (require c e >> rest) ≡ ok b
    → (c ≡ true → rest ≡ ok b → C)
    → C
after_require true e rest h k = k refl h
after_require false e rest h k = cc

pub require-true {ℓ} : {E : Type ℓ} (c : Bool) (e : E) → require c e ≡ ok tt → c ≡ true
require-true true e h = refl
require-true false e h = cc

pub ok-injective {ℓ} : {E A : Type ℓ} (r : Result E A) (a b : A) → r ≡ ok a → r ≡ ok b → a ≡ b
ok-injective r a b h k = cc

-- Calls that succeed, put together again.
pub bind_ok {ℓ} :
    {E A B : Type ℓ} (first : Result E A) (next : A → Result E B) {value : A} {r : Result E B}
    → first ≡ ok value
    → next value ≡ r
    → (first >>= next) ≡ r
bind_ok (err error) next h k = cc
bind_ok (ok value) next h k = cc

pub require_ok {ℓ} :
    {E B : Type ℓ} (c : Bool) (e : E) (rest : Result E B) {r : Result E B}
    → c ≡ true
    → rest ≡ r
    → (require c e >> rest) ≡ r
require_ok true e rest h k = k
require_ok false e rest h k = cc

-- A failed bind: the first part failed, or the second on the value of the first.
pub after_bind_err {ℓ} :
    {E A B C : Type ℓ} (first : Result E A) (next : A → Result E B) {e : E}
    → (first >>= next) ≡ err e
    → (first ≡ err e → C)
    → ((value : A) → first ≡ ok value → next value ≡ err e → C)
    → C
after_bind_err (err error) next h k l = k (cc)
after_bind_err (ok value) next h k l = l value refl h

pub after_require_err {ℓ} :
    {E B C : Type ℓ} (c : Bool) (e : E) (rest : Result E B) {f : E}
    → (require c e >> rest) ≡ err f
    → (e ≡ f → C)
    → (c ≡ true → rest ≡ err f → C)
    → C
after_require_err true e rest h k l = l refl h
after_require_err false e rest h k l = k (cc)
