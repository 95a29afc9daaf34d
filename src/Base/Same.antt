-- ===== src/Base/Same.antt =====
-- Python's `==` on the values of documents: a dictionary is compared whatever the order of its members,
-- and a Boolean is a number. `same_float` compares two numbers of which one is a `float` or a `Decimal`.
use Prim.Native.Nat.{ℕ, suc}
use Prim.Native.String.{String}
use mathlib.Core.Path.{◌≡◌, refl, ap, sym}
use mathlib.Core.Bool.{Bool, true, false, ◌&&◌}
use mathlib.Core.Option.{Option, none, some}
use native.Mathlib.Omega.{arith}
use multinexus.Base.Tests.{eqb}
use multinexus.Base.Eq.{◌==◌, string_eq, ==_iff}
use multinexus.Base.Tests.{eqb_iff}
use multinexus.Base.Value.{
  ℤ, pos, negsuc, Value, Items, nil, item, Members, empty, member, lookup, boolean, int,
}
use Value.{null, float, decimal, text, array, object}
pub mod Reflexive

unfoldable pub same_int : ℤ → ℤ → Bool
same_int (pos m) (pos n) = eqb m n
same_int (pos m) (negsuc n) = false
same_int (negsuc m) (pos n) = false
same_int (negsuc m) (negsuc n) = eqb m n

pub same_int-eq : (m n : ℤ) → same_int m n ≡ true → m ≡ n
unfolding same_int
same_int-eq (pos m) (pos n) h = ap pos ((eqb_iff m n).0 h)
same_int-eq (pos m) (negsuc n) h = cc
same_int-eq (negsuc m) (pos n) h = cc
same_int-eq (negsuc m) (negsuc n) h = ap negsuc ((eqb_iff m n).0 h)

unfoldable pub members_length : Members → ℕ
members_length empty = 0
members_length (member k v ms) = suc (members_length ms)

-- A number is compared with an integer, and with another number.
unfoldable pub same_integer : (Value → Value → Bool) → ℤ → Value → Bool
same_integer same_float n (int m) = same_int n m
same_integer same_float n (boolean true) = same_int n (pos 1)
same_integer same_float n (boolean false) = same_int n (pos 0)
same_integer same_float n (float s) = same_float (int n) (float s)
same_integer same_float n (decimal d) = same_float (int n) (decimal d)
same_integer same_float n _ = false

unfoldable pub same_real : (Value → Value → Bool) → Value → Value → Bool
same_real same_float v (int m) = same_float v (int m)
same_real same_float v (boolean true) = same_float v (int (pos 1))
same_real same_float v (boolean false) = same_float v (int (pos 0))
same_real same_float v (float s) = same_float v (float s)
same_real same_float v (decimal d) = same_float v (decimal d)
same_real same_float v _ = false

unfoldable mutual
  unfolding same_integer same_real members_length lookup

  -- The second value is `none` where there is none: it equals nothing.
  pub same_found : (Value → Value → Bool) → Value → Option Value → Bool
  same_found f null w = elim w [ some null ↦ true | _ ↦ false ]
  same_found f (boolean true) w = elim w [ some x ↦ same_integer f (pos 1) x | none ↦ false ]
  same_found f (boolean false) w = elim w [ some x ↦ same_integer f (pos 0) x | none ↦ false ]
  same_found f (int n) w = elim w [ some x ↦ same_integer f n x | none ↦ false ]
  same_found f (float s) w = elim w [ some x ↦ same_real f (float s) x | none ↦ false ]
  same_found f (decimal d) w = elim w [ some x ↦ same_real f (decimal d) x | none ↦ false ]
  same_found f (text s) w = elim w [ some (text t) ↦ s == t | _ ↦ false ]
  same_found f (array vs) w = elim w [ some (array ws) ↦ same_items f vs ws | _ ↦ false ]
  same_found f (object ms) w = elim w [
    | some (object ns) ↦ eqb (members_length ms) (members_length ns) && agrees_within f ms ns
    | _ ↦ false
  ]

  pub same_items : (Value → Value → Bool) → Items → Items → Bool
  same_items f nil nil = true
  same_items f nil (item w ws) = false
  same_items f (item v vs) nil = false
  same_items f (item v vs) (item w ws) = same_found f v (some w) && same_items f vs ws

  pub agrees_within : (Value → Value → Bool) → Members → Members → Bool
  agrees_within f empty ns = true
  agrees_within f (member k v ms) ns = same_found f v (lookup k ns) && agrees_within f ms ns

unfoldable pub same_value : (Value → Value → Bool) → Value → Value → Bool
unfolding same_found
same_value f v w = same_found f v (some w)

-- What equals a text, or None, is that.
pub same_value-text :
    (f : Value → Value → Bool) (v : Value) (s : String)
    → same_value f v (text s) ≡ true
    → v ≡ text s
unfolding same_value
same_value-text f (text t) s h = ap text ((==_iff t s).0 h)
same_value-text f null s h = cc
same_value-text f (boolean true) s h = cc
same_value-text f (boolean false) s h = cc
same_value-text f (int n) s h = cc
same_value-text f (float t) s h = cc
same_value-text f (decimal d) s h = cc
same_value-text f (array vs) s h = cc
same_value-text f (object ms) s h = cc

pub same_value-null : (f : Value → Value → Bool) (v : Value) → same_value f v null ≡ true → v ≡ null
unfolding same_value
same_value-null f null h = refl
same_value-null f (text t) h = cc
same_value-null f (boolean true) h = cc
same_value-null f (boolean false) h = cc
same_value-null f (int n) h = cc
same_value-null f (float t) h = cc
same_value-null f (decimal d) h = cc
same_value-null f (array vs) h = cc
same_value-null f (object ms) h = cc
