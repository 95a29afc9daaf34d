-- ===== src/Base/Same/Reflexive.antt =====
-- When a value of a document equals itself under Python's `==`.
use mathlib.Core.Path.{◌≡◌, refl}
use mathlib.Core.Bool.{Bool, true, false}
use mathlib.Core.Option.{some}
use multinexus.Base.Tests.{eqb_iff}
use multinexus.Base.Eq.{string_eq, ==_refl}
use multinexus.Base.Value.{
  ℤ, pos, negsuc, Value, Items, nil, item, Members, empty, member, lookup, boolean, int,
}
use Value.{null, float, decimal, text, array, object}
use multinexus.Base.Same.{
  same_int, members_length, same_found, same_items, agrees_within, same_value,
}

-- No key of the first members is one of the second but with the same value.
abbrev pub IsIn : Members → Members → Type 0
IsIn empty ns = Unit {0}
IsIn (member k v ms) ns = (lookup k ns ≡ some v) × IsIn ms ns

-- The numbers that `same_float` compares equal themselves, which a NaN does not, and the members of a
-- dictionary are found under their keys.
unfoldable mutual
  pub IsPlain : (Value → Value → Bool) → Value → Type 0
  IsPlain f null = Unit {0}
  IsPlain f (boolean b) = Unit {0}
  IsPlain f (int n) = Unit {0}
  IsPlain f (float s) = f (float s) (float s) ≡ true
  IsPlain f (decimal d) = f (decimal d) (decimal d) ≡ true
  IsPlain f (text s) = Unit {0}
  IsPlain f (array vs) = ArePlain f vs
  IsPlain f (object ms) = IsIn ms ms × HavePlain f ms

  pub ArePlain : (Value → Value → Bool) → Items → Type 0
  ArePlain f nil = Unit {0}
  ArePlain f (item v vs) = IsPlain f v × ArePlain f vs

  pub HavePlain : (Value → Value → Bool) → Members → Type 0
  HavePlain f empty = Unit {0}
  HavePlain f (member k v ms) = IsPlain f v × HavePlain f ms

pub same_int_refl : (n : ℤ) → same_int n n ≡ true
unfolding same_int
same_int_refl (pos n) = (eqb_iff n n).1 refl
same_int_refl (negsuc n) = (eqb_iff n n).1 refl

mutual
  unfolding IsPlain ArePlain HavePlain same_found same_items agrees_within

  found_refl : (f : Value → Value → Bool) (v : Value) → IsPlain f v → same_found f v (some v) ≡ true
  found_refl f null h = refl
  found_refl f (boolean true) h = same_int_refl (pos 1)
  found_refl f (boolean false) h = same_int_refl (pos 0)
  found_refl f (int n) h = same_int_refl n
  found_refl f (float s) h = h
  found_refl f (decimal d) h = h
  found_refl f (text s) h = ==_refl s
  found_refl f (array vs) h = items_refl f vs h
  found_refl f (object ms) (h, hs) =
      rw ((eqb_iff (members_length ms) (members_length ms)).1 refl) (within_refl f ms ms h hs)

  items_refl : (f : Value → Value → Bool) (vs : Items) → ArePlain f vs → same_items f vs vs ≡ true
  items_refl f nil h = refl
  items_refl f (item v vs) (h, hs) = rw (found_refl f v h) (items_refl f vs hs)

  within_refl :
      (f : Value → Value → Bool) (ms ns : Members)
      → IsIn ms ns
      → HavePlain f ms
      → agrees_within f ms ns ≡ true
  within_refl f empty ns h hs = refl
  within_refl f (member k v ms) ns (h, hs) (p, ps) =
      rw h (rw (found_refl f v p) (within_refl f ms ns hs ps))

pub same_value_refl : (f : Value → Value → Bool) (v : Value) → IsPlain f v → same_value f v v ≡ true
unfolding same_value
same_value_refl f v h = found_refl f v h
