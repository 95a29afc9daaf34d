-- ===== src/Base/Value.antt =====
-- What Python's `json.loads` makes of a document: `dict`s are lists of members with distinct keys, and a
-- `float` is held as its `repr`. With `parse_float=Decimal` the numbers with a point or an exponent are
-- `Decimal`s.
use Prim.Native.Nat.{ℕ, suc}
use Prim.Native.String.{String}
use mathlib.Core.Bool.{Bool, false, ◌&&◌, ◌||◌}
use mathlib.Core.List.{List, [], ◌∷◌}
use mathlib.Core.Option.{Option, none, some}
use multinexus.Base.Tests.{if◌then◌else◌}
use multinexus.Base.Lists.{all}
use multinexus.Base.Eq.{◌==◌, string_eq}

-- Integers on the native numbers: `negsuc n` is `-(n + 1)`.
pub data ℤ : Type 0 where
  pos negsuc : ℕ → ℤ

-- `Decimal.as_tuple()`: `digits` are the most significant first; `special` is infinite or not a number.
pub data Decimal : Type 0 where
  finite : (negative : Bool) (digits : List ℕ) (exponent : ℤ) → Decimal
  special : Decimal

mutual
  pub data Value : Type 0 where
    null : Value
    boolean : Bool → Value
    int : ℤ → Value
    float : String → Value
    decimal : Decimal → Value
    text : String → Value
    array : Items → Value
    object : Members → Value

  pub data Items : Type 0 where
    nil : Items
    item : Value → Items → Items

  pub data Members : Type 0 where
    empty : Members
    member : String → Value → Members → Members

unfoldable pub items_length : Items → ℕ
items_length nil = 0
items_length (item v vs) = suc (items_length vs)

-- `members.get(key)`, where `None` also stands for a missing key.
unfoldable pub lookup : String → Members → Option Value
lookup key empty = none
lookup key (member k v ms) = if k == key then some v else lookup key ms

unfoldable pub get : String → Members → Value
unfolding lookup
get key ms = elim (lookup key ms) [ none ↦ null | some v ↦ v ]

contains : String → List String → Bool
contains key [] = false
contains key (k ∷ ks) = key == k || contains key ks

keys : Members → List String
keys empty = []
keys (member k v ms) = k ∷ keys ms

-- `set(members.keys()) == expected`
unfoldable pub has_keys : List String → Members → Bool
unfolding contains keys
has_keys expected ms =
    all (λ k. contains k expected) (keys ms) && all (λ k. contains k (keys ms)) expected

-- `not (set(members.keys()) - allowed)`
unfoldable pub has_only : List String → Members → Bool
unfolding contains keys
has_only allowed ms = all (λ k. contains k allowed) (keys ms)
