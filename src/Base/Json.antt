-- ===== src/Base/Json.antt =====
-- The canonical text of a document that is hashed: Python's
-- `json.dumps(value, ensure_ascii=False, sort_keys=True, separators=(",", ":"))`. A document here lists
-- the members of an object in the order of their keys.
use Prim.Native.Nat.{ℕ, zero, suc, ◌+◌, ◌-◌, ◌/◌, ◌%◌}
use Prim.Native.String.{String}
use mathlib.Core.Bool.{Bool, true, false}
use mathlib.Core.List.{List, [], ◌∷◌, ◌++◌}
use multinexus.Base.Tests.{if◌then◌else◌, eqb, ltb}
use multinexus.Base.Text.{codes}
pub mod Escape
pub mod Numbers
pub mod Injective

mutual
  pub data Json : Type 0 where
    null : Json
    boolean : Bool → Json
    number : ℕ → Json
    text : List ℕ → Json
    array : Items → Json
    object : Fields → Json

  pub data Items : Type 0 where
    nil : Items
    item : Json → Items → Items

  pub data Fields : Type 0 where
    end : Fields
    field : List ℕ → Json → Fields → Fields

unfoldable pub hex_digit : ℕ → ℕ
hex_digit n = if ltb n 10 then b'0' + n else b'a' + (n - 10)

-- `json.dumps` of one character, with `ensure_ascii=False`.
unfoldable pub escape_char : ℕ → List ℕ
escape_char c =
    if eqb c b'"'
    then b'\\' ∷ b'"' ∷ []
    else if eqb c b'\\'
    then b'\\' ∷ b'\\' ∷ []
    else if eqb c 10
    then b'\\' ∷ b'n' ∷ []
    else if eqb c 13
    then b'\\' ∷ b'r' ∷ []
    else if eqb c 9
    then b'\\' ∷ b't' ∷ []
    else if eqb c 12
    then b'\\' ∷ b'f' ∷ []
    else if eqb c 8
    then b'\\' ∷ b'b' ∷ []
    else if ltb c 32
    then b'\\' ∷ b'u' ∷ b'0' ∷ b'0' ∷ hex_digit (c / 16) ∷ hex_digit (c % 16) ∷ []
    else c ∷ []

unfoldable pub escape : List ℕ → List ℕ
escape [] = []
escape (c ∷ cs) = escape_char c ++ escape cs

-- The decimal digits of `n` and what follows, with fuel above `n`.
unfoldable pub digits_onto : ℕ → ℕ → List ℕ → List ℕ
digits_onto zero n rest = rest
digits_onto (suc fuel) n rest =
    let more = digits_onto fuel (n / 10) ((b'0' + n % 10) ∷ rest) in
    if ltb n 10 then (b'0' + n) ∷ rest else more

-- The text of a document and what follows it.
unfoldable mutual
  pub print : Json → List ℕ → List ℕ
  print Json.null rest = b'n' ∷ b'u' ∷ b'l' ∷ b'l' ∷ rest
  print (Json.boolean true) rest = b't' ∷ b'r' ∷ b'u' ∷ b'e' ∷ rest
  print (Json.boolean false) rest = b'f' ∷ b'a' ∷ b'l' ∷ b's' ∷ b'e' ∷ rest
  print (Json.number n) rest = digits_onto (suc n) n rest
  print (Json.text s) rest = b'"' ∷ (escape s ++ (b'"' ∷ rest))
  print (Json.array vs) rest = b'[' ∷ print_items vs rest
  print (Json.object fs) rest = b'{' ∷ print_fields fs rest

  pub print_items : Items → List ℕ → List ℕ
  print_items nil rest = b']' ∷ rest
  print_items (item v vs) rest = print v (print_more_items vs rest)

  pub print_more_items : Items → List ℕ → List ℕ
  print_more_items nil rest = b']' ∷ rest
  print_more_items (item v vs) rest = b',' ∷ print v (print_more_items vs rest)

  pub print_fields : Fields → List ℕ → List ℕ
  print_fields end rest = b'}' ∷ rest
  print_fields (field k v fs) rest =
      b'"' ∷ (escape k ++ (b'"' ∷ b':' ∷ print v (print_more_fields fs rest)))

  pub print_more_fields : Fields → List ℕ → List ℕ
  print_more_fields end rest = b'}' ∷ rest
  print_more_fields (field k v fs) rest =
      b',' ∷ b'"' ∷ (escape k ++ (b'"' ∷ b':' ∷ print v (print_more_fields fs rest)))

unfoldable pub dumps : Json → List ℕ
dumps v = print v []
