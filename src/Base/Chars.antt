-- ===== src/Base/Chars.antt =====
-- Texts as lists of characters, for the functions whose result is a text again: `text_from` makes a
-- `str` of one.
use Prim.Native.Char.{Char, code}
use Prim.Native.String.{String}
use mathlib.Core.Path.{◌≡◌, refl, ap}
use mathlib.Core.Bool.{◌&&◌}
use mathlib.Core.List.{List, [], ◌∷◌}
use multinexus.Base.Tests.{if◌then◌else◌}
use multinexus.Base.Text.{is_space, is_empty}

abbrev pub chars : String → List Char
chars String.[] = []
chars (String.◌∷◌ c s) = c ∷ chars s

unfoldable pub text_from : List Char → String
text_from [] = ""
text_from (c ∷ cs) = String.◌∷◌ c (text_from cs)

pub chars-text_from : (cs : List Char) → chars (text_from cs) ≡ cs
unfolding text_from
chars-text_from [] = refl
chars-text_from (c ∷ cs) = ap (λ r. c ∷ r) (chars-text_from cs)

-- `text.rstrip()`
unfoldable pub rstrip : List Char → List Char
unfolding is_space
rstrip [] = []
rstrip (c ∷ cs) =
    let rest = rstrip cs in if is_space (code c) && is_empty rest then [] else c ∷ rest

-- `text.lstrip()`
unfoldable pub lstrip : List Char → List Char
unfolding is_space
lstrip [] = []
lstrip (c ∷ cs) = let rest = lstrip cs in if is_space (code c) then rest else c ∷ cs

-- `text.strip()`
unfoldable pub strip_chars : List Char → List Char
unfolding lstrip rstrip
strip_chars s = rstrip (lstrip s)
