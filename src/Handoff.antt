-- ===== src/Handoff.antt =====
-- The handoff lines of a reply in multinexus/handoff.py, on texts as code points.
use multinexus.Base.{
  ℕ, suc, Bool, true, false, not, ◌&&◌, ◌||◌, List, [], ◌∷◌, ◌++◌, if◌then◌else◌, eqb, take,
}
use multinexus.Base.Text.{codes, strip, is_empty, is_space, has_prefix}
pub mod Formal
pub mod Lines
mod Examples

-- `text.split("\n")`
add_to_first : ℕ → List (List ℕ) → List (List ℕ)
add_to_first c [] = (c ∷ []) ∷ []
add_to_first c (l ∷ ls) = (c ∷ l) ∷ ls

unfoldable pub split_lines : List ℕ → List (List ℕ)
unfolding add_to_first
split_lines [] = [] ∷ []
split_lines (c ∷ cs) =
    let rest = split_lines cs in if eqb c b'\n' then [] ∷ rest else add_to_first c rest

unfoldable pub join_lines : List (List ℕ) → List ℕ
join_lines [] = []
join_lines (l ∷ ls) = elim ls [ [] ↦ l | _ ↦ l ++ (b'\n' ∷ join_lines ls) ]

-- `(?:\s+.*)?$` after the closing bracket of a mention
ends_mention : List ℕ → Bool
ends_mention [] = true
ends_mention (c ∷ cs) = is_space c

-- `\d*>` and the end, where `is_decimal` is `\d`
mention_digits : (ℕ → Bool) → List ℕ → Bool
mention_digits is_decimal [] = false
mention_digits is_decimal (c ∷ cs) =
    let rest = mention_digits is_decimal cs in
    if is_decimal c then rest else eqb c b'>' && ends_mention cs

-- `\d+>` and the end
mention_number : (ℕ → Bool) → List ℕ → Bool
mention_number is_decimal [] = false
mention_number is_decimal (c ∷ cs) = is_decimal c && mention_digits is_decimal cs

-- `@!?\d+>` and the end
mention_at : (ℕ → Bool) → List ℕ → Bool
mention_at is_decimal (a ∷ c ∷ cs) =
    eqb a b'@'
    && (if eqb c b'!' then mention_number is_decimal cs else mention_number is_decimal (c ∷ cs))
mention_at is_decimal _ = false

-- `\s*<` and the rest of the mention
mention : (ℕ → Bool) → List ℕ → Bool
mention is_decimal [] = false
mention is_decimal (c ∷ cs) =
    let rest = mention is_decimal cs in
    if is_space c then rest else eqb c b'<' && mention_at is_decimal cs

after_tag : (ℕ → Bool) → List ℕ → Bool
after_tag is_decimal [] = false
after_tag is_decimal (c ∷ cs) = is_space c && mention is_decimal cs

drop_tag : List ℕ → List ℕ
drop_tag (c1 ∷ c2 ∷ c3 ∷ c4 ∷ c5 ∷ c6 ∷ c7 ∷ c8 ∷ c9 ∷ cs) = cs
drop_tag _ = []

-- `_FORMAL_HANDOFF_RE` on a stripped line
unfoldable pub is_formal : (ℕ → Bool) → List ℕ → Bool
unfolding ends_mention mention_digits mention_number mention_at mention after_tag drop_tag
is_formal is_decimal line =
    has_prefix (codes "[handoff]") line && after_tag is_decimal (drop_tag line)

pub record Scan : Type 0 where
  pub handoff_lines : List (List ℕ)
  pub clean_lines : List (List ℕ)
  pub malformed_candidate_seen : Bool

-- `stripped.startswith("```")`
unfoldable pub is_fence : List ℕ → Bool
is_fence line = has_prefix (codes "```") (strip line)

-- The loop over the lines; the argument is `in_code_fence`.
unfoldable pub scan : (ℕ → Bool) → Bool → List (List ℕ) → Scan
scan is_decimal fenced [] = record {
  handoff_lines = [];
  clean_lines = [];
  malformed_candidate_seen = false;
}
scan is_decimal fenced (line ∷ lines) =
    let toggled = scan is_decimal (not fenced) lines in
    let rest = scan is_decimal fenced lines in
    if is_fence line
    then record toggled { clean_lines = line ∷ toggled.clean_lines }
    else if not fenced && is_formal is_decimal (strip line)
    then record rest { handoff_lines = take 1900 (strip line) ∷ rest.handoff_lines }
    else record rest {
      clean_lines = line ∷ rest.clean_lines;
      malformed_candidate_seen =
          (not fenced && has_prefix (codes "[handoff]") (strip line))
          || rest.malformed_candidate_seen;
    }

-- `split_handoff_lines`; the diagnostic line is a parameter.
unfoldable pub split_handoff_lines :
    (ℕ → Bool) → (diagnostic : List ℕ) → (emit_diagnostic : Bool) → List ℕ → List (List ℕ) × List ℕ
split_handoff_lines is_decimal diagnostic emit_diagnostic text =
    let s = scan is_decimal false (split_lines text) in
    (
      s.handoff_lines,
      strip (
          join_lines (
            if s.malformed_candidate_seen && emit_diagnostic
            then s.clean_lines ++ diagnostic ∷ []
            else s.clean_lines)),
    )
