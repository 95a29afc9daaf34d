-- ===== src/Handoff/Lines.antt =====
-- What multinexus/handoff.py takes out of a reply.
use multinexus.Base.{
  All, ℕ, ◌≡◌, ◌≢◌, refl, ap, ◌∙◌, Bool, true, false, not, ◌&&◌, List, [], ◌∷◌, ◌++◌, ◌⊎◌,
  if◌then◌else◌, arith, eqb, eqb_iff, take, all, Bool-cases, inl, inr,
}
use multinexus.Base.Text.{codes, strip, has_prefix}
use multinexus.Handoff.{
  is_formal, is_fence, scan, add_to_first, split_lines, join_lines, split_handoff_lines,
}
use multinexus.Handoff.Formal.{
  IsFormal, passing-IsFormal, IsFormal-passing, has_prefix-eq, has_prefix-append,
}

-- A line that opens or closes a code fence.
unfoldable pub IsFence : List ℕ → Type 0
IsFence line = (rest : List ℕ) × (strip line ≡ codes "```" ++ rest)

-- How the lines of a reply are dealt with, from a line that is inside a code fence or not: the lines that
-- are sent, and the lines that the reply keeps. A line is sent if it is outside a fence, no fence itself,
-- and of the form of a handoff; it is sent stripped, up to 1900 characters.
pub data Scans (is_decimal : ℕ → Bool)
    : Bool → List (List ℕ) → List (List ℕ) → List (List ℕ) → Type 0 where
  finished : (fenced : Bool) → Scans is_decimal fenced [] [] []
  fence :
      (fenced : Bool) (line : List ℕ) (lines sent clean : List (List ℕ))
      → IsFence line
      → Scans is_decimal (not fenced) lines sent clean
      → Scans is_decimal fenced (line ∷ lines) sent (line ∷ clean)
  quoted :
      (line : List ℕ) (lines sent clean : List (List ℕ))
      → ¬ IsFence line
      → Scans is_decimal true lines sent clean
      → Scans is_decimal true (line ∷ lines) sent (line ∷ clean)
  handoff :
      (line : List ℕ) (lines sent clean : List (List ℕ))
      → ¬ IsFence line
      → IsFormal is_decimal (strip line)
      → Scans is_decimal false lines sent clean
      → Scans is_decimal false (line ∷ lines) (take 1900 (strip line) ∷ sent) clean
  other :
      (line : List ℕ) (lines sent clean : List (List ℕ))
      → ¬ IsFence line
      → ¬ IsFormal is_decimal (strip line)
      → Scans is_decimal false lines sent clean
      → Scans is_decimal false (line ∷ lines) sent (line ∷ clean)

opening-IsFence : (line : List ℕ) → is_fence line ≡ true → IsFence line
unfolding is_fence IsFence
opening-IsFence line h = has_prefix-eq (codes "```") (strip line) h

not-IsFence : (line : List ℕ) → is_fence line ≡ false → ¬ IsFence line
unfolding is_fence IsFence
not-IsFence line h (rest, e) =
    let g = ap (has_prefix (codes "```")) e ∙ has_prefix-append (codes "```") rest in cc

module _ (d : ℕ → Bool) (no_close : d b'>' ≡ false) (no_mark : d b'!' ≡ false) where
  not-IsFormal : (line : List ℕ) → is_formal d line ≡ false → ¬ IsFormal d line
  not-IsFormal line h f = let g = IsFormal-passing d no_close no_mark line f in cc

  scan-Scans :
      (fenced : Bool) (lines : List (List ℕ))
      → Scans d fenced lines (scan d fenced lines).handoff_lines (scan d fenced lines).clean_lines
  unfolding scan
  scan-Scans fenced [] = Scans.finished fenced
  scan-Scans true (line ∷ lines) = elim (Bool-cases (is_fence line)) [
    | inl e ↦
        rw e (Scans.fence true line lines _ _ (opening-IsFence line e) (scan-Scans false lines))
    | inr e ↦ rw e (Scans.quoted line lines _ _ (not-IsFence line e) (scan-Scans true lines))
  ]
  scan-Scans false (line ∷ lines) = elim (Bool-cases (is_fence line)) [
    | inl e ↦
        rw e (Scans.fence false line lines _ _ (opening-IsFence line e) (scan-Scans true lines))
    | inr e ↦ elim (Bool-cases (is_formal d (strip line))) [
      | inl f ↦
          rw (e, f)
            (Scans.handoff line lines _ _ (not-IsFence line e) (passing-IsFormal d (strip line) f)
              (scan-Scans false lines))
      | inr f ↦
          rw (e, f)
            (Scans.other line lines _ _ (not-IsFence line e) (not-IsFormal (strip line) f)
              (scan-Scans false lines))
    ]
  ]

join-add_to_first :
    (c : ℕ) (ls : List (List ℕ)) → join_lines (add_to_first c ls) ≡ c ∷ join_lines ls
unfolding join_lines add_to_first
join-add_to_first c [] = refl
join-add_to_first c (l ∷ []) = refl
join-add_to_first c (l ∷ k ∷ ls) = refl

join-line_feed : (ls : List (List ℕ)) → ls ≢ [] → join_lines ([] ∷ ls) ≡ b'\n' ∷ join_lines ls
unfolding join_lines
join-line_feed [] h = absurd (h refl)
join-line_feed (l ∷ ls) h = refl

added-nonempty :
    (b : Bool) (c : ℕ) (ls : List (List ℕ)) → (if b then [] ∷ ls else add_to_first c ls) ≢ []
unfolding add_to_first
added-nonempty true c ls e = cc
added-nonempty false c [] e = cc
added-nonempty false c (l ∷ ls) e = cc

split_lines-nonempty : (text : List ℕ) → split_lines text ≢ []
unfolding split_lines add_to_first
split_lines-nonempty [] e = cc
split_lines-nonempty (c ∷ cs) e = added-nonempty (eqb c b'\n') c (split_lines cs) e

-- A line has no line feed.
unfoldable pub IsLine : List ℕ → Type 0
IsLine line = All (λ c. c ≢ b'\n') line

added-IsLine :
    (c : ℕ) (ls : List (List ℕ)) → c ≢ b'\n' → All IsLine ls → All IsLine (add_to_first c ls)
unfolding add_to_first IsLine
added-IsLine c [] h hs = ((h, tt), tt)
added-IsLine c (l ∷ ls) h (g, gs) = ((h, g), gs)

no_line_feed : (c : ℕ) → eqb c b'\n' ≡ false → c ≢ b'\n'
no_line_feed c h e = let g = (eqb_iff c b'\n').1 e in cc

split_lines-IsLine : (text : List ℕ) → All IsLine (split_lines text)
unfolding split_lines IsLine
split_lines-IsLine [] = (tt, tt)
split_lines-IsLine (c ∷ cs) =
    let rest = split_lines-IsLine cs in
    elim (Bool-cases (eqb c b'\n')) [
      | inl e ↦ rw e (tt, rest)
      | inr e ↦ rw e (added-IsLine c (split_lines cs) (no_line_feed c e) rest)
    ]

-- The lines of a text: joined again they are the text.
pub join_lines-split_lines : (text : List ℕ) → join_lines (split_lines text) ≡ text
unfolding split_lines
join_lines-split_lines [] = unfold join_lines in refl
join_lines-split_lines (c ∷ cs) = elim (Bool-cases (eqb c b'\n')) [
  | inl e ↦
      rw (e, (eqb_iff c b'\n').0 e)
        (join-line_feed (split_lines cs) (split_lines-nonempty cs)
          ∙ ap (λ r. b'\n' ∷ r) (join_lines-split_lines cs))
  | inr e ↦
      rw e (join-add_to_first c (split_lines cs) ∙ ap (λ r. c ∷ r) (join_lines-split_lines cs))
]

-- The lines that `split_handoff_lines` sends, for a `\d` that holds of neither `>` nor `!`: the reply's
-- lines, which have no line feed and joined are its text, are gone through in order; a line is taken out exactly if it is outside
-- a code fence, is no fence itself and has stripped the form `[handoff] <@id>`, with `!` before the digits
-- or not, and with nothing or white space and any text behind; it is sent stripped, up to 1900 characters.
-- All other lines are kept in order, and the remaining reply is these, joined and stripped, with the
-- diagnostic line behind them or not.
pub split_handoff_lines-Scans :
    (is_decimal : ℕ → Bool) (diagnostic : List ℕ) (emit_diagnostic : Bool) (text : List ℕ)
    → is_decimal b'>' ≡ false
    → is_decimal b'!' ≡ false
    → let (sent, remaining) = split_handoff_lines is_decimal diagnostic emit_diagnostic text in
      (lines clean : List (List ℕ)) × (join_lines lines ≡ text)
      × All IsLine lines
      × Scans is_decimal false lines sent clean
      × ((remaining ≡ strip (join_lines clean))
          ⊎ (remaining ≡ strip (join_lines (clean ++ diagnostic ∷ []))))
unfolding split_handoff_lines
split_handoff_lines-Scans d diagnostic emit text no_close no_mark =
    let s = scan d false (split_lines text) in
    (
      split_lines text,
      s.clean_lines,
      join_lines-split_lines text,
      split_lines-IsLine text,
      scan-Scans d no_close no_mark false (split_lines text),
      elim (Bool-cases (s.malformed_candidate_seen && emit)) [
        | inl e ↦ inr (rw e refl)
        | inr e ↦ inl (rw e refl)
      ],
    )

-- Inside a code fence, lines that are no fences hold no handoff: all of them stay in the reply, and none
-- counts as malformed.
pub scan-fenced :
    (is_decimal : ℕ → Bool) (lines : List (List ℕ))
    → all (λ l. not (is_fence l)) lines ≡ true
    → scan is_decimal true lines
      ≡ record { handoff_lines = []; clean_lines = lines; malformed_candidate_seen = false }
unfolding scan
scan-fenced d [] h = refl
scan-fenced d (line ∷ lines) h = ground (arith, scan-fenced d lines (ground arith))
