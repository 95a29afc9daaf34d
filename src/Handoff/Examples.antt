-- ===== src/Handoff/Examples.antt =====
-- A concrete reply with a handoff line through multinexus/handoff.py.
use multinexus.Base.{All, ◌⊎◌, ℕ, ◌≡◌, ◌++◌, refl, true, false, List, [], ◌∷◌, not, all}
use multinexus.Base.Text.{codes, is_digit, strip, drop_while, is_space}
use multinexus.Handoff.{split_lines, join_lines, scan, split_handoff_lines, is_formal, is_fence}
use multinexus.Handoff.Lines.{IsLine, Scans, split_handoff_lines-Scans}

abbrev reply : List ℕ
reply = codes "done\n[handoff] <@42> review this"

reply_handoff :
    (split_handoff_lines is_digit [] true reply).0 ≡ codes "[handoff] <@42> review this" ∷ []
unfolding split_handoff_lines split_lines scan is_formal is_fence strip drop_while is_space
reply_handoff = refl

split_handoff_lines-Scans_example :
    let (sent, remaining) = split_handoff_lines is_digit [] true reply in
    (lines clean : List (List ℕ)) × (join_lines lines ≡ reply)
    × All IsLine lines
    × Scans is_digit false lines sent clean
    × ((remaining ≡ strip (join_lines clean)) ⊎ (remaining ≡ strip (join_lines (clean ++ [] ∷ []))))
split_handoff_lines-Scans_example = split_handoff_lines-Scans is_digit [] true reply refl refl

not_fence : all (λ l. not (is_fence l)) (codes "[handoff] <@42> quoted" ∷ []) ≡ true
unfolding is_fence strip drop_while is_space
not_fence = refl
