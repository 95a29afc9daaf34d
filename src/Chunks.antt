-- ===== src/Chunks.antt =====
-- The chunking of long replies in multinexus/message_chunks.py, on texts as lists of code points.
use multinexus.Base.{
  ℕ, zero, suc, Bool, true, false, ◌||◌, Option, none, some, List, [], ◌∷◌, if◌then◌else◌, ltb, leb,
  eqb, length, take, drop,
}
use multinexus.Base.Text.{drop_while, strip, is_empty}
pub mod Termination
pub mod Content
mod Examples

abbrev pub max_discord_msg_len : ℕ
max_discord_msg_len = 1900

-- `text.rfind(c)`; `none` is Python's `-1`.
unfoldable pub rfind : ℕ → List ℕ → Option ℕ
rfind c [] = none
rfind c (d ∷ ds) =
    let later = rfind c ds in
    elim later [ some i ↦ some (suc i) | none ↦ if eqb c d then some 0 else none ]

-- `cut` if it is found and not `< MAX_DISCORD_MSG_LEN // 2`, and else the next choice.
unfoldable pub late_or : Option ℕ → ℕ → ℕ
late_or none next = next
late_or (some cut) next = if ltb cut 950 then next else cut

unfoldable pub cut_of : List ℕ → ℕ
cut_of text =
    let window = take max_discord_msg_len text in
    late_or (rfind b'\n' window) (late_or (rfind b' ' window) max_discord_msg_len)

unfoldable pub is_separator : ℕ → Bool
is_separator c = eqb c b'\n' || eqb c b' '

abbrev pub prepend : List ℕ → Option (List (List ℕ)) → Option (List (List ℕ))
prepend chunk none = none
prepend chunk (some chunks) = some (chunk ∷ chunks)

-- `while text:`, on fuel; `none` when it runs out.
unfoldable pub chunk_loop : ℕ → List ℕ → Option (List (List ℕ))
chunk_loop zero text = none
chunk_loop (suc fuel) [] = some []
chunk_loop (suc fuel) (c ∷ cs) =
    let text = c ∷ cs in
    let cut = cut_of text in
    let rest = chunk_loop fuel (drop_while is_separator (drop cut text)) in
    if leb (length text) max_discord_msg_len then some (text ∷ []) else prepend (take cut text) rest

unfoldable pub chunk_message : List ℕ → Option (List (List ℕ))
chunk_message text =
    if leb (length text) max_discord_msg_len
    then (if is_empty (strip text) then some [] else some (text ∷ []))
    else chunk_loop (suc (length text)) text
