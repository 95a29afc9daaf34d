-- ===== src/Chunks/Examples.antt =====
-- A concrete reply through the chunking of multinexus/message_chunks.py.
use multinexus.Base.{◌≤◌, false, length, ◌<◌, ℕ, ◌≡◌, refl, true, some, List, [], ◌∷◌, All, ◌⊎◌}
use multinexus.Base.Text.{codes, strip, is_empty, is_space, drop_while}
use multinexus.Chunks.{chunk_message}
use multinexus.Chunks.Termination.{Fits, chunk_message-Fits}
use multinexus.Chunks.Content.{Splits, chunk_message-Splits}

abbrev reply : List ℕ
reply = codes "done, see\nthe log"

reply_chunks : chunk_message reply ≡ some (reply ∷ [])
unfolding chunk_message strip drop_while is_space
reply_chunks = refl

chunk_message-Fits_example :
    (chunks : List (List ℕ)) × (chunk_message reply ≡ some chunks) × All Fits chunks
chunk_message-Fits_example = chunk_message-Fits reply

chunk_message-Splits_example :
    (Splits reply (reply ∷ []) × ((1900 < length reply) ⊎ (is_empty (strip reply) ≡ false)))
    ⊎ ((length reply ≤ 1900) × (is_empty (strip reply) ≡ true) × (reply ∷ [] ≡ []))
chunk_message-Splits_example = chunk_message-Splits reply (reply ∷ []) reply_chunks
