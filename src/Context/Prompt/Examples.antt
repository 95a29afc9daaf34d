-- ===== src/Context/Prompt/Examples.antt =====
-- Messages that multinexus/context/prompt.py shortens.
use multinexus.Base.{◌≤◌, ◌<◌, ◌≡◌, refl, List, length, take, arith}
use Prim.Native.Char.{Char}
use multinexus.Base.Chars.{chars, rstrip}
use multinexus.Base.Value.{pos}
use multinexus.Context.Prompt.{normalized_space, truncate_history_message}
use multinexus.Context.Prompt.Truncated.{
  truncate_history_message-le, truncate_history_message-exceeds,
}

abbrev content : List Char
content = chars "the  build of the release branch failed twice"

truncate_history_message-le_example : length (truncate_history_message content (pos 29)) ≤ 31
truncate_history_message-le_example =
    truncate_history_message-le content 1 29 (omega arith) (omega arith)

is_longer : 29 < length (normalized_space content)
unfolding normalized_space
is_longer = omega arith

is_kept : rstrip (take 9 (normalized_space content)) ≡ take 9 (normalized_space content)
unfolding normalized_space rstrip
is_kept = refl

truncate_history_message-exceeds_example : 29 < length (truncate_history_message content (pos 29))
truncate_history_message-exceeds_example =
    truncate_history_message-exceeds content 29 (omega arith) is_longer is_kept
