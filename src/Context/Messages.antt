-- ===== src/Context/Messages.antt =====
-- The messages of multinexus/context/store.py. A limit, a budget or a time to live below 0 is 0 here,
-- which the code treats alike.
use mathlib.Core.List.{reverse}
use multinexus.Base.{
  ℕ, suc, ◌+◌, ◌-◌, ◌*◌, Bool, not, ◌&&◌, ◌||◌, Option, none, some, List, [], ◌∷◌, ◌++◌,
  if◌then◌else◌, ltb, leb, eqb, select, take, length,
}
use multinexus.Base.Text.{codes, strip, is_empty, same_codes}
use multinexus.Context.{Message}

-- `content.strip() in ("🔄 thinking...", "thinking...")` or blank
unfoldable pub is_noise : List ℕ → Bool
is_noise content =
    is_empty (strip content)
    || same_codes (strip content) (128260 ∷ codes " thinking...")
    || same_codes (strip content) (codes "thinking...")

unfoldable pub find_message : List ℕ → List Message → Option Message
find_message key [] = none
find_message key (m ∷ ms) =
    let rest = find_message key ms in if same_codes m.message_id key then some m else rest

-- The `rowid` that SQLite gives to a new row: one more than the greatest.
unfoldable pub next_order : List Message → ℕ
next_order [] = 1
next_order (m ∷ ms) =
    let rest = next_order ms in if leb rest m.context_order then suc m.context_order else rest

-- `record_message`; the `context_order` of the argument is not used.
unfoldable pub record_message : Message → ℕ → List Message → List Message
record_message m ttl_seconds ms =
    if is_noise m.content
    then ms
    else let stored = record m { context_order = next_order ms; content = strip m.content } in
      let inserted : List Message = elim (find_message m.message_id ms) [
        | none ↦ ms ++ stored ∷ []
        | some old ↦ ms
      ] in
      select (λ r. not (ltb r.created_at_ms (m.created_at_ms - ttl_seconds * 1000))) inserted

-- `ORDER BY created_at_ms DESC, rowid DESC`
unfoldable pub is_later : Message → Message → Bool
is_later a b =
    ltb b.created_at_ms a.created_at_ms
    || (eqb a.created_at_ms b.created_at_ms && leb b.context_order a.context_order)

unfoldable pub insert_latest : Message → List Message → List Message
insert_latest m [] = m ∷ []
insert_latest m (n ∷ ns) =
    let rest = insert_latest m ns in if is_later m n then m ∷ n ∷ ns else n ∷ rest

unfoldable pub latest_first : List Message → List Message
latest_first [] = []
latest_first (m ∷ ms) = insert_latest m (latest_first ms)

unfoldable pub line_len : Message → ℕ
line_len m = length m.author_name + length m.content + 16

-- The loop that fills the budget: `used` characters in `count` messages are selected already.
unfoldable pub fill : (limit budget used count : ℕ) → List Message → List Message
fill limit budget used count [] = []
fill limit budget used count (m ∷ ms) =
    let rest = fill limit budget (used + line_len m) (suc count) ms in
    if leb 1 count && (ltb budget (used + line_len m) || leb limit count) then [] else m ∷ rest

-- The `WHERE` of `recent_messages`.
unfoldable pub is_recent : (channel exclude : List ℕ) (cutoff : ℕ) → Message → Bool
is_recent channel exclude cutoff m =
    same_codes m.channel_id channel
    && not (same_codes m.message_id exclude)
    && leb cutoff m.created_at_ms

-- `recent_messages` at the time `now`; for a positive limit the `LIMIT` is three times that.
unfoldable pub recent_messages :
    (now : ℕ) (channel exclude : List ℕ) (limit budget_chars ttl_seconds : ℕ)
    → List Message
    → List Message
recent_messages now channel exclude limit budget ttl ms =
    if eqb limit 0 || eqb budget 0 || eqb ttl 0
    then []
    else reverse (
        fill limit budget 0 0 (
          take (limit * 3)
            (latest_first (select (is_recent channel exclude (now - ttl * 1000)) ms))))
