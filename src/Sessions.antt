-- ===== src/Sessions.antt =====
-- multinexus/sessions/store.py: the rows of the `sessions` table and the SQL statements over it.
-- A table is the list of its rows in rowid order. A method runs inside one transaction, so it is a
-- function from the table to the table. `now` is what `time.time()` returns to the call, as a
-- number of ticks; `turn_count` is unbounded.
pub mod Scope
pub mod Table
pub mod Store
pub mod Lookup
pub mod Keys
pub mod History
pub mod Like
pub mod Listing
pub mod Order
pub mod Same
pub mod Cursor
pub mod CompareAndSet
pub mod Invariant
mod Examples
use multinexus.Base.{
  ℕ, suc, ◌+◌, String, ◌≡◌, refl, ◌↔◌, Bool, true, false, ◌&&◌, ◌||◌, Option, none, some, List, [],
  ◌∷◌, if◌then◌else◌, ◌==◌, nat_eq, string_eq, option_eq, leb,
}
use multinexus.Base.Text.{codes, is_digit, decimal_from}
use multinexus.Base.{all}

pub data Status : Type 0 where
  active stale archived : Status

abbrev pub is_active : Status → Bool
is_active active = true
is_active _ = false

abbrev pub same_status : Status → Status → Bool
same_status active active = true
same_status stale stale = true
same_status archived archived = true
same_status _ _ = false

-- `_row_to_dict`
pub record Session : Type 0 where
  pub scope_id : String
  pub agent_id : String
  pub adapter : String
  pub session_id : String
  pub work_dir : Option String
  pub status : Status
  pub turn_count : ℕ
  pub created_at : ℕ
  pub updated_at : ℕ
  pub context_generation : Option String
  pub context_cursor_order_token : Option String
  pub context_cursor_message_id : Option String

abbrev pub Table : Type 0
Table = List Session

-- The `expected_session` argument: `_UNSET`, `None`, or a row that the caller has read.
pub data Expected : Type 0 where
  unset : Expected
  absent : Expected
  row : Session → Expected

-- The comparison over `_SESSION_IDENTITY_FIELDS`.
unfoldable pub same_identity : Session → Session → Bool
same_identity e s =
    same_status e.status s.status
    && e.created_at == s.created_at
    && e.updated_at == s.updated_at
    && e.turn_count == s.turn_count
    && e.session_id == s.session_id
    && e.adapter == s.adapter
    && e.work_dir == s.work_dir
    && e.context_generation == s.context_generation
    && e.context_cursor_order_token == s.context_cursor_order_token
    && e.context_cursor_message_id == s.context_cursor_message_id

unfoldable pub session_matches_expected : Option Session → Expected → Bool
session_matches_expected current unset = true
session_matches_expected none absent = true
session_matches_expected (some s) absent = false
session_matches_expected none (row e) = false
session_matches_expected (some s) (row e) = same_identity e s

-- `_POSITIVE_DECIMAL_RE.fullmatch`
is_positive_decimal : List ℕ → Bool
is_positive_decimal [] = false
is_positive_decimal (c ∷ cs) = leb b'1' c && leb c b'9' && all is_digit cs

unfoldable pub parse_order_token : String → Option ℕ
unfolding is_positive_decimal
parse_order_token token =
    if is_positive_decimal (codes token) then some (decimal_from 0 (codes token)) else none
