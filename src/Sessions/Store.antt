-- ===== src/Sessions/Store.antt =====
-- The methods of `SessionStore` in multinexus/sessions/store.py that read or write one scope. The
-- keyword arguments of the long methods are records.
use multinexus.Base.{
  ℕ, ◌+◌, String, Bool, true, false, not, ◌&&◌, ◌||◌, Option, none, some, List, [], ◌∷◌, ◌++◌,
  if◌then◌else◌, ◌==◌, string_eq, option_eq, leb, eqb,
}
use multinexus.Base.Text.{codes, decimal_from}
use multinexus.Base.Result.{Result, ok, err}
use multinexus.Sessions.{
  Session, Table, Expected, Status, active, stale, archived, is_active, session_matches_expected,
  parse_order_token,
}
use multinexus.Sessions.Scope.{task_scope}
use multinexus.Sessions.Table.{has_key, find, update_where, count_where}

active_only : Bool → Option Session → Option Session
active_only include_inactive none = none
active_only include_inactive (some s) =
    if include_inactive || is_active s.status then some s else none

unfoldable pub get : String → String → Bool → Table → Option Session
unfolding active_only
get scope agent include_inactive t = active_only include_inactive (find scope agent t)

unfoldable pub get_first_active : List String → String → Table → Option Session
get_first_active [] agent t = none
get_first_active (scope ∷ scopes) agent t = elim (get scope agent false t) [
  | some s ↦ some s
  | none ↦ get_first_active scopes agent t
]

pub record Upsert : Type 0 where
  pub scope_id : String
  pub agent_id : String
  pub adapter : String
  pub session_id : String
  pub work_dir : Option String
  pub context_generation : Option String
  pub expected_session : Expected

-- The values of the `INSERT`.
unfoldable pub inserted : ℕ → Upsert → Session
inserted now u = record {
  scope_id = u.scope_id;
  agent_id = u.agent_id;
  adapter = u.adapter;
  session_id = u.session_id;
  work_dir = u.work_dir;
  status = active;
  turn_count = 1;
  created_at = now;
  updated_at = now;
  context_generation = u.context_generation;
  context_cursor_order_token = none;
  context_cursor_message_id = none;
}

is_null : Option String → Bool
is_null none = true
is_null (some s) = false

-- The condition that the `CASE`s on the context share: the provider session goes on.
unfoldable pub continues : Upsert → Session → Bool
continues u s =
    is_active s.status
    && s.session_id == u.session_id
    && s.adapter == u.adapter
    && s.work_dir == u.work_dir

unfoldable pub same_context : Upsert → Session → Bool
unfolding is_null
same_context u s =
    continues u s && (is_null u.context_generation || s.context_generation == u.context_generation)

-- `ON CONFLICT(scope_id, agent_id) DO UPDATE SET ...`
unfoldable pub merged : ℕ → Upsert → Session → Session
unfolding is_null
merged now u s = record s {
  session_id = u.session_id;
  adapter = u.adapter;
  work_dir = u.work_dir;
  turn_count = if is_active s.status && s.session_id == u.session_id then s.turn_count + 1 else 1;
  updated_at = now;
  status = active;
  context_generation =
      if continues u s && is_null u.context_generation
      then s.context_generation
      else u.context_generation;
  context_cursor_order_token = if same_context u s then s.context_cursor_order_token else none;
  context_cursor_message_id = if same_context u s then s.context_cursor_message_id else none;
}

insert_or_merge : ℕ → Upsert → Option Session → Table → Table
insert_or_merge now u none t = t ++ inserted now u ∷ []
insert_or_merge now u (some s) t = update_where (has_key u.scope_id u.agent_id) (merged now u) t

unfoldable pub upsert : ℕ → Upsert → Table → Option Session × Table
unfolding insert_or_merge
upsert now u t =
    let current = find u.scope_id u.agent_id t in
    if not (session_matches_expected current u.expected_session)
    then (none, t)
    else let t' = insert_or_merge now u current t in (find u.scope_id u.agent_id t', t')

pub record Checkpoint : Type 0 where
  pub scope_id : String
  pub agent_id : String
  pub session_id : String
  pub context_generation : Option String
  pub context_cursor_order_token : Option String
  pub context_cursor_message_id : Option String

checkpoint_of : Option Session → Option Checkpoint
checkpoint_of none = none
checkpoint_of (some s) = some (record {
  scope_id = s.scope_id;
  agent_id = s.agent_id;
  session_id = s.session_id;
  context_generation = s.context_generation;
  context_cursor_order_token = s.context_cursor_order_token;
  context_cursor_message_id = s.context_cursor_message_id;
})

unfoldable pub get_context_cursor : String → String → Table → Option Checkpoint
unfolding checkpoint_of
get_context_cursor scope agent t = checkpoint_of (get scope agent false t)

pub record Advance : Type 0 where
  pub scope_id : String
  pub agent_id : String
  pub session_id : String
  pub context_generation : String
  pub expected_cursor_order_token : Option String
  pub expected_cursor_message_id : Option String
  pub cursor_order_token : String
  pub cursor_message_id : String
  pub expected_session : Expected

-- The `ValueError`s of `advance_context_cursor`.
pub data CursorError : Type 0 where
  bad_order_token missing_message_id bad_expected_order_token : CursorError

parses : Option String → Bool
parses none = false
parses (some token) = elim (parse_order_token token) [ none ↦ false | some n ↦ true ]

-- `current_order_token is not None and current_order_token >= int(cursor_order_token)`
is_reached : Option String → String → Bool
is_reached none token = false
is_reached (some current) token = elim (parse_order_token current) [
  | none ↦ false
  | some n ↦ leb (decimal_from 0 (codes token)) n
]

is_present : Option String → Bool
is_present none = false
is_present (some token) = true

-- The identity and the prior cursor, which both the early returns and the `WHERE` compare.
unfoldable pub holds_cursor : Advance → Session → Bool
holds_cursor a s =
    s.session_id == a.session_id
    && is_active s.status
    && s.context_generation == some a.context_generation
    && s.context_cursor_order_token == a.expected_cursor_order_token
    && s.context_cursor_message_id == a.expected_cursor_message_id

-- The early returns of `False`, as one condition on the row that was read.
unfoldable pub may_advance : Advance → Option Session → Bool
unfolding is_present parses is_reached
may_advance a none = false
may_advance a (some s) =
    session_matches_expected (some s) a.expected_session
    && holds_cursor a s
    && not (is_present s.context_cursor_order_token && not (parses s.context_cursor_order_token))
    && not (is_reached s.context_cursor_order_token a.cursor_order_token)

-- The `WHERE` of the `UPDATE`.
unfoldable pub at_cursor : Advance → Session → Bool
at_cursor a s = has_key a.scope_id a.agent_id s && holds_cursor a s

unfoldable pub moved : ℕ → Advance → Session → Session
moved now a s = record s {
  context_cursor_order_token = some a.cursor_order_token;
  context_cursor_message_id = some a.cursor_message_id;
  updated_at = now;
}

-- The checks on the arguments, made before the database is opened.
unfoldable pub argument_error : Advance → Option CursorError
unfolding is_present parses
argument_error a =
    if not (parses (some a.cursor_order_token))
    then some bad_order_token
    else if a.cursor_message_id == ""
    then some missing_message_id
    else if is_present a.expected_cursor_order_token && not (parses a.expected_cursor_order_token)
    then some bad_expected_order_token
    else none

unfoldable pub advance_context_cursor : ℕ → Advance → Table → Result CursorError Bool × Table
advance_context_cursor now a t = elim (argument_error a) [
  | some e ↦ (err e, t)
  | none ↦
      if not (may_advance a (find a.scope_id a.agent_id t))
      then (ok false, t)
      else (ok (eqb (count_where (at_cursor a) t) 1), update_where (at_cursor a) (moved now a) t)
]

unfoldable pub marked : ℕ → Status → Session → Session
marked now status s = record s {
  status = status;
  updated_at = now;
  context_cursor_order_token = none;
  context_cursor_message_id = none;
}

mark_row : ℕ → String → String → Status → Expected → Option Session → Table → Option Session × Table
mark_row now scope agent status expected none t = (none, t)
mark_row now scope agent status expected (some s) t =
    if not (session_matches_expected (some s) expected)
    then (none, t)
    else (some (marked now status s), update_where (has_key scope agent) (marked now status) t)

-- `_mark_status`; `Status` holds the valid values only, so that the `ValueError` cannot occur.
unfoldable pub mark_status :
    ℕ → String → String → Status → Expected → Table → Option Session × Table
unfolding mark_row
mark_status now scope agent status expected t =
    mark_row now scope agent status expected (find scope agent t) t

unfoldable pub mark_stale : ℕ → String → String → Expected → Table → Option Session × Table
mark_stale now scope agent expected t = mark_status now scope agent stale expected t

unfoldable pub mark_archived : ℕ → String → String → Table → Table
mark_archived now scope agent t = (mark_status now scope agent archived Expected.unset t).1

-- `scope_id = ?`, and `AND agent_id = ?` where the argument is given
unfoldable pub in_scope : String → Option String → Session → Bool
in_scope scope none s = s.scope_id == scope
in_scope scope (some agent) s = s.scope_id == scope && s.agent_id == agent

unfoldable pub mark_scope_status : ℕ → String → Status → Option String → Table → ℕ × Table
mark_scope_status now scope status agent t = (
  count_where (in_scope scope agent) t,
  update_where (in_scope scope agent) (marked now status) t,
)

unfoldable pub mark_task_stale : ℕ → String → String → Option String → Table → ℕ × Table
mark_task_stale now workspace task agent t =
    mark_scope_status now (task_scope workspace task) stale agent t

unfoldable pub mark_task_archived : ℕ → String → String → Option String → Table → ℕ × Table
mark_task_archived now workspace task agent t =
    mark_scope_status now (task_scope workspace task) archived agent t
