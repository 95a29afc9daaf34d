-- ===== src/Sessions/Examples.antt =====
-- Runs of multinexus/sessions/store.py on small tables, and the theorems applied to them.
use multinexus.Base.{◌≤◌, ◌≡◌, refl, true, false, none, some, List, [], ◌∷◌}
use multinexus.Base.Text.{codes, decimal_from}
use multinexus.Base.Result.{ok}
use multinexus.Sessions.{Session, Expected, active, session_matches_expected, parse_order_token}
use multinexus.Sessions.Scope.{task_scope}
use multinexus.Sessions.Table.{find, has_key, HasUniqueKeys, update_where, count_where}
use multinexus.Sessions.Store.{
  Upsert, inserted, upsert, Advance, argument_error, advance_context_cursor, may_advance,
  holds_cursor, at_cursor, moved,
}
use multinexus.Sessions.Lookup.{view}
use multinexus.Sessions.History.{Call, upsert_call, advance_call, apply, run, run_effects, view-run}
use multinexus.Sessions.Order.{cursor_order}
use multinexus.Sessions.Cursor.{cursor_monotone, cursor_identity, IsCarried}
use multinexus.Sessions.CompareAndSet.{advance_once}
use multinexus.Sessions.Invariant.{IsSound, run-IsSound}
use multinexus.Sessions.Like.{
  fold_case, escape_like, like, prefix_pattern, has_prefix_nocase, like-prefix_pattern,
}

abbrev first_turn : Upsert
first_turn = record {
  scope_id = "channel:7";
  agent_id = "codex";
  adapter = "codex";
  session_id = "s1";
  work_dir = some "/w";
  context_generation = some "g1";
  expected_session = Expected.unset;
}

abbrev to_message_12 : Advance
to_message_12 = record {
  scope_id = "channel:7";
  agent_id = "codex";
  session_id = "s1";
  context_generation = "g1";
  expected_cursor_order_token = none;
  expected_cursor_message_id = none;
  cursor_order_token = "12";
  cursor_message_id = "m12";
  expected_session = Expected.unset;
}

abbrev row_1 : Session
row_1 = record {
  scope_id = "channel:7";
  agent_id = "codex";
  adapter = "codex";
  session_id = "s1";
  work_dir = some "/w";
  status = active;
  turn_count = 1;
  created_at = 100;
  updated_at = 100;
  context_generation = some "g1";
  context_cursor_order_token = none;
  context_cursor_message_id = none;
}

abbrev row_2 : Session
row_2 = record row_1 {
  updated_at = 110;
  context_cursor_order_token = some "12";
  context_cursor_message_id = some "m12";
}

abbrev calls : List Call
calls = upsert_call 100 first_turn ∷ advance_call 110 to_message_12 ∷ []

calls-run : run calls [] ≡ row_2 ∷ []
unfolding run apply upsert advance_context_cursor argument_error may_advance holds_cursor at_cursor
    moved find has_key inserted update_where session_matches_expected parse_order_token decimal_from
calls-run = refl

accepted : (advance_context_cursor 110 to_message_12 (row_1 ∷ [])).0 ≡ ok true
unfolding advance_context_cursor argument_error may_advance holds_cursor at_cursor find has_key
    count_where session_matches_expected parse_order_token decimal_from
accepted = refl

accepted_arguments : argument_error to_message_12 ≡ none
unfolding argument_error parse_order_token decimal_from
accepted_arguments = refl

row_1_found : find "channel:7" "codex" (row_1 ∷ []) ≡ some row_1
unfolding find has_key
row_1_found = refl

row_2_found :
    find "channel:7" "codex" (apply (advance_call 110 to_message_12) (row_1 ∷ [])) ≡ some row_2
unfolding apply advance_context_cursor argument_error may_advance holds_cursor at_cursor moved find
    has_key update_where session_matches_expected parse_order_token decimal_from
row_2_found = refl

one_row : HasUniqueKeys (row_1 ∷ [])
unfolding find
one_row = (refl, tt)

view-run_example : view (run calls []) ≡ run_effects calls (view [])
view-run_example = view-run calls []

run_found : find "channel:7" "codex" (run calls []) ≡ some row_2
unfolding run apply upsert advance_context_cursor argument_error may_advance holds_cursor at_cursor
    moved find has_key inserted update_where session_matches_expected parse_order_token decimal_from
run_found = refl

run-IsSound_example : HasUniqueKeys (run calls []) × IsSound row_2
run-IsSound_example = run-IsSound calls "channel:7" "codex" row_2 run_found

cursor_monotone_example : cursor_order row_1 ≤ cursor_order row_2
cursor_monotone_example =
    cursor_monotone (advance_call 110 to_message_12) (row_1 ∷ []) "channel:7" "codex" row_1 row_2
      row_1_found row_2_found
      (record {
        before_active = refl;
        after_active = refl;
        session = refl;
        adapter = refl;
        work_dir = refl;
        generation = refl;
      })

cursor_identity_example : IsCarried row_1 row_2
cursor_identity_example =
    cursor_identity (advance_call 110 to_message_12) (row_1 ∷ []) "channel:7" "codex" row_1 row_2
      "12" row_1_found row_2_found refl

advance_once_example :
    let t' = (advance_context_cursor 110 to_message_12 (row_1 ∷ [])).1 in
    advance_context_cursor 120 to_message_12 t' ≡ (ok false, t')
advance_once_example =
    advance_once 110 120 to_message_12 to_message_12 (row_1 ∷ []) one_row refl refl refl accepted
      accepted_arguments

like-prefix_pattern_example :
    like (codes "TASK:a_b:1") (prefix_pattern (codes "task:a_b"))
    ≡ has_prefix_nocase (codes "task:a_b") (codes "TASK:a_b:1")
like-prefix_pattern_example = like-prefix_pattern (codes "task:a_b") (codes "TASK:a_b:1")

-- The rows of task `10` are listed with those of task `1`.
other_task_listed :
    like (codes (task_scope "w" "10")) (prefix_pattern (codes (task_scope "w" "1"))) ≡ true
unfolding like task_scope escape_like fold_case
other_task_listed = refl
