-- ===== src/Sessions/Keys.antt =====
-- The writing methods of multinexus/sessions/store.py keep the keys of the rows distinct.
use multinexus.Base.{ℕ, String, Option, string_eq, arith}
use multinexus.Sessions.{Table, Expected, Status}
use multinexus.Sessions.Table.{
  append-HasUniqueKeys, update_where-HasUniqueKeys, HasUniqueKeys, has_key,
}
use multinexus.Sessions.Store.{
  Upsert, inserted, merged, upsert, Advance, at_cursor, moved, advance_context_cursor, marked,
  mark_status, in_scope, mark_scope_status,
}
use multinexus.Sessions.Lookup.{merged-KeepsKey, moved-KeepsKey, marked-KeepsKey}

pub upsert-HasUniqueKeys :
    (now : ℕ) (u : Upsert) (t : Table) → HasUniqueKeys t → HasUniqueKeys (upsert now u t).1
unfolding upsert inserted
upsert-HasUniqueKeys now u t h = ground (
  arith,
  append-HasUniqueKeys t (inserted now u) h,
  update_where-HasUniqueKeys (has_key u.scope_id u.agent_id) (merged now u) (merged-KeepsKey now u)
      t h,
)

pub advance-HasUniqueKeys :
    (now : ℕ) (a : Advance) (t : Table)
    → HasUniqueKeys t
    → HasUniqueKeys (advance_context_cursor now a t).1
unfolding advance_context_cursor
advance-HasUniqueKeys now a t h =
    ground
      (arith, update_where-HasUniqueKeys (at_cursor a) (moved now a) (moved-KeepsKey now a) t h)

pub mark_status-HasUniqueKeys :
    (now : ℕ) (k l : String) (status : Status) (expected : Expected) (t : Table)
    → HasUniqueKeys t
    → HasUniqueKeys (mark_status now k l status expected t).1
unfolding mark_status
mark_status-HasUniqueKeys now k l status expected t h = ground (
  arith,
  update_where-HasUniqueKeys (has_key k l) (marked now status) (marked-KeepsKey now status) t h,
)

pub mark_scope_status-HasUniqueKeys :
    (now : ℕ) (k : String) (status : Status) (l : Option String) (t : Table)
    → HasUniqueKeys t
    → HasUniqueKeys (mark_scope_status now k status l t).1
unfolding mark_scope_status
mark_scope_status-HasUniqueKeys now k status l t h =
    update_where-HasUniqueKeys (in_scope k l) (marked now status) (marked-KeepsKey now status) t h
