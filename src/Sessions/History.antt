-- ===== src/Sessions/History.antt =====
-- Whole histories of the sessions table of multinexus/sessions/store.py: a list of method calls,
-- of any callers in any order, each one transaction.
use multinexus.Base.{ℕ, String, ◌≡◌, refl, Option, List, [], ◌∷◌}
use multinexus.Sessions.{Table, Expected, stale, archived}
use multinexus.Sessions.Scope.{task_scope}
use multinexus.Sessions.Table.{HasUniqueKeys}
use multinexus.Sessions.Store.{
  Upsert, upsert, Advance, advance_context_cursor, mark_stale, mark_archived, mark_task_stale,
  mark_task_archived,
}
use multinexus.Sessions.Lookup.{
  View, view, upsert_effect, find-upsert, advance_effect, find-advance, mark_effect,
  find-mark_status, mark_scope_effect, find-mark_scope_status,
}
use multinexus.Sessions.Keys.{
  upsert-HasUniqueKeys, advance-HasUniqueKeys, mark_status-HasUniqueKeys,
  mark_scope_status-HasUniqueKeys,
}

-- The methods that write, each with the time of the call.
pub data Call : Type 0 where
  upsert_call : ℕ → Upsert → Call
  advance_call : ℕ → Advance → Call
  mark_stale_call : ℕ → String → String → Expected → Call
  mark_archived_call : ℕ → String → String → Call
  mark_task_stale_call : ℕ → String → String → Option String → Call
  mark_task_archived_call : ℕ → String → String → Option String → Call

unfoldable pub apply : Call → Table → Table
unfolding mark_stale mark_archived mark_task_stale mark_task_archived
apply (upsert_call now u) t = (upsert now u t).1
apply (advance_call now a) t = (advance_context_cursor now a t).1
apply (mark_stale_call now k l expected) t = (mark_stale now k l expected t).1
apply (mark_archived_call now k l) t = mark_archived now k l t
apply (mark_task_stale_call now w k l) t = (mark_task_stale now w k l t).1
apply (mark_task_archived_call now w k l) t = (mark_task_archived now w k l t).1

unfoldable pub effect : Call → View → View
effect (upsert_call now u) = upsert_effect now u
effect (advance_call now a) = advance_effect now a
effect (mark_stale_call now k l expected) = mark_effect now k l stale expected
effect (mark_archived_call now k l) = mark_effect now k l archived Expected.unset
effect (mark_task_stale_call now w k l) = mark_scope_effect now (task_scope w k) stale l
effect (mark_task_archived_call now w k l) = mark_scope_effect now (task_scope w k) archived l

unfoldable pub run : List Call → Table → Table
run [] t = t
run (c ∷ cs) t = run cs (apply c t)

unfoldable pub run_effects : List Call → View → View
run_effects [] v = v
run_effects (c ∷ cs) v = run_effects cs (effect c v)

pub view-apply : (c : Call) (t : Table) → view (apply c t) ≡ effect c (view t)
unfolding apply effect
view-apply (upsert_call now u) t = λ i scope agent. find-upsert now u t scope agent i
view-apply (advance_call now a) t = λ i scope agent. find-advance now a t scope agent i
view-apply (mark_stale_call now k l expected) t =
    λ i scope agent. find-mark_status now k l stale expected t scope agent i
view-apply (mark_archived_call now k l) t =
    λ i scope agent. find-mark_status now k l archived Expected.unset t scope agent i
view-apply (mark_task_stale_call now w k l) t =
    λ i scope agent. find-mark_scope_status now (task_scope w k) stale l t scope agent i
view-apply (mark_task_archived_call now w k l) t =
    λ i scope agent. find-mark_scope_status now (task_scope w k) archived l t scope agent i

-- The table after any sequence of calls is, as a map from keys to rows, what the specification of
-- the calls makes of the map before.
pub view-run : (cs : List Call) (t : Table) → view (run cs t) ≡ run_effects cs (view t)
unfolding run run_effects
view-run [] t = refl
view-run (c ∷ cs) t = rw (← view-apply c t) (view-run cs (apply c t))

-- Every call keeps the primary key unique.
pub apply-HasUniqueKeys : (c : Call) (t : Table) → HasUniqueKeys t → HasUniqueKeys (apply c t)
unfolding apply
apply-HasUniqueKeys (upsert_call now u) t h = upsert-HasUniqueKeys now u t h
apply-HasUniqueKeys (advance_call now a) t h = advance-HasUniqueKeys now a t h
apply-HasUniqueKeys (mark_stale_call now k l expected) t h =
    mark_status-HasUniqueKeys now k l stale expected t h
apply-HasUniqueKeys (mark_archived_call now k l) t h =
    mark_status-HasUniqueKeys now k l archived Expected.unset t h
apply-HasUniqueKeys (mark_task_stale_call now w k l) t h =
    mark_scope_status-HasUniqueKeys now (task_scope w k) stale l t h
apply-HasUniqueKeys (mark_task_archived_call now w k l) t h =
    mark_scope_status-HasUniqueKeys now (task_scope w k) archived l t h

pub run-HasUniqueKeys : (cs : List Call) (t : Table) → HasUniqueKeys t → HasUniqueKeys (run cs t)
unfolding run
run-HasUniqueKeys [] t h = h
run-HasUniqueKeys (c ∷ cs) t h = run-HasUniqueKeys cs (apply c t) (apply-HasUniqueKeys c t h)
