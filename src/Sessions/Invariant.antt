-- ===== src/Sessions/Invariant.antt =====
-- What holds of every row of the sessions table of multinexus/sessions/store.py between two calls.
use multinexus.Base.{
  Bool-cases, ℕ, ◌<◌, String, ◌≡◌, ◌≢◌, ◌↔◌, ◌⊎◌, inl, inr, Bool, true, false, Option, none, some,
  List, [], ◌∷◌, string_eq, arith, Option-cases,
}
use mathlib.Core.Path.{subst, sym}
use multinexus.Sessions.{
  Session, Table, Expected, Status, active, stale, archived, parse_order_token,
}
use multinexus.Sessions.Scope.{task_scope}
use multinexus.Sessions.Table.{find, HasUniqueKeys}
use multinexus.Sessions.Store.{
  holds_cursor, Upsert, inserted, merged, Advance, may_advance, argument_error, moved, marked,
}
use multinexus.Sessions.Lookup.{
  is_accepted, View, view, upsert_effect, advance_effect, mark_effect, mark_scope_effect,
}
use multinexus.Sessions.History.{
  Call, upsert_call, advance_call, mark_stale_call, mark_archived_call, mark_task_stale_call,
  mark_task_archived_call, apply, effect, run, view-apply, run-HasUniqueKeys,
}

abbrev pub is_order_token : Option String → Bool
is_order_token none = true
is_order_token (some token) = elim (parse_order_token token) [ none ↦ false | some n ↦ true ]

-- A retired row has no cursor; a cursor has both its columns and a canonical order token; a row has
-- at least one turn.
pub record IsSound (s : Session) : Type 0 where
  pub retired : s.status ≢ active → s.context_cursor_order_token ≡ none
  pub paired : (s.context_cursor_order_token ≡ none) ↔ (s.context_cursor_message_id ≡ none)
  pub canonical : is_order_token s.context_cursor_order_token ≡ true
  pub turns : 0 < s.turn_count

inserted-IsSound : (now : ℕ) (u : Upsert) → IsSound (inserted now u)
unfolding inserted
inserted-IsSound now u = ground arith

merged-IsSound : (now : ℕ) (u : Upsert) (s : Session) → IsSound s → IsSound (merged now u s)
unfolding merged
merged-IsSound now u s h = ground arith

may_advance-active : (a : Advance) (s : Session) → may_advance a (some s) ≡ true → s.status ≡ active
unfolding may_advance holds_cursor
may_advance-active a s h = ground arith

argument_error-is_order_token :
    (a : Advance) → argument_error a ≡ none → is_order_token (some a.cursor_order_token) ≡ true
unfolding argument_error
argument_error-is_order_token a h = ground arith

moved-IsSound :
    (now : ℕ) (a : Advance) (s : Session)
    → argument_error a ≡ none
    → may_advance a (some s) ≡ true
    → IsSound s
    → IsSound (moved now a s)
unfolding moved
moved-IsSound now a s valid m h = record {
  retired = λ p. absurd (p (may_advance-active a s m));
  paired = ((λ e. cc), (λ e. cc));
  canonical = argument_error-is_order_token a valid;
  turns = h.turns;
}

marked-IsSound :
    (now : ℕ) (status : Status) (s : Session) → IsSound s → IsSound (marked now status s)
unfolding marked
marked-IsSound now status s h = ground arith

abbrev pub AllSound : View → Type 0
AllSound v = (scope agent : String) (s : Session) → v scope agent ≡ some s → IsSound s

module _ (v : View) (sound : AllSound v) (scope agent : String) (s : Session) where
  origin : (r : Session) → IsSound r → (v scope agent ≡ some s) ⊎ (s ≡ r) → IsSound s
  origin r h (inl e) = sound scope agent s e
  origin r h (inr e) = rw e h

  upsert-IsSound : (now : ℕ) (u : Upsert) → upsert_effect now u v scope agent ≡ some s → IsSound s
  unfolding upsert_effect
  upsert-IsSound now u h = elim (Option-cases (v u.scope_id u.agent_id)) [
    | inl e ↦ origin (inserted now u) (inserted-IsSound now u) (ground arith)
    | inr (r, e) ↦
        origin (merged now u r) (merged-IsSound now u r (sound u.scope_id u.agent_id r e))
          (ground arith)
  ]

  advance-IsSound :
      (now : ℕ) (a : Advance) → advance_effect now a v scope agent ≡ some s → IsSound s
  unfolding advance_effect
  advance-IsSound now a h = elim (Option-cases (v a.scope_id a.agent_id)) [
    | inl e ↦ sound scope agent s (ground arith)
    | inr (r, e) ↦ elim (Bool-cases (is_accepted a (some r))) [
      | inl p ↦
          origin (moved now a r)
            (moved-IsSound now a r (ground arith) (ground arith) (sound a.scope_id a.agent_id r e))
            (ground arith)
      | inr p ↦ sound scope agent s (ground arith)
    ]
  ]

  mark-IsSound :
      (now : ℕ) (k l : String) (status : Status) (expected : Expected)
      → mark_effect now k l status expected v scope agent ≡ some s
      → IsSound s
  unfolding mark_effect
  mark-IsSound now k l status expected h = elim (Option-cases (v k l)) [
    | inl e ↦ sound scope agent s (ground arith)
    | inr (r, e) ↦
        origin (marked now status r) (marked-IsSound now status r (sound k l r e)) (ground arith)
  ]

  mark_scope-IsSound :
      (now : ℕ) (k : String) (status : Status) (l : Option String)
      → mark_scope_effect now k status l v scope agent ≡ some s
      → IsSound s
  unfolding mark_scope_effect
  mark_scope-IsSound now k status l h = elim (Option-cases (v scope agent)) [
    | inl e ↦ sound scope agent s (ground arith)
    | inr (r, e) ↦
        origin (marked now status r) (marked-IsSound now status r (sound scope agent r e))
          (ground arith)
  ]

effect-AllSound : (c : Call) (v : View) → AllSound v → AllSound (effect c v)
unfolding effect
effect-AllSound (upsert_call now u) v h = λ k l s e. upsert-IsSound v h k l s now u e
effect-AllSound (advance_call now a) v h = λ k l s e. advance-IsSound v h k l s now a e
effect-AllSound (mark_stale_call now m n expected) v h =
    λ k l s e. mark-IsSound v h k l s now m n stale expected e
effect-AllSound (mark_archived_call now m n) v h =
    λ k l s e. mark-IsSound v h k l s now m n archived Expected.unset e
effect-AllSound (mark_task_stale_call now w m n) v h =
    λ k l s e. mark_scope-IsSound v h k l s now (task_scope w m) stale n e
effect-AllSound (mark_task_archived_call now w m n) v h =
    λ k l s e. mark_scope-IsSound v h k l s now (task_scope w m) archived n e

apply-AllSound : (c : Call) (t : Table) → AllSound (view t) → AllSound (view (apply c t))
apply-AllSound c t h = subst AllSound (sym (view-apply c t)) (effect-AllSound c (view t) h)

run-AllSound : (cs : List Call) (t : Table) → AllSound (view t) → AllSound (view (run cs t))
unfolding run
run-AllSound [] t h = h
run-AllSound (c ∷ cs) t h = run-AllSound cs (apply c t) (apply-AllSound c t h)

-- After any calls of the store on an empty table, by any number of processes in any order, every
-- key has at most one row, and a row that is found is sound: only an active row has a cursor, a
-- cursor has both its columns and a canonical order token, and every row has at least one turn.
pub run-IsSound :
    (cs : List Call) (scope agent : String) (s : Session)
    → find scope agent (run cs []) ≡ some s
    → HasUniqueKeys (run cs []) × IsSound s
run-IsSound cs scope agent s found = (
  run-HasUniqueKeys cs [] tt,
  run-AllSound cs [] (λ k l r e. absurd (unfold find in cc (e))) scope agent s found,
)
