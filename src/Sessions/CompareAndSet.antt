-- ===== src/Sessions/CompareAndSet.antt =====
-- `advance_context_cursor` of multinexus/sessions/store.py as a compare-and-set.
use multinexus.Base.{
  ℕ, ◌≡◌, true, false, none, some, string_eq, option_eq, ==_iff, ==_refl, arith, Bool-cases,
  Option-cases, inl, inr,
}
use multinexus.Base.Result.{ok}
use multinexus.Sessions.{Session, Table}
use mathlib.Core.Path.{◌∙◌, sym}
use multinexus.Sessions.Table.{find-has_key, has_key, find, HasUniqueKeys, count_where_key}
use multinexus.Sessions.Store.{
  Advance, may_advance, at_cursor, holds_cursor, argument_error, moved, advance_context_cursor,
}
use multinexus.Sessions.Lookup.{find-advance, not-may_advance-none, advance_effect}
use multinexus.Sessions.Order.{cursor_order, moved-cursor_order}

at_cursor-has_key :
    (a : Advance) (s : Session) → at_cursor a s ≡ true → has_key a.scope_id a.agent_id s ≡ true
unfolding at_cursor
at_cursor-has_key a s h = ground arith

may_advance-at_cursor :
    (a : Advance) (t : Table) (s : Session)
    → find a.scope_id a.agent_id t ≡ some s
    → may_advance a (some s) ≡ true
    → at_cursor a s ≡ true
unfolding at_cursor may_advance has_key
may_advance-at_cursor a t s e h = ground (
  arith,
  find-has_key a.scope_id a.agent_id t s e,
  ==_iff s.scope_id a.scope_id,
  ==_iff s.agent_id a.agent_id,
)

-- With valid arguments `advance_context_cursor` returns `True` exactly when the row that it read
-- passes all its checks: the guarded `UPDATE` never disagrees with the checks before it.
pub advance-reply :
    (now : ℕ) (a : Advance) (t : Table)
    → HasUniqueKeys t
    → argument_error a ≡ none
    → (advance_context_cursor now a t).0 ≡ ok (may_advance a (find a.scope_id a.agent_id t))
unfolding advance_context_cursor
advance-reply now a t u valid = elim (Option-cases (find a.scope_id a.agent_id t)) [
  | inl e ↦ ground (arith, not-may_advance-none a)
  | inr (s, e) ↦ ground (
    arith,
    may_advance-at_cursor a t s e,
    count_where_key (at_cursor a) a.scope_id a.agent_id (at_cursor-has_key a) t u,
  )
]

cursor_order-token :
    (r s : Session)
    → r.context_cursor_order_token ≡ s.context_cursor_order_token
    → cursor_order r ≡ cursor_order s
unfolding cursor_order
cursor_order-token r s e = rw e

may_advance-expected :
    (a : Advance) (s : Session)
    → may_advance a (some s) ≡ true
    → s.context_cursor_order_token ≡ a.expected_cursor_order_token
unfolding may_advance holds_cursor
may_advance-expected a s h =
    ground (arith, ==_iff s.context_cursor_order_token a.expected_cursor_order_token)

advance-done :
    (now : ℕ) (a : Advance) (t : Table)
    → HasUniqueKeys t
    → (advance_context_cursor now a t).0 ≡ ok true
    → (s : Session) × (find a.scope_id a.agent_id t ≡ some s)
      × (argument_error a ≡ none)
      × (may_advance a (some s) ≡ true)
advance-done now a t u done = elim (Option-cases (argument_error a)) [
  | inr (x, e) ↦ absurd (unfold advance_context_cursor in ground arith)
  | inl e ↦
      let h : ok (may_advance a (find a.scope_id a.agent_id t)) ≡ ok true =
        sym (advance-reply now a t u e) ∙ done in
      elim (Option-cases (find a.scope_id a.agent_id t)) [
        | inl f ↦ absurd (ground (arith, not-may_advance-none a))
        | inr (s, f) ↦ (s, f, e, ground arith)
      ]
]

advance-refused :
    (now : ℕ) (a : Advance) (t : Table)
    → argument_error a ≡ none
    → may_advance a (find a.scope_id a.agent_id t) ≡ false
    → advance_context_cursor now a t ≡ (ok false, t)
unfolding advance_context_cursor
advance-refused now a t valid h = ground arith

stale_expectation :
    (now : ℕ) (a b : Advance) (s : Session)
    → b.expected_cursor_order_token ≡ a.expected_cursor_order_token
    → argument_error a ≡ none
    → may_advance a (some s) ≡ true
    → may_advance b (some (moved now a s)) ≡ false
stale_expectation now a b s expected valid h =
    elim (Bool-cases (may_advance b (some (moved now a s)))) [
      | inr e ↦ e
      | inl e ↦ absurd (
          unfold cursor_order in
          omega (
            arith,
            moved-cursor_order now a s valid h,
            cursor_order-token (moved now a s) s (
                may_advance-expected b (moved now a s) e
                ∙ expected
                ∙ sym (may_advance-expected a s h)),
          ))
    ]

-- Of two calls that expect the same cursor of one row, only the first succeeds: on the table that a
-- call which returned `True` leaves, the next call for that row with the same expected order token
-- returns `False` and writes nothing, whatever its other arguments are, if they pass the checks made
-- before the row is read.
pub advance_once :
    (now later : ℕ) (a b : Advance) (t : Table)
    → HasUniqueKeys t
    → b.scope_id ≡ a.scope_id
    → b.agent_id ≡ a.agent_id
    → b.expected_cursor_order_token ≡ a.expected_cursor_order_token
    → (advance_context_cursor now a t).0 ≡ ok true
    → argument_error b ≡ none
    → let t' = (advance_context_cursor now a t).1 in
      advance_context_cursor later b t' ≡ (ok false, t')
advance_once now later a b t u scope agent expected done valid =
    let (s, f, e, h) = advance-done now a t u done in
    advance-refused later b (advance_context_cursor now a t).1 valid (
      rw (scope, agent, find-advance now a t a.scope_id a.agent_id)
        (unfold advance_effect in
          rw (==_refl a.scope_id, ==_refl a.agent_id)
            (ground (arith, stale_expectation now a b s expected e h))))
