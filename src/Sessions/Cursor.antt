-- ===== src/Sessions/Cursor.antt =====
-- What a call does to the row of a key in multinexus/sessions/store.py, and to its context cursor.
use multinexus.Base.{
  ◌≢◌, ◌⊎◌, ℕ, ◌≤◌, String, ◌≡◌, refl, true, Option, none, some, string_eq, option_eq, ==_iff,
  arith, inl, inr,
}
use multinexus.Sessions.{archived, stale, Session, Table, Expected, Status, active}
use multinexus.Sessions.Scope.{task_scope}
use native.Mathlib.Nat.{le_refl}
use mathlib.Core.Path.{◌∙◌, ap, sym, subst}
use multinexus.Sessions.Table.{find}
use multinexus.Sessions.Store.{
  Upsert, merged, same_context, continues, Advance, may_advance, argument_error, moved, marked,
}
use multinexus.Sessions.Lookup.{
  View, view, upsert_effect, advance_effect, mark_effect, mark_scope_effect,
}
use multinexus.Sessions.History.{
  Call, upsert_call, advance_call, mark_stale_call, mark_archived_call, mark_task_stale_call,
  mark_task_archived_call, apply, effect, view-apply,
}
use multinexus.Sessions.Order.{
  cursor_order, SameConversation, cursor_order-merged, moved-cursor_order,
}

-- The provider session, adapter, work directory and context generation of a row are kept.
pub record IsCarried (s s' : Session) : Type 0 where
  pub session : s'.session_id ≡ s.session_id
  pub adapter : s'.adapter ≡ s.adapter
  pub work_dir : s'.work_dir ≡ s.work_dir
  pub generation : s'.context_generation ≡ s.context_generation

module _ (v : View) (scope agent : String) (s s' : Session) (before : v scope agent ≡ some s) where
  upsert-row :
      (now : ℕ) (u : Upsert)
      → upsert_effect now u v scope agent ≡ some s'
      → (s' ≡ s) ⊎ (s' ≡ merged now u s)
  unfolding upsert_effect
  upsert-row now u after = ground (arith, ==_iff u.scope_id scope, ==_iff u.agent_id agent)

  advance-row :
      (now : ℕ) (a : Advance)
      → advance_effect now a v scope agent ≡ some s'
      → (s' ≡ s)
        ⊎ ((s' ≡ moved now a s) × (argument_error a ≡ none) × (may_advance a (some s) ≡ true))
  unfolding advance_effect
  advance-row now a after = ground (arith, ==_iff a.scope_id scope, ==_iff a.agent_id agent)

  mark-row :
      (now : ℕ) (k l : String) (status : Status) (expected : Expected)
      → mark_effect now k l status expected v scope agent ≡ some s'
      → (s' ≡ s) ⊎ (s' ≡ marked now status s)
  unfolding mark_effect
  mark-row now k l status expected after = ground (arith, ==_iff k scope, ==_iff l agent)

  mark_scope-row :
      (now : ℕ) (k : String) (status : Status) (l : Option String)
      → mark_scope_effect now k status l v scope agent ≡ some s'
      → (s' ≡ s) ⊎ (s' ≡ marked now status s)
  unfolding mark_scope_effect
  mark_scope-row now k status l after = ground arith

  unmarked :
      (now : ℕ) (status : Status)
      → SameConversation s s'
      → status ≢ active
      → (s' ≡ s) ⊎ (s' ≡ marked now status s)
      → cursor_order s ≤ cursor_order s'
  unfolding marked
  unmarked now status same retired (inl e) = rw e (le_refl _)
  unmarked now status same retired (inr e) =
      absurd (retired (sym (ap (λ r. r.status) e) ∙ same.after_active))

  -- The row of a key after a call: left alone, replaced by `upsert`, moved forward, or retired.
  effect-cursor_order :
      (c : Call)
      → effect c v scope agent ≡ some s'
      → SameConversation s s'
      → cursor_order s ≤ cursor_order s'
  unfolding effect
  effect-cursor_order (upsert_call now u) after same = elim (upsert-row now u after) [
    | inl e ↦ rw e (le_refl _)
    | inr e ↦ rw e (omega (arith, cursor_order-merged now u s (subst (SameConversation s) e same)))
  ]
  effect-cursor_order (advance_call now a) after same = elim (advance-row now a after) [
    | inl e ↦ rw e (le_refl _)
    | inr (e, valid, h) ↦ rw e (omega (arith, moved-cursor_order now a s valid h))
  ]
  effect-cursor_order (mark_stale_call now k l expected) after same =
      unmarked now stale same (λ p. cc (p)) (mark-row now k l stale expected after)
  effect-cursor_order (mark_archived_call now k l) after same =
      unmarked now archived same (λ p. cc (p)) (mark-row now k l archived Expected.unset after)
  effect-cursor_order (mark_task_stale_call now w k l) after same =
      unmarked now stale same (λ p. cc (p)) (mark_scope-row now (task_scope w k) stale l after)
  effect-cursor_order (mark_task_archived_call now w k l) after same =
      unmarked now archived same (λ p. cc (p))
        (mark_scope-row now (task_scope w k) archived l after)

  upsert-IsCarried :
      (now : ℕ) (u : Upsert) (token : String)
      → (s' ≡ s) ⊎ (s' ≡ merged now u s)
      → s'.context_cursor_order_token ≡ some token
      → IsCarried s s'
  unfolding merged same_context continues
  upsert-IsCarried now u token (inl e) h =
      rw e (record { session = refl; adapter = refl; work_dir = refl; generation = refl })
  upsert-IsCarried now u token (inr e) h = subst (IsCarried s) (sym e) (
      ground (
        arith,
        ap (λ r. r.context_cursor_order_token) e,
        ==_iff s.session_id u.session_id,
        ==_iff s.adapter u.adapter,
        ==_iff s.work_dir u.work_dir,
        ==_iff s.context_generation u.context_generation,
      ))

  marked-IsCarried :
      (now : ℕ) (status : Status) (token : String)
      → (s' ≡ s) ⊎ (s' ≡ marked now status s)
      → s'.context_cursor_order_token ≡ some token
      → IsCarried s s'
  unfolding marked
  marked-IsCarried now status token (inl e) h =
      rw e (record { session = refl; adapter = refl; work_dir = refl; generation = refl })
  marked-IsCarried now status token (inr e) h =
      absurd (cc (ap (λ r. r.context_cursor_order_token) e, h))

  moved-IsCarried :
      (now : ℕ) (a : Advance) (s'' : Session) → (s'' ≡ s) ⊎ (s'' ≡ moved now a s) → IsCarried s s''
  unfolding moved
  moved-IsCarried now a s'' (inl e) =
      rw e (record { session = refl; adapter = refl; work_dir = refl; generation = refl })
  moved-IsCarried now a s'' (inr e) =
      rw e (record { session = refl; adapter = refl; work_dir = refl; generation = refl })

  effect-IsCarried :
      (c : Call) (token : String)
      → effect c v scope agent ≡ some s'
      → s'.context_cursor_order_token ≡ some token
      → IsCarried s s'
  unfolding effect
  effect-IsCarried (upsert_call now u) token after h =
      upsert-IsCarried now u token (upsert-row now u after) h
  effect-IsCarried (advance_call now a) token after h = elim (advance-row now a after) [
    | inl e ↦ moved-IsCarried now a s' (inl e)
    | inr (e, valid, m) ↦ moved-IsCarried now a s' (inr e)
  ]
  effect-IsCarried (mark_stale_call now k l expected) token after h =
      marked-IsCarried now stale token (mark-row now k l stale expected after) h
  effect-IsCarried (mark_archived_call now k l) token after h =
      marked-IsCarried now archived token (mark-row now k l archived Expected.unset after) h
  effect-IsCarried (mark_task_stale_call now w k l) token after h =
      marked-IsCarried now stale token (mark_scope-row now (task_scope w k) stale l after) h
  effect-IsCarried (mark_task_archived_call now w k l) token after h =
      marked-IsCarried now archived token (mark_scope-row now (task_scope w k) archived l after) h

-- No call moves the cursor of a conversation that goes on backwards: whatever the call and whoever
-- makes it, if the row of a key is of the same conversation before and after it, its order token
-- does not fall.
pub cursor_monotone :
    (c : Call) (t : Table) (scope agent : String) (s s' : Session)
    → find scope agent t ≡ some s
    → find scope agent (apply c t) ≡ some s'
    → SameConversation s s'
    → cursor_order s ≤ cursor_order s'
cursor_monotone c t scope agent s s' before after same =
    effect-cursor_order (view t) scope agent s s' before c
      (subst (λ w. w scope agent ≡ some s') (view-apply c t) after) same

-- A cursor is never carried over to another conversation: if the row of a key has a cursor after a
-- call, the call has left the provider session, the adapter, the work directory and the context
-- generation of the row as they were.
pub cursor_identity :
    (c : Call) (t : Table) (scope agent : String) (s s' : Session) (token : String)
    → find scope agent t ≡ some s
    → find scope agent (apply c t) ≡ some s'
    → s'.context_cursor_order_token ≡ some token
    → IsCarried s s'
cursor_identity c t scope agent s s' token before after h =
    effect-IsCarried (view t) scope agent s s' before c token
      (subst (λ w. w scope agent ≡ some s') (view-apply c t) after) h
