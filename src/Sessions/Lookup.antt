-- ===== src/Sessions/Lookup.antt =====
-- The sessions table as a map from keys to rows, and each writing method of
-- multinexus/sessions/store.py as its effect on that map.
use multinexus.Base.{
  Option-cases, Bool, ℕ, String, ◌≡◌, refl, true, false, ◌&&◌, Option, none, some, ◌==◌, string_eq,
  ==_iff, arith, if◌then◌else◌, Bool-cases, inl, inr,
}
use multinexus.Sessions.{Session, Table, Expected, Status, session_matches_expected}
use multinexus.Sessions.Table.{
  has_key, find, update_where, KeepsKey, find-update_where, find-has_key, find-append,
}
use multinexus.Sessions.Store.{
  holds_cursor, argument_error, Upsert, inserted, merged, upsert, Advance, may_advance, at_cursor,
  moved, advance_context_cursor, marked, mark_status, in_scope, mark_scope_status,
}

abbrev pub View : Type 0
View = String → String → Option Session

abbrev pub view : Table → View
view t scope agent = find scope agent t

abbrev pub at_key : String → String → String → String → Bool
at_key scope agent scope' agent' = scope == scope' && agent == agent'

abbrev pub written : ℕ → Upsert → Option Session → Session
written now u none = inserted now u
written now u (some s) = merged now u s

-- `upsert`: the row of the key is written if the observation still holds; no other row changes.
unfoldable pub upsert_effect : ℕ → Upsert → View → View
upsert_effect now u v scope agent =
    let current = v u.scope_id u.agent_id in
    if at_key u.scope_id u.agent_id scope agent
      && session_matches_expected current u.expected_session
    then some (written now u current)
    else v scope agent

pub merged-KeepsKey : (now : ℕ) (u : Upsert) → KeepsKey (merged now u)
unfolding merged
merged-KeepsKey now u = record { scope = λ s. refl; agent = λ s. refl }

pub moved-KeepsKey : (now : ℕ) (a : Advance) → KeepsKey (moved now a)
unfolding moved
moved-KeepsKey now a = record { scope = λ s. refl; agent = λ s. refl }

pub marked-KeepsKey : (now : ℕ) (status : Status) → KeepsKey (marked now status)
unfolding marked
marked-KeepsKey now status = record { scope = λ s. refl; agent = λ s. refl }

-- The row that `find` returns has the key that was looked up, so a key's test on it is on the keys.
has_key-find :
    (k l scope agent : String) (t : Table) (s : Session)
    → find scope agent t ≡ some s
    → has_key k l s ≡ at_key k l scope agent
unfolding has_key
has_key-find k l scope agent t s h = ground (
  arith,
  find-has_key scope agent t s h,
  ==_iff s.scope_id k,
  ==_iff s.agent_id l,
  ==_iff k scope,
  ==_iff l agent,
)

abbrev pub map_row : (Session → Session) → Option Session → Option Session
map_row f none = none
map_row f (some s) = some (f s)

-- An `UPDATE` of one key, seen from any key.
find-update_key :
    (f : Session → Session)
    → KeepsKey f
    → (k l scope agent : String) (t : Table)
    → find scope agent (update_where (has_key k l) f t)
      ≡ (if at_key k l scope agent then map_row f (find k l t) else find scope agent t)
find-update_key f keeps k l scope agent t =
    rw (find-update_where (has_key k l) f keeps scope agent t)
      (elim (Option-cases (find scope agent t)) [
        | inl e ↦ ground (arith, ==_iff k scope, ==_iff l agent)
        | inr (s, e) ↦
            ground (arith, ==_iff k scope, ==_iff l agent, has_key-find k l scope agent t s)
      ])

has_key-inserted :
    (now : ℕ) (u : Upsert) (scope agent : String)
    → has_key scope agent (inserted now u) ≡ at_key u.scope_id u.agent_id scope agent
unfolding has_key inserted
has_key-inserted now u scope agent = refl

-- After `upsert`, every key has the row that the specification gives it.
pub find-upsert :
    (now : ℕ) (u : Upsert) (t : Table) (scope agent : String)
    → find scope agent (upsert now u t).1 ≡ upsert_effect now u (view t) scope agent
unfolding upsert upsert_effect
find-upsert now u t scope agent = elim (Option-cases (find u.scope_id u.agent_id t)) [
  | inl e ↦ rw e (
      ground (
        arith,
        find-append scope agent t (inserted now u),
        has_key-inserted now u scope agent,
        ==_iff u.scope_id scope,
        ==_iff u.agent_id agent,
      ))
  | inr (s, e) ↦ rw e (
      ground (
        arith,
        ==_iff u.scope_id scope,
        ==_iff u.agent_id agent,
        find-update_key (merged now u) (merged-KeepsKey now u) u.scope_id u.agent_id scope agent t,
      ))
]

abbrev pub is_accepted : Advance → Option Session → Bool
is_accepted a current = elim (argument_error a) [ some e ↦ false | none ↦ may_advance a current ]

-- `advance_context_cursor`: the accepted call moves the cursor of its row; no other row changes.
unfoldable pub advance_effect : ℕ → Advance → View → View
advance_effect now a v scope agent =
    let current = v a.scope_id a.agent_id in
    if at_key a.scope_id a.agent_id scope agent && is_accepted a current
    then map_row (moved now a) current
    else v scope agent

may_advance-holds_cursor :
    (a : Advance) (s : Session) → may_advance a (some s) ≡ true → holds_cursor a s ≡ true
unfolding may_advance
may_advance-holds_cursor a s h = ground arith

-- What the early returns let through, the `WHERE` of the `UPDATE` finds at the key and only there.
at_cursor-find :
    (a : Advance) (scope agent : String) (t : Table) (r s : Session)
    → find a.scope_id a.agent_id t ≡ some r
    → may_advance a (some r) ≡ true
    → find scope agent t ≡ some s
    → at_cursor a s ≡ at_key a.scope_id a.agent_id scope agent
unfolding at_cursor
at_cursor-find a scope agent t r s e m h = ground (
  arith,
  has_key-find a.scope_id a.agent_id scope agent t s h,
  ==_iff a.scope_id scope,
  ==_iff a.agent_id agent,
  may_advance-holds_cursor a r m,
)

find-moved :
    (now : ℕ) (a : Advance) (scope agent : String) (t : Table) (r : Session)
    → find a.scope_id a.agent_id t ≡ some r
    → may_advance a (some r) ≡ true
    → find scope agent (update_where (at_cursor a) (moved now a) t) ≡ (
        if at_key a.scope_id a.agent_id scope agent
        then some (moved now a r)
        else find scope agent t)
find-moved now a scope agent t r e m =
    rw (find-update_where (at_cursor a) (moved now a) (moved-KeepsKey now a) scope agent t)
      (elim (Option-cases (find scope agent t)) [
        | inl f ↦ ground (arith, ==_iff a.scope_id scope, ==_iff a.agent_id agent)
        | inr (s, f) ↦ ground (
          arith,
          ==_iff a.scope_id scope,
          ==_iff a.agent_id agent,
          at_cursor-find a scope agent t r s e m f,
        )
      ])

pub not-may_advance-none : (a : Advance) → may_advance a none ≡ false
unfolding may_advance
not-may_advance-none a = refl

-- After `advance_context_cursor`, every key has the row that the specification gives it.
pub find-advance :
    (now : ℕ) (a : Advance) (t : Table) (scope agent : String)
    → find scope agent (advance_context_cursor now a t).1
      ≡ advance_effect now a (view t) scope agent
unfolding advance_context_cursor advance_effect
find-advance now a t scope agent = elim (Option-cases (find a.scope_id a.agent_id t)) [
  | inl e ↦ ground (arith, not-may_advance-none a)
  | inr (r, e) ↦ elim (Bool-cases (may_advance a (some r))) [
    | inl m ↦ ground (arith, find-moved now a scope agent t r e m)
    | inr m ↦ ground arith
  ]
]

unfoldable pub mark_effect : ℕ → String → String → Status → Expected → View → View
mark_effect now k l status expected v scope agent =
    let current = v k l in
    if at_key k l scope agent && session_matches_expected current expected
    then map_row (marked now status) current
    else v scope agent

pub find-mark_status :
    (now : ℕ) (k l : String) (status : Status) (expected : Expected) (t : Table)
    → (scope agent : String)
    → find scope agent (mark_status now k l status expected t).1
      ≡ mark_effect now k l status expected (view t) scope agent
unfolding mark_status mark_effect
find-mark_status now k l status expected t scope agent = elim (Option-cases (find k l t)) [
  | inl e ↦ ground (arith, ==_iff k scope, ==_iff l agent)
  | inr (s, e) ↦ ground (
    arith,
    ==_iff k scope,
    ==_iff l agent,
    find-update_key (marked now status) (marked-KeepsKey now status) k l scope agent t,
  )
]

abbrev pub at_scope : String → Option String → String → String → Bool
at_scope k none scope agent = scope == k
at_scope k (some l) scope agent = scope == k && agent == l

-- `mark_task_stale` and `mark_task_archived`: one scope, for one agent or for all.
unfoldable pub mark_scope_effect : ℕ → String → Status → Option String → View → View
mark_scope_effect now k status l v scope agent =
    if at_scope k l scope agent then map_row (marked now status) (v scope agent) else v scope agent

in_scope-find :
    (k : String) (l : Option String) (scope agent : String) (t : Table) (s : Session)
    → find scope agent t ≡ some s
    → in_scope k l s ≡ at_scope k l scope agent
unfolding in_scope
in_scope-find k none scope agent t s h = ground (arith, find-has_key scope agent t s h)
in_scope-find k (some l) scope agent t s h = ground (arith, find-has_key scope agent t s h)

pub find-mark_scope_status :
    (now : ℕ) (k : String) (status : Status) (l : Option String) (t : Table) (scope agent : String)
    → find scope agent (mark_scope_status now k status l t).1
      ≡ mark_scope_effect now k status l (view t) scope agent
unfolding mark_scope_status mark_scope_effect
find-mark_scope_status now k status l t scope agent =
    rw
      (find-update_where (in_scope k l) (marked now status) (marked-KeepsKey now status) scope agent
        t)
      (elim (Option-cases (find scope agent t)) [
        | inl e ↦ ground arith
        | inr (s, e) ↦ ground (arith, in_scope-find k l scope agent t s e)
      ])
