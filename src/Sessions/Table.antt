-- ===== src/Sessions/Table.antt =====
-- The SQL statements of multinexus/sessions/store.py: `SELECT ... WHERE key`, `UPDATE ... WHERE`
-- with its row count, and the laws by which the other modules use them.
use multinexus.Base.{
  true, ℕ, ◌+◌, String, ◌≡◌, refl, Bool, ◌&&◌, Option, none, some, [], ◌∷◌, ◌++◌, arith,
  if◌then◌else◌, ◌==◌, string_eq, ==_iff,
}
use multinexus.Sessions.{Session, Table}

-- `scope_id = ? AND agent_id = ?`
unfoldable pub has_key : String → String → Session → Bool
has_key scope agent s = s.scope_id == scope && s.agent_id == agent

unfoldable pub find : String → String → Table → Option Session
find scope agent [] = none
find scope agent (s ∷ t) = if has_key scope agent s then some s else find scope agent t

unfoldable pub update_where : (Session → Bool) → (Session → Session) → Table → Table
update_where p f [] = []
update_where p f (s ∷ t) = (if p s then f s else s) ∷ update_where p f t

-- `cursor.rowcount`
unfoldable pub count_where : (Session → Bool) → Table → ℕ
count_where p [] = 0
count_where p (s ∷ t) = (if p s then 1 else 0) + count_where p t

-- `PRIMARY KEY (scope_id, agent_id)`
abbrev pub HasUniqueKeys : Table → Type 0
HasUniqueKeys [] = Unit
HasUniqueKeys (s ∷ t) = (find s.scope_id s.agent_id t ≡ none) × HasUniqueKeys t

pub record KeepsKey (f : Session → Session) : Type 0 where
  pub scope : (s : Session) → (f s).scope_id ≡ s.scope_id
  pub agent : (s : Session) → (f s).agent_id ≡ s.agent_id

-- The row of a key after an `UPDATE`.
abbrev pub updated : (Session → Bool) → (Session → Session) → Option Session → Option Session
updated p f none = none
updated p f (some s) = some (if p s then f s else s)

has_key-update :
    (p : Session → Bool) (f : Session → Session)
    → KeepsKey f
    → (scope agent : String) (s : Session)
    → has_key scope agent (if p s then f s else s) ≡ has_key scope agent s
unfolding has_key
has_key-update p f k scope agent s = ground (arith, k.scope s, k.agent s)

pub find-update_where :
    (p : Session → Bool) (f : Session → Session)
    → KeepsKey f
    → (scope agent : String) (t : Table)
    → find scope agent (update_where p f t) ≡ updated p f (find scope agent t)
unfolding find update_where
find-update_where p f k scope agent [] = refl
find-update_where p f k scope agent (s ∷ t) =
    ground (arith, has_key-update p f k scope agent s, find-update_where p f k scope agent t)

-- A row that is found carries its key.
pub find-has_key :
    (scope agent : String) (t : Table) (s : Session)
    → find scope agent t ≡ some s
    → (s.scope_id ≡ scope) × (s.agent_id ≡ agent)
unfolding find has_key
find-has_key scope agent [] s h = cc
find-has_key scope agent (r ∷ t) s h =
    ground (arith, ==_iff r.scope_id scope, ==_iff r.agent_id agent, find-has_key scope agent t s)

pub find-append :
    (scope agent : String) (t : Table) (s : Session)
    → find scope agent (t ++ s ∷ []) ≡ (
        let here = if has_key scope agent s then some s else none in
        elim (find scope agent t) [ none ↦ here | some r ↦ some r ])
unfolding find
find-append scope agent [] s = refl
find-append scope agent (r ∷ t) s = ground (arith, find-append scope agent t s)

count_where_absent :
    (p : Session → Bool) (scope agent : String)
    → ((s : Session) → p s ≡ true → has_key scope agent s ≡ true)
    → (t : Table) → find scope agent t ≡ none
    → count_where p t ≡ 0
unfolding find count_where
count_where_absent p scope agent at_key [] h = refl
count_where_absent p scope agent at_key (s ∷ t) h =
    ground (arith, at_key s, count_where_absent p scope agent at_key t)

-- An `UPDATE` whose condition names the primary key changes one row at most.
pub count_where_key :
    (p : Session → Bool) (scope agent : String)
    → ((s : Session) → p s ≡ true → has_key scope agent s ≡ true)
    → (t : Table) → HasUniqueKeys t
    → count_where p t ≡ elim (find scope agent t) [ none ↦ 0 | some s ↦ if p s then 1 else 0 ]
unfolding find count_where has_key
count_where_key p scope agent at_key [] u = refl
count_where_key p scope agent at_key (s ∷ t) u = ground (
  arith,
  at_key s,
  ==_iff s.scope_id scope,
  ==_iff s.agent_id agent,
  count_where_key p scope agent at_key t,
  count_where_absent p scope agent at_key t,
)

pub update_where-HasUniqueKeys :
    (p : Session → Bool) (f : Session → Session)
    → KeepsKey f
    → (t : Table) → HasUniqueKeys t
    → HasUniqueKeys (update_where p f t)
unfolding update_where
update_where-HasUniqueKeys p f k [] u = tt
update_where-HasUniqueKeys p f k (s ∷ t) u = (
  ground (arith, k.scope s, k.agent s, u.0, find-update_where p f k s.scope_id s.agent_id t),
  update_where-HasUniqueKeys p f k t u.1,
)

pub append-HasUniqueKeys :
    (t : Table) (s : Session)
    → HasUniqueKeys t
    → find s.scope_id s.agent_id t ≡ none
    → HasUniqueKeys (t ++ s ∷ [])
unfolding find has_key
append-HasUniqueKeys [] s u h = (refl, tt)
append-HasUniqueKeys (r ∷ t) s u h = (
  ground (
    arith,
    u.0,
    find-append r.scope_id r.agent_id t s,
    ==_iff s.scope_id r.scope_id,
    ==_iff s.agent_id r.agent_id,
    ==_iff r.scope_id s.scope_id,
    ==_iff r.agent_id s.agent_id,
  ),
  append-HasUniqueKeys t s u.1 (ground arith),
)
