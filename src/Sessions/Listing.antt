-- ===== src/Sessions/Listing.antt =====
-- `list_by_agent`, `list_by_scope_prefix` and `list_task_scope` of multinexus/sessions/store.py.
-- `ORDER BY updated_at DESC` leaves the order of equal times open; here they keep the row order.
use mathlib.Core.List.{Perm}
use mathlib.Core.List.Perm
use multinexus.Base.{
  ◌≤◌, String, ◌≡◌, refl, Bool, true, ◌&&◌, ◌||◌, Option, none, some, List, [], ◌∷◌, arith,
  if◌then◌else◌, leb, ◌==◌, string_eq, select, Bool-cases, inl, inr,
}
use multinexus.Base.Text.{codes}
use multinexus.Sessions.{Session, Table, is_active}
use multinexus.Sessions.Scope.{task_scope}
use multinexus.Sessions.Like.{like, prefix_pattern, has_prefix_nocase, like-prefix_pattern}

insert_newest : Session → List Session → List Session
insert_newest s [] = s ∷ []
insert_newest s (r ∷ rs) =
    let rest = r ∷ insert_newest s rs in if leb r.updated_at s.updated_at then s ∷ r ∷ rs else rest

unfoldable pub newest_first : List Session → List Session
unfolding insert_newest
newest_first [] = []
newest_first (s ∷ rs) = insert_newest s (newest_first rs)

unfoldable pub is_listed : Bool → Session → Bool
is_listed include_stale s = include_stale || is_active s.status

unfoldable pub of_agent : Option String → Session → Bool
of_agent none s = true
of_agent (some agent) s = s.agent_id == agent

unfoldable pub list_by_agent : String → Bool → Table → List Session
unfolding newest_first is_listed
list_by_agent agent include_stale t =
    newest_first (select (λ s. s.agent_id == agent && is_listed include_stale s) t)

-- The `WHERE` that the optional arguments put together.
unfoldable pub is_selected : String → Option String → Bool → Session → Bool
unfolding is_listed of_agent
is_selected prefix agent include_stale s =
    like (codes s.scope_id) (prefix_pattern (codes prefix))
    && of_agent agent s
    && is_listed include_stale s

unfoldable pub list_by_scope_prefix : String → Option String → Bool → Table → List Session
unfolding newest_first is_selected
list_by_scope_prefix prefix agent include_stale t =
    newest_first (select (is_selected prefix agent include_stale) t)

unfoldable pub list_task_scope : String → String → Option String → Bool → Table → List Session
list_task_scope workspace task agent include_stale t =
    list_by_scope_prefix (task_scope workspace task) agent include_stale t

-- Each row is as recent as the next.
abbrev pub IsNewestFirst : List Session → Type 0
IsNewestFirst [] = Unit
IsNewestFirst (s ∷ []) = Unit
IsNewestFirst (s ∷ r ∷ rs) = (r.updated_at ≤ s.updated_at) × IsNewestFirst (r ∷ rs)

insert_newest-perm : (s : Session) (rs : List Session) → Perm (insert_newest s rs) (s ∷ rs)
unfolding insert_newest
insert_newest-perm s [] = Perm.refl (s ∷ [])
insert_newest-perm s (r ∷ rs) = elim (Bool-cases (leb r.updated_at s.updated_at)) [
  | inl e ↦ rw e (Perm.refl (s ∷ r ∷ rs))
  | inr e ↦ rw e (Perm.trans (Perm.cons r (insert_newest-perm s rs)) (Perm.swap s r rs))
]

insert_newest-IsNewestFirst :
    (s : Session) (rs : List Session) → IsNewestFirst rs → IsNewestFirst (insert_newest s rs)
unfolding insert_newest
insert_newest-IsNewestFirst s [] h = tt
insert_newest-IsNewestFirst s (r ∷ []) h = ground arith
insert_newest-IsNewestFirst s (r ∷ q ∷ rs) h =
    ground (arith, insert_newest-IsNewestFirst s (q ∷ rs) h.1)

newest_first-perm : (rs : List Session) → Perm (newest_first rs) rs
unfolding newest_first
newest_first-perm [] = Perm.refl []
newest_first-perm (s ∷ rs) =
    Perm.trans (insert_newest-perm s (newest_first rs)) (Perm.cons s (newest_first-perm rs))

newest_first-IsNewestFirst : (rs : List Session) → IsNewestFirst (newest_first rs)
unfolding newest_first
newest_first-IsNewestFirst [] = tt
newest_first-IsNewestFirst (s ∷ rs) =
    insert_newest-IsNewestFirst s (newest_first rs) (newest_first-IsNewestFirst rs)

select_ext :
    (p q : Session → Bool) → ((s : Session) → p s ≡ q s) → (t : Table) → select p t ≡ select q t
select_ext p q h [] = refl
select_ext p q h (s ∷ t) = ground (arith, h s, select_ext p q h t)

-- What a caller asks for.
abbrev pub is_wanted : String → Option String → Bool → Session → Bool
is_wanted prefix agent include_stale s =
    has_prefix_nocase (codes prefix) (codes s.scope_id)
    && of_agent agent s
    && is_listed include_stale s

is_selected-eq-is_wanted :
    (prefix : String) (agent : Option String) (include_stale : Bool) (s : Session)
    → is_selected prefix agent include_stale s ≡ is_wanted prefix agent include_stale s
unfolding is_selected
is_selected-eq-is_wanted prefix agent include_stale s =
    rw (like-prefix_pattern (codes prefix) (codes s.scope_id))

-- `list_by_scope_prefix` returns, newest first, exactly the rows whose scope starts with the given
-- prefix up to the case of ASCII letters (whatever `LIKE` wildcards the prefix contains), of the
-- given agent if there is one, and active unless stale rows are asked for.
pub list_by_scope_prefix_lem :
    (prefix : String) (agent : Option String) (include_stale : Bool) (t : Table)
    → Perm
        (list_by_scope_prefix prefix agent include_stale t)
        (select (is_wanted prefix agent include_stale) t)
      × IsNewestFirst (list_by_scope_prefix prefix agent include_stale t)
unfolding list_by_scope_prefix
list_by_scope_prefix_lem prefix agent include_stale t = (
  rw
      (← select_ext (is_selected prefix agent include_stale) (is_wanted prefix agent include_stale)
        (is_selected-eq-is_wanted prefix agent include_stale) t)
      (newest_first-perm (select (is_selected prefix agent include_stale) t)),
  newest_first-IsNewestFirst (select (is_selected prefix agent include_stale) t),
)
