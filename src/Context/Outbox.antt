-- ===== src/Context/Outbox.antt =====
-- The outbox of bridge-owned replies in multinexus/context/store.py. Texts are code points;
-- `str.lower` is a parameter.
use multinexus.Base.{
  ℕ, ◌+◌, Bool, true, false, ◌&&◌, ◌||◌, Option, none, some, List, [], ◌∷◌, ◌++◌, if◌then◌else◌,
  leb, select, take,
}
use multinexus.Base.Text.{strip, is_empty, same_codes}
use multinexus.Base.Result.{Result, ok, err}
use multinexus.Context.{Reply, pending, sent}

abbrev pub is_pending : Reply → Bool
is_pending r = elim r.status [ pending ↦ true | sent ↦ false ]

-- The primary key of the table.
unfoldable pub find_reply : List ℕ → List Reply → Option Reply
find_reply job [] = none
find_reply job (r ∷ rs) =
    let rest = find_reply job rs in if same_codes r.job_id job then some r else rest

-- `UPDATE ... WHERE job_id = ? AND status = 'pending'`
unfoldable pub update_pending : List ℕ → (Reply → Reply) → List Reply → List Reply
update_pending job f [] = []
update_pending job f (r ∷ rs) =
    let rest = update_pending job f rs in
    if same_codes r.job_id job && is_pending r then f r ∷ rest else r ∷ rest

pub data IdentityError : Type 0 where
  empty_identity_field : IdentityError

is_blank : List ℕ → Bool
is_blank s = is_empty (strip s)

unfoldable pub insert_or_ignore : Reply → List Reply → List Reply
insert_or_ignore r rs = elim (find_reply r.job_id rs) [ none ↦ rs ++ r ∷ [] | some s ↦ rs ]

-- `record_runtime_reply`; `now` is the time given or that of the clock.
unfoldable pub record_runtime_reply :
    (List ℕ → List ℕ)
    → (job_id workspace_id platform destination_id quote_message_id : List ℕ) (now : ℕ) → List Reply
    → Result IdentityError (List Reply)
unfolding is_blank
record_runtime_reply lower job_id workspace_id platform destination_id quote_message_id now rs =
    if is_blank job_id || is_blank workspace_id || is_blank platform || is_blank destination_id
    then err empty_identity_field
    else ok (
        insert_or_ignore
          (record {
            job_id = strip job_id;
            workspace_id = strip workspace_id;
            platform = lower (strip platform);
            destination_id = strip destination_id;
            quote_message_id = strip quote_message_id;
            created_at_ms = now;
            status = pending;
            attempts = 0;
            last_error_code = [];
            sent_at_ms = none;
          })
          rs)

unfoldable pub insert_oldest : Reply → List Reply → List Reply
insert_oldest r [] = r ∷ []
insert_oldest r (s ∷ ss) =
    let rest = insert_oldest r ss in
    if leb r.created_at_ms s.created_at_ms then r ∷ s ∷ ss else s ∷ rest

-- `ORDER BY created_at_ms ASC`
unfoldable pub oldest_first : List Reply → List Reply
oldest_first [] = []
oldest_first (r ∷ rs) = insert_oldest r (oldest_first rs)

-- `max(1, min(int(limit), 100))`
unfoldable pub bounded_limit : ℕ → ℕ
bounded_limit limit =
    let most = if leb limit 100 then limit else 100 in if leb 1 most then most else 1

unfoldable pub pending_runtime_replies : (List ℕ → List ℕ) → List ℕ → ℕ → List Reply → List Reply
unfolding is_blank
pending_runtime_replies lower platform limit rs =
    if is_blank platform
    then []
    else take (bounded_limit limit) (
        oldest_first
          (select (λ r. same_codes r.platform (lower (strip platform)) && is_pending r) rs))

unfoldable pub attempted : List ℕ → Reply → Reply
attempted error_code r = record r {
  attempts = r.attempts + 1;
  last_error_code = take 64 error_code;
}

unfoldable pub mark_runtime_reply_attempt : List ℕ → List ℕ → List Reply → List Reply
mark_runtime_reply_attempt job error_code rs = update_pending job (attempted error_code) rs

unfoldable pub acknowledged : ℕ → Reply → Reply
acknowledged now r = record r { status = sent; sent_at_ms = some now }

unfoldable pub mark_runtime_reply_sent : List ℕ → ℕ → List Reply → List Reply
mark_runtime_reply_sent job now rs = update_pending job (acknowledged now) rs
