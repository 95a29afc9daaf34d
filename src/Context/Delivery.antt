-- ===== src/Context/Delivery.antt =====
-- A reply of multinexus/context/store.py that has been sent stays sent, whatever is called afterwards.
use multinexus.Base.{
  ℕ, ◌≡◌, refl, sym, Bool, true, false, some, List, [], ◌∷◌, ◌++◌, if◌then◌else◌, arith, Bool-cases,
  Option-cases, inl, inr,
}
use multinexus.Base.Text.{same_codes}
use multinexus.Base.Result.{ok, err, Result-cases}
use multinexus.Context.{Reply}
use multinexus.Context.Outbox.{
  empty_identity_field, is_pending, find_reply, update_pending, insert_or_ignore,
  record_runtime_reply, attempted, acknowledged, mark_runtime_reply_attempt,
  mark_runtime_reply_sent,
}

-- The writing calls of the outbox.
pub data OutboxCall : Type 0 where
  recording : (job workspace platform destination quote : List ℕ) (now : ℕ) → OutboxCall
  attempting : (job error_code : List ℕ) → OutboxCall
  sending : (job : List ℕ) (now : ℕ) → OutboxCall

-- A call that raises writes nothing.
unfoldable pub apply_call : (List ℕ → List ℕ) → OutboxCall → List Reply → List Reply
apply_call lower (recording job workspace platform destination quote now) rs =
    elim (record_runtime_reply lower job workspace platform destination quote now rs) [
      | ok rs' ↦ rs'
      | err e ↦ rs
    ]
apply_call lower (attempting job error_code) rs = mark_runtime_reply_attempt job error_code rs
apply_call lower (sending job now) rs = mark_runtime_reply_sent job now rs

unfoldable pub run_calls : (List ℕ → List ℕ) → List OutboxCall → List Reply → List Reply
run_calls lower [] rs = rs
run_calls lower (c ∷ cs) rs = run_calls lower cs (apply_call lower c rs)

find_reply-append :
    (job : List ℕ) (rs : List Reply) (s r : Reply)
    → find_reply job rs ≡ some r
    → find_reply job (rs ++ s ∷ []) ≡ some r
unfolding find_reply
find_reply-append job [] s r h = cc
find_reply-append job (q ∷ qs) s r h = elim (Bool-cases (same_codes q.job_id job)) [
  | inl e ↦ ground arith
  | inr e ↦ ground (arith, find_reply-append job qs s r (ground arith))
]

insert_or_ignore-keeps :
    (job : List ℕ) (rs : List Reply) (s r : Reply)
    → find_reply job rs ≡ some r
    → find_reply job (insert_or_ignore s rs) ≡ some r
unfolding insert_or_ignore
insert_or_ignore-keeps job rs s r h = elim (Option-cases (find_reply s.job_id rs)) [
  | inl e ↦ ground (arith, find_reply-append job rs s r h)
  | inr (q, e) ↦ ground arith
]

-- An update of pending rows keeps the keys and leaves a row that is sent as it is.
update_pending-keeps :
    (job key : List ℕ) (f : Reply → Reply) (rs : List Reply) (r : Reply)
    → ((q : Reply) → (f q).job_id ≡ q.job_id)
    → find_reply key rs ≡ some r
    → is_pending r ≡ false
    → find_reply key (update_pending job f rs) ≡ some r
unfolding find_reply update_pending
update_pending-keeps job key f [] r same h s = cc
update_pending-keeps job key f (q ∷ qs) r same h s = elim (Bool-cases (same_codes q.job_id key)) [
  | inl e ↦ ground (arith, same q)
  | inr e ↦ ground (arith, same q, update_pending-keeps job key f qs r same (ground arith) s)
]

accepted :
    (c : Bool) (rs rs' : List Reply)
    → (if c then err empty_identity_field else ok rs) ≡ ok rs'
    → rs ≡ rs'
accepted true rs rs' h = cc
accepted false rs rs' h = cc

recorded :
    (lower : List ℕ → List ℕ) (job workspace platform destination quote : List ℕ) (now : ℕ)
    (rs rs' : List Reply)
    → record_runtime_reply lower job workspace platform destination quote now rs ≡ ok rs'
    → (row : Reply) × (rs' ≡ insert_or_ignore row rs)
unfolding record_runtime_reply
recorded lower job workspace platform destination quote now rs rs' h = (_, sym (accepted _ _ rs' h))

apply_call-keeps :
    (lower : List ℕ → List ℕ) (c : OutboxCall) (key : List ℕ) (rs : List Reply) (r : Reply)
    → find_reply key rs ≡ some r
    → is_pending r ≡ false
    → find_reply key (apply_call lower c rs) ≡ some r
unfolding apply_call mark_runtime_reply_attempt mark_runtime_reply_sent
apply_call-keeps lower (recording job workspace platform destination quote now) key rs r h s =
    elim (Result-cases
      (record_runtime_reply lower job workspace platform destination quote now rs)) [
        | inr (x, e) ↦ ground arith
        | inl (rs', e) ↦
            let (row, same) =
              recorded lower job workspace platform destination quote now rs rs' e in
            let kept = insert_or_ignore-keeps key rs row r h in ground arith
      ]
apply_call-keeps lower (attempting job error_code) key rs r h s =
    update_pending-keeps job key (attempted error_code) rs r (λ q. unfold attempted in refl) h s
apply_call-keeps lower (sending job now) key rs r h s =
    update_pending-keeps job key (acknowledged now) rs r (λ q. unfold acknowledged in refl) h s

run_calls-keeps :
    (lower : List ℕ → List ℕ) (calls : List OutboxCall) (key : List ℕ) (rs : List Reply) (r : Reply)
    → find_reply key rs ≡ some r
    → is_pending r ≡ false
    → find_reply key (run_calls lower calls rs) ≡ some r
unfolding run_calls
run_calls-keeps lower [] key rs r h s = h
run_calls-keeps lower (c ∷ cs) key rs r h s =
    run_calls-keeps lower cs key (apply_call lower c rs) r (apply_call-keeps lower c key rs r h s) s

sent-found :
    (job : List ℕ) (now : ℕ) (rs : List Reply) (r : Reply)
    → find_reply job rs ≡ some r
    → is_pending r ≡ true
    → find_reply job (mark_runtime_reply_sent job now rs) ≡ some (acknowledged now r)
unfolding find_reply update_pending mark_runtime_reply_sent acknowledged
sent-found job now [] r h s = cc
sent-found job now (q ∷ qs) r h s = elim (Bool-cases (same_codes q.job_id job)) [
  | inl e ↦ ground arith
  | inr e ↦ ground (arith, sent-found job now qs r (ground arith) s)
]

-- Once `mark_runtime_reply_sent` has acknowledged a pending reply, its row is the acknowledged one
-- after any further calls: it is not recorded again, not attempted again and never pending again.
pub sent_once :
    (lower : List ℕ → List ℕ) (calls : List OutboxCall) (job : List ℕ) (now : ℕ) (rs : List Reply)
    (r : Reply)
    → find_reply job rs ≡ some r
    → is_pending r ≡ true
    → find_reply job (run_calls lower calls (mark_runtime_reply_sent job now rs))
      ≡ some (acknowledged now r)
sent_once lower calls job now rs r h s =
    run_calls-keeps lower calls job (mark_runtime_reply_sent job now rs) (acknowledged now r)
      (sent-found job now rs r h s) (unfold acknowledged in refl)
