-- ===== src/Worker/Progress/Spaced.antt =====
-- How often and how much multinexus/agentd/worker.py reports as progress.
use multinexus.Base.{
  ℕ, ◌+◌, ◌-◌, ◌≤◌, ◌≡◌, ◌⊎◌, refl, ap, sym, true, ◌||◌, List, [], ◌∷◌, if◌then◌else◌, leb, leb→le,
  if-cases, ◌∙◌, length, length-take, arith, Bool-cases, inl, inr,
}
use mathlib.Core.Path.{subst}
use Prim.Native.Char.{Char}
use multinexus.Base.Text.{is_empty}
use multinexus.Base.Chars.{chars, strip_chars}
use multinexus.Base.Value.{Value, get}
use Value.{null, boolean, int, float, decimal, text, array, object}
use multinexus.Worker.Progress.{
  Progress, bounded, normalize_progress, update_state, ProgressReport, Recorder, new_recorder,
  is_new_session, should_send, send, after_progress, record_update, record_all,
}

-- The session that was reported last.
unfoldable pub last_session : List ProgressReport → List Char
last_session [] = []
last_session (x ∷ xs) =
    if is_empty x.progress.session_id then last_session xs else x.progress.session_id

-- The time of the report that was made last, from 0.
unfoldable pub last_time : List ProgressReport → ℕ
last_time [] = 0
last_time (x ∷ xs) = x.at

unfoldable pub IsShort : Progress → Type 0
IsShort p = (length p.stage ≤ 1000) × (length p.summary ≤ 1000) × (length p.session_id ≤ 200)

-- Each report is short, and it has a session that differs from the last that was reported, or comes ten
-- seconds after the report before it; the first one is measured from 0.
unfoldable pub AreSpaced : List ProgressReport → Type 0
AreSpaced [] = Unit
AreSpaced (x ∷ xs) =
    IsShort x.progress
    × ((is_new_session x.progress.session_id (last_session xs) ≡ true)
        ⊎ (last_time xs + 10000 ≤ x.at))
    × AreSpaced xs

-- What the callback keeps.
unfoldable pub IsRecorder : Recorder → Type 0
IsRecorder r =
    AreSpaced r.reports
    × IsShort r.state
    × (r.sent_session_id ≡ last_session r.reports)
    × (r.sent_at ≡ last_time r.reports)

bounded-le : (limit : ℕ) (v : Value) → length (bounded limit v) ≤ limit
unfolding bounded
bounded-le limit (text s) = omega (arith, length-take limit (strip_chars (chars s)))
bounded-le limit null = omega arith
bounded-le limit (boolean b) = omega arith
bounded-le limit (int n) = omega arith
bounded-le limit (float s) = omega arith
bounded-le limit (decimal d) = omega arith
bounded-le limit (array vs) = omega arith
bounded-le limit (object ms) = omega arith

normalize_progress-IsShort : (v : Value) → IsShort (normalize_progress v)
unfolding normalize_progress IsShort
normalize_progress-IsShort (object ms) = (
  bounded-le 1000 (get "stage" ms),
  bounded-le 1000 (get "summary" ms),
  bounded-le 200 (get "session_id" ms),
)
normalize_progress-IsShort (text s) = (omega arith, bounded-le 1000 (text s), omega arith)
normalize_progress-IsShort null = omega arith
normalize_progress-IsShort (boolean b) = omega arith
normalize_progress-IsShort (int n) = omega arith
normalize_progress-IsShort (float s) = omega arith
normalize_progress-IsShort (decimal d) = omega arith
normalize_progress-IsShort (array vs) = omega arith

update_state-IsShort : (p q : Progress) → IsShort p → IsShort q → IsShort (update_state p q)
unfolding IsShort update_state
update_state-IsShort p q h k = ground arith

-- A report that is due is spaced from those before it.
due :
    (now : ℕ) (p : Progress) (r : Recorder)
    → should_send now p r ≡ true
    → (is_new_session p.session_id r.sent_session_id ≡ true) ⊎ (r.sent_at + 10000 ≤ now)
unfolding should_send
due now p r h = elim (Bool-cases (is_new_session p.session_id r.sent_session_id)) [
  | inl e ↦ inl e
  | inr e ↦ inr (
      omega (
        arith,
        leb→le 10000 (now - r.sent_at) (sym (ap (λ b. b || leb 10000 (now - r.sent_at)) e) ∙ h),
      ))
]

send-IsRecorder :
    (now : ℕ) (p q : Progress) (r : Recorder)
    → IsShort p
    → IsShort q
    → IsRecorder r
    → should_send now p r ≡ true
    → IsRecorder (send now p (record r { state = q }))
unfolding send IsRecorder AreSpaced last_session last_time
send-IsRecorder now p q r short short' (spaced, state, session, time) h = (
  (
    short,
    (elim (due now p r h) [
      | inl e ↦ inl (subst (λ s. is_new_session p.session_id s ≡ true) session e)
      | inr e ↦ inr (subst (λ t. t + 10000 ≤ now) time e)
    ]),
    spaced,
  ),
  short',
  ap (λ s. if is_empty p.session_id then s else p.session_id) session,
  refl,
)

keep-IsRecorder :
    (q : Progress) (r : Recorder) → IsShort q → IsRecorder r → IsRecorder (record r { state = q })
unfolding IsRecorder
keep-IsRecorder q r short (spaced, state, session, time) = (spaced, short, session, time)

after_progress-IsRecorder :
    (now : ℕ) (p : Progress) (r : Recorder)
    → IsShort p
    → IsRecorder r
    → IsRecorder (after_progress now p r)
unfolding after_progress
after_progress-IsRecorder now p r short h =
    let short' = update_state-IsShort r.state p (unfold IsRecorder in h.1) short in
    let kept = record r { state = update_state r.state p } in
    if-cases IsRecorder _ _ _ (λ _. h)
      (λ _.
        if-cases IsRecorder (should_send now p r) (send now p kept) kept
          (send-IsRecorder now p (update_state r.state p) r short short' h)
          (λ _. keep-IsRecorder (update_state r.state p) r short' h))

all-IsRecorder :
    (us : List (ℕ × Value)) (r : Recorder) → IsRecorder r → IsRecorder (record_all us r)
unfolding record_all record_update
all-IsRecorder [] r h = h
all-IsRecorder ((now, update) ∷ us) r h = all-IsRecorder us (record_update now update r) (
    after_progress-IsRecorder now (normalize_progress update) r (normalize_progress-IsShort update)
      h)

-- Whatever a provider sends as progress and whenever, each report has a stage and a summary of at most
-- 1000 characters and a session of at most 200, and comes at least ten seconds after the report before it
-- unless it has a session that differs from the last that was reported; the progress that the final
-- report carries is as short, and the callback remembers the time and the session of the last report.
pub record_all-IsRecorder : (us : List (ℕ × Value)) → IsRecorder (record_all us new_recorder)
unfolding IsRecorder AreSpaced IsShort last_session last_time
record_all-IsRecorder us =
    all-IsRecorder us new_recorder
      (unfold IsRecorder in (tt, (omega arith, omega arith, omega arith), refl, refl))
