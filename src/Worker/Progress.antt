-- ===== src/Worker/Progress.antt =====
-- The progress reports of multinexus/agentd/worker.py: `_normalize_progress` and the callback of
-- `_make_coordinate_progress_callback`. Times are milliseconds of `time.monotonic`; texts are lists of
-- characters.
use multinexus.Base.{
  ℕ, ◌-◌, String, Bool, true, false, not, ◌&&◌, ◌||◌, Option, List, [], ◌∷◌, if◌then◌else◌, leb,
  take,
}
use Prim.Native.Char.{Char}
use multinexus.Base.Text.{is_empty}
use multinexus.Base.Chars.{chars, strip_chars}
use multinexus.Base.Value.{Value, Members, get}
use Value.{text, object}
use multinexus.Context.Prompt.{same_chars}
pub mod Spaced
mod Examples

-- A dictionary with the three keys; a missing key is an empty text, since no value of it is empty.
pub record Progress : Type 0 where
  pub stage : List Char
  pub summary : List Char
  pub session_id : List Char

abbrev pub no_progress : Progress
no_progress = record { stage = []; summary = []; session_id = [] }

-- `value.strip()[:limit]` of a text.
unfoldable pub bounded : ℕ → Value → List Char
unfolding strip_chars
bounded limit (text s) = take limit (strip_chars (chars s))
bounded limit _ = []

unfoldable pub normalize_progress : Value → Progress
unfolding bounded
normalize_progress (object ms) = record {
  stage = bounded 1000 (get "stage" ms);
  summary = bounded 1000 (get "summary" ms);
  session_id = bounded 200 (get "session_id" ms);
}
normalize_progress (text s) = record {
  stage = [];
  summary = bounded 1000 (text s);
  session_id = [];
}
normalize_progress _ = no_progress

unfoldable pub is_no_progress : Progress → Bool
is_no_progress p = is_empty p.stage && (is_empty p.summary && is_empty p.session_id)

-- `state.update(...)` with the values that are not empty.
unfoldable pub update_state : Progress → Progress → Progress
update_state old new = record {
  stage = if is_empty new.stage then old.stage else new.stage;
  summary = if is_empty new.summary then old.summary else new.summary;
  session_id = if is_empty new.session_id then old.session_id else new.session_id;
}

-- A call of `record_progress`, with the time at which it was made.
pub record ProgressReport : Type 0 where
  pub at : ℕ
  pub progress : Progress

-- `state`, `sent` and the reports that were made, the latest first.
pub record Recorder : Type 0 where
  pub state : Progress
  pub sent_at : ℕ
  pub sent_session_id : List Char
  pub reports : List ProgressReport

abbrev pub new_recorder : Recorder
new_recorder = record { state = no_progress; sent_at = 0; sent_session_id = []; reports = [] }

unfoldable pub is_new_session : List Char → List Char → Bool
is_new_session session sent = not (is_empty session) && not (same_chars session sent)

-- A new session is reported at once, and everything else ten seconds after the last report.
unfoldable pub should_send : ℕ → Progress → Recorder → Bool
unfolding is_new_session
should_send now p r = is_new_session p.session_id r.sent_session_id || leb 10000 (now - r.sent_at)

unfoldable pub send : ℕ → Progress → Recorder → Recorder
send now p r = record r {
  sent_at = now;
  sent_session_id = if is_empty p.session_id then r.sent_session_id else p.session_id;
  reports = record { at = now; progress = p } ∷ r.reports;
}

unfoldable pub after_progress : ℕ → Progress → Recorder → Recorder
unfolding is_no_progress update_state should_send send
after_progress now p r =
    if is_no_progress p
    then r
    else if should_send now p r
    then send now p (record r { state = update_state r.state p })
    else record r { state = update_state r.state p }

-- The callback of one update.
unfoldable pub record_update : ℕ → Value → Recorder → Recorder
unfolding normalize_progress after_progress
record_update now update r = after_progress now (normalize_progress update) r

-- A run of updates, each with its time.
unfoldable pub record_all : List (ℕ × Value) → Recorder → Recorder
unfolding record_update
record_all [] r = r
record_all ((now, update) ∷ us) r = record_all us (record_update now update r)
