-- ===== src/Worker/Progress/Examples.antt =====
-- Progress reports of multinexus/agentd/worker.py, and the theorem applied to them.
use multinexus.Base.{ℕ, ◌≡◌, refl, List, [], ◌∷◌, map}
use multinexus.Base.Value.{Value, empty, member, text, object, get}
use multinexus.Context.Prompt.{same_chars}
use multinexus.Worker.Progress.{new_recorder, ProgressReport, record_all}
use multinexus.Worker.Progress.Spaced.{IsRecorder, record_all-IsRecorder}

abbrev session_update : Value
session_update = object (member "stage" (text " edit ") (member "session_id" (text "s4") empty))

-- A first report, a new session half a second later, an update that is too early, and one in time.
abbrev updates : List (ℕ × Value)
updates =
    (50000, text "started")
    ∷ (50500, session_update)
    ∷ (51000, text "reading")
    ∷ (61000, text "done")
    ∷ []

abbrev sent_times : List ProgressReport → List ℕ
sent_times reports = map (λ (r : ProgressReport). r.at) reports

three_reports : sent_times (record_all updates new_recorder).reports ≡ 61000 ∷ 50500 ∷ 50000 ∷ []
unfolding record_all get same_chars
three_reports = refl

record_all-IsRecorder_example : IsRecorder (record_all updates new_recorder)
record_all-IsRecorder_example = record_all-IsRecorder updates
