-- ===== src/Worker/Renewal/Examples.antt =====
-- A lease of multinexus/agentd/worker.py that is renewed once and then lost, with the dates of the
-- example of the lease.
use multinexus.Base.{◌≡◌, refl, false, List, [], ◌∷◌, arith}
use multinexus.Base.Value.{Value, empty, member, get, lookup}
use Value.{text, object}
use multinexus.Lease.Examples.{date_of}
use multinexus.Worker.Renewal.{
  to_deadline, transport_error, response, Beat, timestamps, in_result, in_response, renewed,
  sleep_until, lost, iteration, supervise, renewal_supervisor,
}
use multinexus.Worker.Renewal.Pace.{IsTimely, AreSpaced, renewal_supervisor-AreSpaced}

abbrev answer : Value
answer = object (
    member "result"
      (object (
        member "server_now" (text "2026-01-01T00:00:10Z")
          (member "expires_at" (text "2026-01-01T00:01:00Z") empty)))
      empty)

abbrev beats : List Beat
beats =
    record { now = 1; stopped = false; renewal = response answer; answered_at = 20100 }
    ∷ record { now = 20150; stopped = false; renewal = transport_error; answered_at = 40200 }
    ∷ []

renewed_once :
    renewal_supervisor date_of 20 0 "2026-01-01T00:00:10Z" "2026-01-01T00:01:00Z" beats ≡ (
      record { due = 20001; deadline = 45000 } ∷ record { due = 40150; deadline = 65100 } ∷ [],
      lost,
    )
unfolding renewal_supervisor supervise iteration to_deadline timestamps in_result in_response
    renewed sleep_until get lookup
renewed_once = refl

beats-IsTimely :
    IsTimely date_of 20 0 beats
      (to_deadline date_of 0 "2026-01-01T00:00:10Z" "2026-01-01T00:01:00Z")
unfolding IsTimely to_deadline timestamps in_result in_response renewed sleep_until get lookup
beats-IsTimely = (omega arith, omega arith, (omega arith, omega arith, tt))

renewal_supervisor-AreSpaced_example :
    AreSpaced 0
      (renewal_supervisor date_of 20 0 "2026-01-01T00:00:10Z" "2026-01-01T00:01:00Z" beats).0
renewal_supervisor-AreSpaced_example =
    renewal_supervisor-AreSpaced date_of 20 0 "2026-01-01T00:00:10Z" "2026-01-01T00:01:00Z" beats
      beats-IsTimely
