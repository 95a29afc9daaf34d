-- ===== src/Worker/Renewal.antt =====
-- `_renewal_supervisor` of multinexus/agentd/worker.py. Times are milliseconds of the monotonic clock,
-- without the rounding of floating point; `strptime` gives seconds, and `none` for its `ValueError`.
use multinexus.Base.{
  ℕ, zero, suc, ◌+◌, ◌-◌, ◌*◌, ◌≤◌, ◌<◌, ◌≡◌, ap, refl, String, Bool, true, false, Option, none,
  some, List, [], ◌∷◌, if◌then◌else◌, arith, leb, leb→le, leb→lt, inl, inr, Bool-cases,
  Option-cases, ◌⊎◌,
}
use Prim.Native.Nat.{min, max}
use multinexus.Base.Value.{Value, Members, get}
use Value.{text, object}
pub mod Pace
mod Examples

-- `RENEWAL_SAFETY_MARGIN_SECONDS`
abbrev pub safety_margin_seconds : ℕ
safety_margin_seconds = 5

-- `_to_monotonic_deadline` at the time `now`. A deadline before the start of the clock is its start:
-- both are reached.
unfoldable pub to_deadline : (String → Option ℕ) → ℕ → String → String → Option ℕ
to_deadline strptime now server_now expires_at = elim (strptime server_now) [
  | none ↦ none
  | some s ↦ elim (strptime expires_at) [
    | none ↦ none
    | some e ↦ some (now + 1000 * e - (1000 * s + 1000 * safety_margin_seconds))
  ]
]

-- How a call of `renew_lease` ends.
pub data Renewal : Type 0 where
  transport_error : Renewal
  response : Value → Renewal

-- An iteration: the time at its start, whether the event is set during the wait, and how and when the
-- renewal ends.
pub record Beat : Type 0 where
  pub now : ℕ
  pub stopped : Bool
  pub renewal : Renewal
  pub answered_at : ℕ

unfoldable pub timestamps : (String → Option ℕ) → ℕ → Value → Value → Option ℕ
timestamps strptime now (text server_now) (text expires_at) =
    to_deadline strptime now server_now expires_at
timestamps strptime now _ _ = none

unfoldable pub in_result : (String → Option ℕ) → ℕ → Value → Option ℕ
in_result strptime now (object ms) =
    timestamps strptime now (get "server_now" ms) (get "expires_at" ms)
in_result strptime now _ = none

unfoldable pub in_response : (String → Option ℕ) → ℕ → Renewal → Option ℕ
in_response strptime now (response (object ms)) = in_result strptime now (get "result" ms)
in_response strptime now _ = none

-- The next deadline, or none where the lease is lost.
unfoldable pub renewed : (String → Option ℕ) → Beat → Option ℕ
unfolding timestamps in_result in_response
renewed strptime b = in_response strptime b.answered_at b.renewal

-- `sleep_until`
unfoldable pub sleep_until : ℕ → ℕ → ℕ → ℕ
sleep_until interval deadline now = min deadline (now + 1000 * max 1 interval)

-- A renewal that is asked for: when it is due, and the deadline at that time.
pub record Request : Type 0 where
  pub due : ℕ
  pub deadline : ℕ

-- Waiting with a deadline, the lease marked as lost, or the event set by another task.
pub data Supervision : Type 0 where
  waiting : ℕ → Supervision
  lost ended : Supervision

-- An iteration: whether the deadline is reached, whether the event is set, the request, and what follows.
unfoldable pub iteration :
    Bool → Bool → Request → List Request × Supervision → List Request × Supervision
iteration true stopped r rest = ([], lost)
iteration false true r rest = ([], ended)
iteration false false r rest = (r ∷ rest.0, rest.1)

-- The loop, with the requests that it makes; without a deadline the lease is lost.
unfoldable pub supervise :
    (String → Option ℕ) → ℕ → List Beat → Option ℕ → List Request × Supervision
supervise strptime interval bs none = ([], lost)
supervise strptime interval [] (some deadline) = ([], waiting deadline)
supervise strptime interval (b ∷ bs) (some deadline) =
    iteration (leb deadline b.now) b.stopped
      (record { due = sleep_until interval deadline b.now; deadline = deadline })
      (supervise strptime interval bs (renewed strptime b))

-- `_renewal_supervisor` on the lease's own timestamps, started at the time `now`. The lease has been
-- validated, so that its timestamps are dates.
unfoldable pub renewal_supervisor :
    (String → Option ℕ) → ℕ → ℕ → String → String → List Beat → List Request × Supervision
renewal_supervisor strptime interval now server_now expires_at bs =
    supervise strptime interval bs (to_deadline strptime now server_now expires_at)
