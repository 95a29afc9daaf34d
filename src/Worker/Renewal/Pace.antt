-- ===== src/Worker/Renewal/Pace.antt =====
-- The pace of the renewals of `_renewal_supervisor` in multinexus/agentd/worker.py.
use multinexus.Base.{
  ℕ, ◌+◌, ◌-◌, ◌*◌, ◌≤◌, ◌≡◌, refl, String, Bool, true, false, Option, none, some, List, [], ◌∷◌,
  arith, leb, leb→le, leb→lt, inl, inr, Bool-cases, ◌⊎◌,
}
use multinexus.Base.Value.{Value}
use Value.{text, object}
use multinexus.Worker.Renewal.{
  to_deadline, Renewal, transport_error, response, Beat, timestamps, in_result, in_response,
  renewed, sleep_until, Request, Supervision, iteration, supervise, renewal_supervisor,
}

-- The clock does not run backwards, and no wait is shorter than its timeout.
unfoldable pub IsTimely : (String → Option ℕ) → ℕ → ℕ → List Beat → Option ℕ → Type 0
IsTimely strptime interval since bs none = Unit
IsTimely strptime interval since [] (some deadline) = Unit
IsTimely strptime interval since (b ∷ bs) (some deadline) =
    (since ≤ b.now)
    × (sleep_until interval deadline b.now ≤ b.answered_at)
    × IsTimely strptime interval b.answered_at bs (renewed strptime b)

-- Each request is due at least a second after the one before it, and no later than its deadline.
unfoldable pub AreSpaced : ℕ → List Request → Type 0
AreSpaced since [] = Unit
AreSpaced since (r ∷ rs) = (since + 1000 ≤ r.due) × (r.due ≤ r.deadline) × AreSpaced r.due rs

-- A deadline is reached already, or whole seconds away.
IsWhole : ℕ → ℕ → Type 0
IsWhole since deadline = (deadline ≤ since) ⊎ ((k : ℕ) × (deadline ≡ since + 1000 * k))

IsWholeNext : ℕ → Option ℕ → Type 0
IsWholeNext since none = Unit
IsWholeNext since (some deadline) = IsWhole since deadline

whole_lem : (since e s : ℕ) → IsWhole since (since + 1000 * e - (1000 * s + 5000))
unfolding IsWhole
whole_lem since e s = elim (Bool-cases (leb (s + 5) e)) [
  | inl h ↦ inr (e - (s + 5), omega (arith, leb→le (s + 5) e h))
  | inr h ↦ inl (omega (arith, leb→lt (s + 5) e h))
]

deadline-IsWhole :
    (now : ℕ) (s e : Option ℕ)
    → IsWholeNext now (elim s [
      | none ↦ none
      | some m ↦ elim e [ none ↦ none | some n ↦ some (now + 1000 * n - (1000 * m + 5000)) ]
    ])
unfolding IsWholeNext
deadline-IsWhole now none e = tt
deadline-IsWhole now (some m) none = tt
deadline-IsWhole now (some m) (some n) = whole_lem now n m

to_deadline-IsWhole :
    (strptime : String → Option ℕ) (now : ℕ) (server_now expires_at : String)
    → IsWholeNext now (to_deadline strptime now server_now expires_at)
unfolding to_deadline
to_deadline-IsWhole strptime now server_now expires_at =
    deadline-IsWhole now (strptime server_now) (strptime expires_at)

timestamps-IsWhole :
    (strptime : String → Option ℕ) (now : ℕ) (v w : Value)
    → IsWholeNext now (timestamps strptime now v w)
unfolding timestamps IsWholeNext
timestamps-IsWhole strptime now (text s) (text e) = to_deadline-IsWhole strptime now s e
timestamps-IsWhole strptime now _ _ = tt

in_result-IsWhole :
    (strptime : String → Option ℕ) (now : ℕ) (v : Value)
    → IsWholeNext now (in_result strptime now v)
unfolding in_result IsWholeNext
in_result-IsWhole strptime now (object ms) = timestamps-IsWhole strptime now _ _
in_result-IsWhole strptime now _ = tt

in_response-IsWhole :
    (strptime : String → Option ℕ) (now : ℕ) (r : Renewal)
    → IsWholeNext now (in_response strptime now r)
unfolding in_response IsWholeNext
in_response-IsWhole strptime now (response (object ms)) = in_result-IsWhole strptime now _
in_response-IsWhole strptime now transport_error = tt
in_response-IsWhole strptime now (response _) = tt

-- From a time on, the next request is due a second later at the earliest.
due_lem :
    (interval since deadline now : ℕ)
    → since ≤ now
    → leb deadline now ≡ false
    → IsWhole since deadline
    → since + 1000 ≤ sleep_until interval deadline now
unfolding IsWhole sleep_until
due_lem interval since deadline now h k (inl w) = absurd (omega (arith, leb→lt deadline now k))
due_lem interval since deadline now h k (inr (n, e)) = omega (arith, leb→lt deadline now k)

AreSpaced-weaken : (s t : ℕ) (rs : List Request) → s ≤ t → AreSpaced t rs → AreSpaced s rs
unfolding AreSpaced
AreSpaced-weaken s t [] h k = tt
AreSpaced-weaken s t (r ∷ rs) h k = (omega (arith, k.0), k.1, k.2)

iteration-AreSpaced :
    (reached stopped : Bool) (since : ℕ) (r : Request) (rest : List Request × Supervision)
    → (reached ≡ false → since + 1000 ≤ r.due)
    → r.due ≤ r.deadline
    → AreSpaced r.due rest.0
    → AreSpaced since (iteration reached stopped r rest).0
unfolding iteration AreSpaced
iteration-AreSpaced true stopped since r rest h k l = tt
iteration-AreSpaced false true since r rest h k l = tt
iteration-AreSpaced false false since r rest h k l = (h refl, k, l)

supervise-AreSpaced :
    (strptime : String → Option ℕ) (interval since : ℕ) (bs : List Beat) (o : Option ℕ)
    → IsTimely strptime interval since bs o
    → IsWholeNext since o
    → AreSpaced since (supervise strptime interval bs o).0
unfolding IsTimely supervise IsWholeNext
supervise-AreSpaced strptime interval since bs none h k = (unfold AreSpaced in tt)
supervise-AreSpaced strptime interval since [] (some d) h k = (unfold AreSpaced in tt)
supervise-AreSpaced strptime interval since (b ∷ bs) (some d) (h1, h2, h3) k =
    let whole : IsWholeNext b.answered_at (renewed strptime b) =
      (unfold renewed in in_response-IsWhole strptime b.answered_at b.renewal) in
    let rest =
      supervise-AreSpaced strptime interval b.answered_at bs (renewed strptime b) h3 whole in
    iteration-AreSpaced (leb d b.now) b.stopped since _ _
      (λ e. due_lem interval since d b.now h1 e k) (unfold sleep_until in omega arith)
      (AreSpaced-weaken (sleep_until interval d b.now) b.answered_at _ h2 rest)

-- If the clock does not run backwards and no wait is shorter than its timeout, then the supervisor asks
-- for a renewal a second after its start at the earliest, and then at most once a second, and each
-- request is due no later than the deadline at that time, whatever the server answers.
pub renewal_supervisor-AreSpaced :
    (strptime : String → Option ℕ) (interval now : ℕ) (server_now expires_at : String)
    (bs : List Beat)
    → IsTimely strptime interval now bs (to_deadline strptime now server_now expires_at)
    → AreSpaced now (renewal_supervisor strptime interval now server_now expires_at bs).0
unfolding renewal_supervisor
renewal_supervisor-AreSpaced strptime interval now server_now expires_at bs h =
    supervise-AreSpaced strptime interval now bs _ h
      (to_deadline-IsWhole strptime now server_now expires_at)
