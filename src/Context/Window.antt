-- ===== src/Context/Window.antt =====
-- The window of messages that multinexus/context/store.py puts into a prompt.
use mathlib.Core.Path.{subst, sym, ap}
use mathlib.Core.List.{reverse, reverse-cons}
use multinexus.Base.{
  leb→le, ◌≢◌, ℕ, zero, suc, ◌+◌, ◌-◌, ◌*◌, ◌≤◌, ◌≡◌, refl, Bool, true, ◌&&◌, ◌||◌, List, [], ◌∷◌,
  ◌++◌, arith, ◌⊎◌, inl, inr, ltb, leb, eqb, select, take, length, length-append, All, Bool-cases,
}
use multinexus.Base.Text.{same_codes-eq, eq-same_codes}
use multinexus.Context.{Message}
use multinexus.Context.Messages.{
  is_later, insert_latest, latest_first, line_len, fill, is_recent, recent_messages,
}

-- The characters that the messages take.
unfoldable pub total_len : List Message → ℕ
total_len [] = 0
total_len (m ∷ ms) = line_len m + total_len ms

length-fill :
    (limit budget used count : ℕ) (ms : List Message)
    → 1 ≤ limit
    → count ≤ limit
    → count + length (fill limit budget used count ms) ≤ limit
unfolding fill
length-fill limit budget used count [] h c = omega arith
length-fill limit budget used count (m ∷ ms) h c =
    elim (Bool-cases (leb 1 count && (ltb budget (used + line_len m) || leb limit count))) [
      | inl e ↦ ground arith
      | inr e ↦
          let room : suc count ≤ limit = ground arith in
          ground (arith, length-fill limit budget (used + line_len m) (suc count) ms h room)
    ]

total_len-empty : (ms : List Message) → length ms ≡ 0 → total_len ms ≡ 0
unfolding total_len
total_len-empty [] h = refl
total_len-empty (m ∷ ms) h = absurd (omega arith)

-- After the first message nothing is added that does not fit.
total_len-fill :
    (limit budget used count : ℕ) (ms : List Message)
    → 1 ≤ count
    → (length (fill limit budget used count ms) ≡ 0)
      ⊎ (used + total_len (fill limit budget used count ms) ≤ budget)
unfolding fill total_len
total_len-fill limit budget used count [] h = inl refl
total_len-fill limit budget used count (m ∷ ms) h =
    elim (Bool-cases (leb 1 count && (ltb budget (used + line_len m) || leb limit count))) [
      | inl e ↦ inl (ground arith)
      | inr e ↦
          let fits : used + line_len m ≤ budget = ground arith in
          let rest = fill limit budget (used + line_len m) (suc count) ms in
          inr (
            rw e
              (elim (total_len-fill limit budget (used + line_len m) (suc count) ms (omega arith)) [
                | inl none_left ↦ omega (arith, total_len-empty rest none_left)
                | inr within ↦ omega arith
              ]))
    ]

fill-first :
    (limit budget : ℕ) (m : Message) (ms : List Message)
    → fill limit budget 0 0 (m ∷ ms) ≡ m ∷ fill limit budget (0 + line_len m) 1 ms
unfolding fill
fill-first limit budget m ms = refl

fill-fits :
    (limit budget : ℕ) (ms : List Message)
    → (length (fill limit budget 0 0 ms) ≤ 1) ⊎ (total_len (fill limit budget 0 0 ms) ≤ budget)
unfolding total_len
fill-fits limit budget [] = inl (unfold fill in omega arith)
fill-fits limit budget (m ∷ ms) =
    rw (fill-first limit budget m ms)
      (elim (total_len-fill limit budget (0 + line_len m) 1 ms (omega arith)) [
        | inl e ↦ inl (omega arith)
        | inr e ↦ inr (omega arith)
      ])

length-reverse : (ms : List Message) → length (reverse ms) ≡ length ms
length-reverse [] = refl
length-reverse (m ∷ ms) =
    omega
      (arith, ap length (reverse-cons m ms), length-append (reverse ms) (m ∷ []), length-reverse ms)

total_len-append : (ms ns : List Message) → total_len (ms ++ ns) ≡ total_len ms + total_len ns
unfolding total_len
total_len-append [] ns = omega arith
total_len-append (m ∷ ms) ns = omega (arith, total_len-append ms ns)

total_len-reverse : (ms : List Message) → total_len (reverse ms) ≡ total_len ms
unfolding total_len
total_len-reverse [] = refl
total_len-reverse (m ∷ ms) = omega (
  arith,
  ap total_len (reverse-cons m ms),
  total_len-append (reverse ms) (m ∷ []),
  total_len-reverse ms,
)

-- Each message of the list passes the test.
module _ (p : Message → Bool) where
  Passes : Message → Type 0
  Passes m = p m ≡ true

  select-Passes : (ms : List Message) → All Passes (select p ms)
  unfolding Passes
  select-Passes [] = tt
  select-Passes (m ∷ ms) =
      let rest = select-Passes ms in
      elim (Bool-cases (p m)) [ inl e ↦ rw e (e, rest) | inr e ↦ rw e rest ]

  insert_latest-Passes :
      (m : Message) (ms : List Message) → Passes m → All Passes ms → All Passes (insert_latest m ms)
  unfolding insert_latest
  insert_latest-Passes m [] h hs = (h, tt)
  insert_latest-Passes m (n ∷ ns) h (g, gs) =
      let rest = insert_latest-Passes m ns h gs in
      elim (Bool-cases (is_later m n)) [ inl e ↦ rw e (h, (g, gs)) | inr e ↦ rw e (g, rest) ]

  latest_first-Passes : (ms : List Message) → All Passes ms → All Passes (latest_first ms)
  unfolding latest_first
  latest_first-Passes [] h = tt
  latest_first-Passes (m ∷ ms) (h, hs) =
      insert_latest-Passes m (latest_first ms) h (latest_first-Passes ms hs)

  take-Passes : (n : ℕ) (ms : List Message) → All Passes ms → All Passes (take n ms)
  take-Passes zero ms h = tt
  take-Passes (suc n) [] h = tt
  take-Passes (suc n) (m ∷ ms) (h, hs) = (h, take-Passes n ms hs)

  fill-Passes :
      (limit budget used count : ℕ) (ms : List Message)
      → All Passes ms
      → All Passes (fill limit budget used count ms)
  unfolding fill
  fill-Passes limit budget used count [] h = tt
  fill-Passes limit budget used count (m ∷ ms) (h, hs) =
      let rest = fill-Passes limit budget (used + line_len m) (suc count) ms hs in
      elim (Bool-cases (leb 1 count && (ltb budget (used + line_len m) || leb limit count))) [
        | inl e ↦ rw e tt
        | inr e ↦ rw e (h, rest)
      ]

  append-Passes : (ms ns : List Message) → All Passes ms → All Passes ns → All Passes (ms ++ ns)
  append-Passes [] ns h g = g
  append-Passes (m ∷ ms) ns (h, hs) g = (h, append-Passes ms ns hs g)

  reverse-Passes : (ms : List Message) → All Passes ms → All Passes (reverse ms)
  reverse-Passes [] h = tt
  reverse-Passes (m ∷ ms) (h, hs) =
      subst (All Passes) (sym (reverse-cons m ms))
        (append-Passes (reverse ms) (m ∷ []) (reverse-Passes ms hs) (h, tt))

-- A message of the channel that is not the excluded one and is not older at `now` than `ttl` seconds.
unfoldable pub IsWanted : (now : ℕ) (channel exclude : List ℕ) (ttl : ℕ) → Message → Type 0
IsWanted now channel exclude ttl m =
    (m.channel_id ≡ channel) × (m.message_id ≢ exclude) × (now ≤ m.created_at_ms + ttl * 1000)

recent-IsWanted :
    (now : ℕ) (channel exclude : List ℕ) (ttl : ℕ) (m : Message)
    → is_recent channel exclude (now - ttl * 1000) m ≡ true
    → IsWanted now channel exclude ttl m
unfolding is_recent IsWanted
recent-IsWanted now channel exclude ttl m h = (
  same_codes-eq m.channel_id channel (ground arith),
  λ e. absurd (let g = eq-same_codes m.message_id exclude e in ground arith),
  (let recent : now - ttl * 1000 ≤ m.created_at_ms =
        leb→le (now - ttl * 1000) m.created_at_ms (ground arith) in
      omega arith),
)

recent-All :
    (now : ℕ) (channel exclude : List ℕ) (ttl : ℕ) (ms : List Message)
    → All (λ m. is_recent channel exclude (now - ttl * 1000) m ≡ true) ms
    → All (IsWanted now channel exclude ttl) ms
recent-All now channel exclude ttl [] h = tt
recent-All now channel exclude ttl (m ∷ ms) (h, hs) =
    (recent-IsWanted now channel exclude ttl m h, recent-All now channel exclude ttl ms hs)

-- The window has at most `limit` messages, each of the channel, none of them the excluded one, and none
-- older at `now` than `ttl` seconds, and together they take at most `budget_chars` characters unless there
-- is only one.
pub recent_messages_lem :
    (now : ℕ) (channel exclude : List ℕ) (limit budget ttl : ℕ) (ms : List Message)
    → let window = recent_messages now channel exclude limit budget ttl ms in
      (length window ≤ limit)
      × ((length window ≤ 1) ⊎ (total_len window ≤ budget))
      × All (IsWanted now channel exclude ttl) window
unfolding recent_messages total_len
recent_messages_lem now channel exclude limit budget ttl ms =
    elim (Bool-cases (eqb limit 0 || eqb budget 0 || eqb ttl 0)) [
      | inl e ↦ rw e (omega arith, inl (omega arith), tt)
      | inr e ↦
          let wanted = is_recent channel exclude (now - ttl * 1000) in
          let rows = take (limit * 3) (latest_first (select wanted ms)) in
          let kept = fill limit budget 0 0 rows in
          let passes : All (λ m. wanted m ≡ true) kept =
            unfold Passes in
            fill-Passes wanted limit budget 0 0 rows (
              take-Passes wanted (limit * 3) (latest_first (select wanted ms))
                (latest_first-Passes wanted (select wanted ms) (select-Passes wanted ms))) in
          rw e (
            omega (
              arith,
              length-reverse kept,
              length-fill limit budget 0 0 rows (ground arith) (omega arith),
            ),
            elim (fill-fits limit budget rows) [
              | inl f ↦ inl (omega (arith, length-reverse kept))
              | inr f ↦ inr (omega (arith, total_len-reverse kept))
            ],
            recent-All now channel exclude ttl (reverse kept)
                (unfold Passes in reverse-Passes wanted kept passes),
          )
    ]
