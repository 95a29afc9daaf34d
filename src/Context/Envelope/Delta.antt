-- ===== src/Context/Envelope/Delta.antt =====
-- The messages that are new since a cursor, in multinexus/context/envelope.py.
use mathlib.Core.Option.{some-injective}
use multinexus.Base.{
  ℕ, zero, suc, ◌+◌, ◌%◌, ◌/◌, ◌≤◌, ◌≡◌, ap, ◌∙◌, refl, String, Bool, true, false, ◌||◌, Option,
  none, some, List, [], ◌∷◌, arith, ltb, select, inl, inr, if◌then◌else◌, Bool-cases, ltb→lt,
}
use multinexus.Base.Text.{codes, is_empty}
use multinexus.Base.Value.{ℤ, pos, Value, Members}
use multinexus.Base.Json.{digits_onto}
use multinexus.Base.Result.{ok}
use multinexus.Context.Envelope.{
  ContextEnvelope, order_text, order, latest, has_anchor, is_after, after_cursor,
  messages_after_cursor, parse_context_envelope,
}
use multinexus.Context.Envelope.Accepted.{
  IsEnvelope, latest_token, parse_context_envelope-IsEnvelope,
}

none_after : (ms : List Members) (n : ℕ) → latest ms ≤ n → select (is_after (pos n)) ms ≡ []
unfolding latest is_after
none_after [] n h = refl
none_after (m ∷ ms) n h =
    let rest = none_after ms n (omega (arith, h)) in
    let old : order m ≤ n = omega (arith, h) in
    elim (Bool-cases (ltb n (order m))) [
      | inl e ↦ absurd (omega (arith, old, ltb→lt n (order m) e))
      | inr e ↦
          ap (λ b. if b then m ∷ select (is_after (pos n)) ms else select (is_after (pos n)) ms) e
          ∙ rest
    ]

digits_nonempty : (fuel n c : ℕ) (rest : List ℕ) → is_empty (digits_onto fuel n (c ∷ rest)) ≡ false
unfolding digits_onto
digits_nonempty zero n c rest = refl
digits_nonempty (suc fuel) n c rest = elim (Bool-cases (ltb n 10)) [
  | inl e ↦ ground arith
  | inr e ↦ ground (arith, digits_nonempty fuel (n / 10) (b'0' + n % 10) (c ∷ rest))
]

order_text-nonempty : (n : ℕ) → is_empty (order_text n) ≡ false
unfolding order_text digits_onto
order_text-nonempty n = elim (Bool-cases (ltb n 10)) [
  | inl e ↦ ground arith
  | inr e ↦ ground (arith, digits_nonempty n (n / 10) (b'0' + n % 10) [])
]

anchored_token :
    (ms : List Members) (n : ℕ) (id : String)
    → has_anchor (pos n) id ms ≡ true
    → latest_token ms ≡ order_text (latest ms)
unfolding has_anchor latest_token
anchored_token [] n id h = cc
anchored_token (m ∷ ms) n id h = refl

cursor_lem :
    (b c : Bool) (o : Option ℤ) (cursor : ℤ) (id : String) (ms : List Members)
    → b ≡ false
    → c ≡ false
    → o ≡ some cursor
    → (if b || c then none else elim o [ none ↦ none | some k ↦ after_cursor k id ms ])
      ≡ after_cursor cursor id ms
cursor_lem true c o cursor id ms h k l = cc
cursor_lem false true o cursor id ms h k l = cc
cursor_lem false false none cursor id ms h k l = cc
cursor_lem false false (some k) cursor id ms h q l =
    ap (λ r. after_cursor r id ms) (some-injective _ _ l)

at_latest :
    (n : ℕ) (id : String) (ms : List Members)
    → has_anchor (pos n) id ms ≡ true
    → latest ms ≤ n
    → after_cursor (pos n) id ms ≡ some []
unfolding after_cursor
at_latest n id ms h k =
    ap (λ b. if b then some (select (is_after (pos n)) ms) else none) h
    ∙ ap some (none_after ms n k)

-- A worker whose cursor is the latest message of an accepted envelope has no new messages: with `int`
-- reading back the decimal text of a number, the messages after the envelope's own order token and the
-- identifier of a message with the greatest order are the empty list, and not the failure to find the
-- cursor.
pub messages_after_cursor-latest :
    (loads : String → Option Value) (int_of : String → Option ℤ) (v : Value) (e : ContextEnvelope)
    (id : String)
    → parse_context_envelope loads int_of v ≡ ok e
    → ((s : String) (n : ℕ) → codes s ≡ order_text n → int_of s ≡ some (pos n))
    → is_empty (codes id) ≡ false
    → has_anchor (pos (latest e.messages)) id e.messages ≡ true
    → messages_after_cursor int_of e e.order_token id ≡ some []
unfolding messages_after_cursor IsEnvelope
messages_after_cursor-latest loads int_of v e id h reads named found =
    let last = latest e.messages in
    let token : codes e.order_token ≡ order_text last =
      (parse_context_envelope-IsEnvelope loads int_of v e h).2
      ∙ anchored_token e.messages last id found in
    cursor_lem (is_empty (codes e.order_token)) (is_empty (codes id)) (int_of e.order_token)
      (pos last) id e.messages (ap is_empty token ∙ order_text-nonempty last) named
      (reads e.order_token last token)
    ∙ at_latest last id e.messages found (omega arith)
