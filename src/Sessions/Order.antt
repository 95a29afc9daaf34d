-- ===== src/Sessions/Order.antt =====
-- The order token of a row of multinexus/sessions/store.py as a number, and how the writing methods
-- change it.
use multinexus.Base.{
  [], ◌-◌, ◌*◌, ◌∷◌, List, ℕ, ◌+◌, ◌≤◌, ◌<◌, String, ◌≡◌, refl, true, none, some, string_eq,
  option_eq, ==_iff, arith, Option-cases, inl, inr,
}
use multinexus.Base.Text.{codes, decimal_from}
use multinexus.Sessions.{is_positive_decimal, Session, active, parse_order_token}
use multinexus.Sessions.Store.{
  Upsert, inserted, merged, same_context, continues, Advance, may_advance, argument_error, moved,
}

-- The order token of a row as a number, 0 where there is none.
unfoldable pub cursor_order : Session → ℕ
cursor_order s = elim s.context_cursor_order_token [
  | none ↦ 0
  | some token ↦ elim (parse_order_token token) [ none ↦ 0 | some n ↦ n ]
]

-- Both rows are active and belong to one provider session with one rendering of the context.
pub record SameConversation (s s' : Session) : Type 0 where
  pub before_active : s.status ≡ active
  pub after_active : s'.status ≡ active
  pub session : s'.session_id ≡ s.session_id
  pub adapter : s'.adapter ≡ s.adapter
  pub work_dir : s'.work_dir ≡ s.work_dir
  pub generation : s'.context_generation ≡ s.context_generation

parse_order_token-eq :
    (token : String) (n : ℕ) → parse_order_token token ≡ some n → n ≡ decimal_from 0 (codes token)
unfolding parse_order_token
parse_order_token-eq token n h = ground arith

le-decimal_from : (acc : ℕ) (cs : List ℕ) → acc ≤ decimal_from acc cs
unfolding decimal_from
le-decimal_from acc [] = omega arith
le-decimal_from acc (c ∷ cs) = omega (arith, le-decimal_from (acc * 10 + (c - b'0')) cs)

positive_decimal-pos : (cs : List ℕ) → is_positive_decimal cs ≡ true → 0 < decimal_from 0 cs
unfolding is_positive_decimal decimal_from
positive_decimal-pos [] h = cc
positive_decimal-pos (c ∷ cs) h = ground (arith, le-decimal_from (0 * 10 + (c - b'0')) cs)

parse_order_token-pos : (token : String) (n : ℕ) → parse_order_token token ≡ some n → 0 < n
unfolding parse_order_token
parse_order_token-pos token n h = ground (arith, positive_decimal-pos (codes token))

argument_error-parses :
    (a : Advance)
    → argument_error a ≡ none
    → (n : ℕ) × (parse_order_token a.cursor_order_token ≡ some n)
unfolding argument_error
argument_error-parses a h = ground arith

not_reached :
    (a : Advance) (s : Session) (token : String) (n : ℕ)
    → may_advance a (some s) ≡ true
    → s.context_cursor_order_token ≡ some token
    → parse_order_token token ≡ some n
    → n < decimal_from 0 (codes a.cursor_order_token)
unfolding may_advance
not_reached a s token n h e p = ground arith

-- An accepted call moves the cursor to a greater order token.
pub moved-cursor_order :
    (now : ℕ) (a : Advance) (s : Session)
    → argument_error a ≡ none
    → may_advance a (some s) ≡ true
    → cursor_order s < cursor_order (moved now a s)
unfolding cursor_order moved
moved-cursor_order now a s valid h =
    let (n, e) = argument_error-parses a valid in
    elim (Option-cases s.context_cursor_order_token) [
      | inl x ↦ ground (arith, e, parse_order_token-pos a.cursor_order_token n)
      | inr (token, x) ↦ elim (Option-cases (parse_order_token token)) [
        | inl y ↦ ground (arith, e, parse_order_token-pos a.cursor_order_token n)
        | inr (m, y) ↦
            ground
              (arith, e, not_reached a s token m h x y, parse_order_token-eq a.cursor_order_token n)
      ]
    ]

pub cursor_order-merged :
    (now : ℕ) (u : Upsert) (s : Session)
    → SameConversation s (merged now u s)
    → cursor_order (merged now u s) ≡ cursor_order s
unfolding cursor_order merged same_context continues
cursor_order-merged now u s h = ground (
  arith,
  h.before_active,
  h.session,
  h.adapter,
  h.work_dir,
  h.generation,
  ==_iff s.session_id u.session_id,
  ==_iff s.adapter u.adapter,
  ==_iff s.work_dir u.work_dir,
  ==_iff s.context_generation u.context_generation,
)

cursor_order-inserted : (now : ℕ) (u : Upsert) → cursor_order (inserted now u) ≡ 0
unfolding cursor_order inserted
cursor_order-inserted now u = refl
