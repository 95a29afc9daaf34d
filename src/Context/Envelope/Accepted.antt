-- ===== src/Context/Envelope/Accepted.antt =====
-- What `parse_context_envelope` of multinexus/context/envelope.py accepts.
use mathlib.Core.Path.{subst}
use multinexus.Base.{
  ℕ, zero, suc, ◌≤◌, ◌≡◌, ap, ◌∙◌, refl, sym, String, true, false, not, Option, none, some, List,
  [], ◌∷◌, arith, leb, leb→le, length,
}
use multinexus.Base.Text.{codes, is_empty, same_codes, same_codes-eq}
use multinexus.Base.Value.{ℤ, pos, negsuc, Value, Items, nil, item, Members, get, items_length}
use Value.{null, boolean, int, float, decimal, text, array, object}
use multinexus.Base.Result.{ok, err, after_bind, after_require, ok-injective}
use multinexus.Context.Envelope.{
  ContextEnvelope, rejected, order_text, string_of, nonempty_string, is_version, is_true, is_bot_id,
  is_int, is_boolean, order_of, contains_order, message_order, message_fields, read_messages, order,
  latest, order_token_matches, is_current_token, items_of, parse_envelope_fields, parse_value,
  parse_context_envelope,
}

-- The content is a text of bounded length.
unfoldable pub HasContent : Members → Type 0
HasContent m = (s : String) × (get "content" m ≡ text s) × (length (codes s) ≤ 10000)

-- The orders are positive and distinct, and other than those seen before.
unfoldable pub AreOrdered : List ℕ → List Members → Type 0
AreOrdered seen [] = Unit
AreOrdered seen (m ∷ ms) =
    (1 ≤ order m)
    × (contains_order (order m) seen ≡ false)
    × HasContent m
    × AreOrdered (order m ∷ seen) ms

-- The token of the latest message.
unfoldable pub latest_token : List Members → List ℕ
latest_token [] = []
latest_token (m ∷ ms) = order_text (latest (m ∷ ms))

-- The current message's token is the decimal text of a positive number, which `int` reads.
IsCurrent : (String → Option ℤ) → String → Type 0
IsCurrent int_of token =
    (n : ℕ) × (int_of token ≡ some (pos (suc n))) × (order_text (suc n) ≡ codes token)

unfoldable pub IsEnvelope : (String → Option ℤ) → ContextEnvelope → Type 0
unfolding IsCurrent
IsEnvelope int_of e =
    (length e.messages ≤ 500)
    × AreOrdered [] e.messages
    × (codes e.order_token ≡ latest_token e.messages)
    × IsCurrent int_of e.current_order_token
    × (length (codes e.current_text) ≤ 100000)
    × (e.complete ≡ true)

string_of-eq-ok : (v : Value) (s : String) → string_of v ≡ ok s → v ≡ text s
unfolding string_of
string_of-eq-ok (text t) s h = ap text (ok-injective _ _ _ refl h)
string_of-eq-ok null s h = cc
string_of-eq-ok (boolean b) s h = cc
string_of-eq-ok (int n) s h = cc
string_of-eq-ok (float t) s h = cc
string_of-eq-ok (decimal d) s h = cc
string_of-eq-ok (array vs) s h = cc
string_of-eq-ok (object ms) s h = cc

order_lem :
    (v : Value) (n : ℕ) → order_of v ≡ ok n → (1 ≤ n) × ((elim v [ int (pos m) ↦ m | _ ↦ 0 ]) ≡ n)
unfolding order_of
order_lem (int (pos zero)) n h = cc
order_lem (int (pos (suc m))) n h =
    let e : suc m ≡ n = ok-injective _ _ _ refl h in (omega (arith, e), e)
order_lem (int (negsuc m)) n h = cc
order_lem null n h = cc
order_lem (boolean b) n h = cc
order_lem (float t) n h = cc
order_lem (decimal d) n h = cc
order_lem (text s) n h = cc
order_lem (array vs) n h = cc
order_lem (object ms) n h = cc

message_order-HasContent :
    (seen : List ℕ) (m : Members) (n : ℕ)
    → message_order seen m ≡ ok n
    → (order m ≡ n) × (1 ≤ n) × (contains_order n seen ≡ false) × HasContent m
unfolding message_order HasContent order
message_order-HasContent seen m n h = after_require (is_int (get "created_at_ms" m)) _ _ h λ e1 h1.
    after_bind (string_of (get "message_id" m)) _ h1 λ id e2 h2.
      after_bind (string_of (get "author_id" m)) _ h2 λ author e3 h3.
        after_bind (string_of (get "author_name" m)) _ h3 λ name e4 h4.
          after_bind (string_of (get "content" m)) _ h4 λ content e5 h5.
            after_require (is_boolean (get "author_is_bot" m)) _ _ h5 λ e6 h6.
              after_require (leb (length (codes content)) 10000) _ _ h6 λ e7 h7.
                after_bind (order_of (get "context_order" m)) _ h7 λ k e8 h8.
                  after_require (not (contains_order k seen)) _ _ h8 λ e9 h9.
                    after_require (not (is_empty (codes id))) _ _ h9 λ e10 h10.
                      let found = order_lem _ k e8 in
                      let same : k ≡ n = ok-injective _ _ _ refl h10 in
                      subst
                        (λ r.
                          ((elim (get "context_order" m) [ int (pos j) ↦ j | _ ↦ 0 ]) ≡ r)
                          × (1 ≤ r)
                          × (contains_order r seen ≡ false)
                          × ((s : String) × (get "content" m ≡ text s)
                              × (length (codes s) ≤ 10000)))
                        same
                        (
                          found.1,
                          found.0,
                          new k e9,
                          (content, string_of-eq-ok _ content e5, leb→le _ _ e7),
                        )
  where
    new : (k : ℕ) → not (contains_order k seen) ≡ true → contains_order k seen ≡ false
    new k e = ground arith

read_messages-AreOrdered :
    (seen : List ℕ) (vs : Items) (ms : List Members)
    → read_messages seen vs ≡ ok ms
    → (items_length vs ≡ length ms) × AreOrdered seen ms
unfolding read_messages AreOrdered items_length
read_messages-AreOrdered seen nil [] h = (refl, tt)
read_messages-AreOrdered seen nil (m ∷ ms) h = cc
read_messages-AreOrdered seen (item v vs) ms h = after_bind (message_fields v) _ h λ m e1 h1.
    after_bind (message_order seen m) _ h1 λ n e2 h2.
      after_bind (read_messages (n ∷ seen) vs) _ h2 λ rest e3 h3.
        let found = message_order-HasContent seen m n e2 in
        let tail = read_messages-AreOrdered (n ∷ seen) vs rest e3 in
        subst (λ r. (suc (items_length vs) ≡ length r) × AreOrdered seen r)
          (ok-injective _ _ _ refl h3)
          (
            ap suc tail.0,
            (
              omega (arith, found.0, found.1),
              ap (λ r. contains_order r seen) found.0 ∙ found.2,
              found.3,
              subst (λ r. AreOrdered (r ∷ seen) rest) (sym found.0) tail.1,
            ),
          )

order_token_matches-eq :
    (ms : List Members) (token : String)
    → order_token_matches ms token ≡ true
    → codes token ≡ latest_token ms
unfolding order_token_matches latest_token
order_token_matches-eq [] token h = empty_codes (codes token) h
  where
    empty_codes : (cs : List ℕ) → is_empty cs ≡ true → cs ≡ []
    empty_codes [] e = refl
    empty_codes (c ∷ cs) e = cc
order_token_matches-eq (m ∷ ms) token h = same_codes-eq _ _ h

current_lem :
    (token : String) (o : Option ℤ)
    → (elim o [ some (pos (suc n)) ↦ same_codes (order_text (suc n)) (codes token) | _ ↦ false ])
      ≡ true
    → (n : ℕ) × (o ≡ some (pos (suc n))) × (order_text (suc n) ≡ codes token)
current_lem token none h = cc
current_lem token (some (pos zero)) h = cc
current_lem token (some (pos (suc n))) h = (n, refl, same_codes-eq _ _ h)
current_lem token (some (negsuc n)) h = cc

is_current_token-IsCurrent :
    (int_of : String → Option ℤ) (token : String)
    → is_current_token int_of token ≡ true
    → IsCurrent int_of token
unfolding is_current_token IsCurrent
is_current_token-IsCurrent int_of token h = current_lem token (int_of token) h

fields-IsEnvelope :
    (int_of : String → Option ℤ) (ms : Members) (e : ContextEnvelope)
    → parse_envelope_fields int_of ms ≡ ok e
    → IsEnvelope int_of e
unfolding parse_envelope_fields IsEnvelope
fields-IsEnvelope int_of ms e h = after_require (is_version (get "version" ms)) _ _ h λ e0 h0.
    after_bind (nonempty_string (get "scope_id" ms)) _ h0 λ scope e1 h1.
      after_bind (nonempty_string (get "session_scope_id" ms)) _ h1 λ session e2 h2.
        after_bind (nonempty_string (get "generation" ms)) _ h2 λ generation e3 h3.
          after_bind (string_of (get "current_text" ms)) _ h3 λ current e4 h4.
            after_bind (nonempty_string (get "current_message_id" ms)) _ h4 λ id e5 h5.
              after_bind (nonempty_string (get "current_order_token" ms)) _ h5 λ token e6 h6.
                after_bind (string_of (get "order_token" ms)) _ h6 λ last e7 h7.
                  after_require (is_true (get "complete" ms)) _ _ h7 λ e8 h8.
                    after_require (is_bot_id (get "bot_id" ms)) _ _ h8 λ e9 h9.
                      after_bind (items_of (get "messages" ms)) _ h9 λ items e10 h10.
                        after_require (leb (items_length items) 500) _ _ h10 λ e11 h11.
                          after_require (leb (length (codes current)) 100000) _ _ h11 λ e12 h12.
                            after_bind (read_messages [] items) _ h12 λ messages e13 h13.
                              after_require (order_token_matches messages last) _ _ h13 λ e14 h14.
                                after_require (is_current_token int_of token) _ _ h14 λ e15 h15.
                                  let found = read_messages-AreOrdered [] items messages e13 in
                                  subst (IsEnvelope int_of) (ok-injective _ _ _ refl h15) (
                                    omega (arith, found.0, leb→le _ _ e11),
                                    found.1,
                                    order_token_matches-eq messages last e14,
                                    is_current_token-IsCurrent int_of token e15,
                                    leb→le _ _ e12,
                                    refl,
                                  )

value-IsEnvelope :
    (int_of : String → Option ℤ) (v : Value) (e : ContextEnvelope)
    → parse_value int_of v ≡ ok e
    → IsEnvelope int_of e
unfolding parse_value
value-IsEnvelope int_of (object ms) e h = fields-IsEnvelope int_of ms e h
value-IsEnvelope int_of null e h = cc
value-IsEnvelope int_of (boolean b) e h = cc
value-IsEnvelope int_of (int n) e h = cc
value-IsEnvelope int_of (float t) e h = cc
value-IsEnvelope int_of (decimal d) e h = cc
value-IsEnvelope int_of (text s) e h = cc
value-IsEnvelope int_of (array vs) e h = cc

loaded-IsEnvelope :
    (int_of : String → Option ℤ) (o : Option Value) (e : ContextEnvelope)
    → (elim o [ none ↦ err rejected | some v ↦ parse_value int_of v ]) ≡ ok e
    → IsEnvelope int_of e
loaded-IsEnvelope int_of none e h = cc
loaded-IsEnvelope int_of (some v) e h = value-IsEnvelope int_of v e h

-- An accepted envelope has at most 500 messages, with distinct positive orders and contents of at most
-- 10000 characters; its order token is the decimal text of the greatest order, and empty without
-- messages; its current order token is the decimal text of a positive number; its current text is at
-- most 100000 characters long; and it is complete.
pub parse_context_envelope-IsEnvelope :
    (loads : String → Option Value) (int_of : String → Option ℤ) (v : Value) (e : ContextEnvelope)
    → parse_context_envelope loads int_of v ≡ ok e
    → IsEnvelope int_of e
unfolding parse_context_envelope
parse_context_envelope-IsEnvelope loads int_of (text s) e h = loaded-IsEnvelope int_of (loads s) e h
parse_context_envelope-IsEnvelope loads int_of null e h = value-IsEnvelope int_of null e h
parse_context_envelope-IsEnvelope loads int_of (boolean b) e h =
    value-IsEnvelope int_of (boolean b) e h
parse_context_envelope-IsEnvelope loads int_of (int n) e h = value-IsEnvelope int_of (int n) e h
parse_context_envelope-IsEnvelope loads int_of (float t) e h = value-IsEnvelope int_of (float t) e h
parse_context_envelope-IsEnvelope loads int_of (decimal d) e h =
    value-IsEnvelope int_of (decimal d) e h
parse_context_envelope-IsEnvelope loads int_of (array vs) e h =
    value-IsEnvelope int_of (array vs) e h
parse_context_envelope-IsEnvelope loads int_of (object ms) e h =
    value-IsEnvelope int_of (object ms) e h
