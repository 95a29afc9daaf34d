-- ===== src/Context/Envelope/Again.antt =====
-- `to_dict` of multinexus/context/envelope.py, read again by `parse_context_envelope`.
use mathlib.Core.Path.{subst}
use mathlib.Core.Option.{some-injective}
use multinexus.Base.{
  ℕ, ◌≡◌, ap, ◌∙◌, refl, sym, String, true, not, Option, none, some, List, [], ◌∷◌, leb, length,
}
use multinexus.Base.Text.{codes, is_empty}
use multinexus.Base.Value.{ℤ, Value, Items, nil, item, Members, get, lookup, items_length}
use Value.{null, boolean, int, float, decimal, text, array, object}
use multinexus.Base.Result.{
  ok, err, after_bind, after_require, bind_ok, require_ok, ok-injective, Result-cases,
}
use multinexus.Base.{inl, inr}
use multinexus.Context.Envelope.{
  ContextEnvelope, rejected, string_of, nonempty_string, is_version, is_true, is_bot_id,
  message_order, message_fields, read_messages, order_token_matches, is_current_token, items_of,
  parse_envelope_fields, parse_value, parse_context_envelope, message_items, envelope_to_dict,
  parsed_envelope,
}

fields-eq : (v : Value) (ms : Members) → message_fields v ≡ ok ms → object ms ≡ v
unfolding message_fields
fields-eq (object ns) ms h = ap object (sym (ok-injective _ _ _ refl h))
fields-eq null ms h = cc
fields-eq (boolean b) ms h = cc
fields-eq (int n) ms h = cc
fields-eq (float t) ms h = cc
fields-eq (decimal d) ms h = cc
fields-eq (text s) ms h = cc
fields-eq (array vs) ms h = cc

-- The messages are the dictionaries of the document.
message_items-read :
    (seen : List ℕ) (vs : Items) (ms : List Members)
    → read_messages seen vs ≡ ok ms
    → message_items ms ≡ vs
unfolding read_messages message_items
message_items-read seen nil ms h = ap message_items (sym (ok-injective _ _ _ refl h))
message_items-read seen (item v vs) ms h = after_bind (message_fields v) _ h λ fields e1 h1.
    after_bind (message_order seen fields) _ h1 λ order e2 h2.
      after_bind (read_messages (order ∷ seen) vs) _ h2 λ rest e3 h3.
        ap message_items (sym (ok-injective _ _ _ refl h3))
        ∙ (λ i. item (fields-eq v fields e1 i) (message_items-read (order ∷ seen) vs rest e3 i))

string_of-again : (v : Value) (s : String) → string_of v ≡ ok s → string_of (text s) ≡ ok s
unfolding string_of
string_of-again v s h = refl

nonempty-again :
    (v : Value) (s : String) → nonempty_string v ≡ ok s → nonempty_string (text s) ≡ ok s
unfolding nonempty_string string_of
nonempty-again v s h = after_bind (string_of v) _ h λ t e1 h1.
    after_require (not (is_empty (codes t))) _ _ h1 λ e2 h2.
      require_ok _ _ _
        (subst (λ u. not (is_empty (codes u)) ≡ true) (ok-injective _ _ _ refl h2) e2) refl

-- The dictionary of an envelope that was read from a dictionary is read as the same envelope.
fields-again :
    (int_of : String → Option ℤ) (ms : Members) (e : ContextEnvelope)
    → parse_envelope_fields int_of ms ≡ ok e
    → parse_value int_of (envelope_to_dict e) ≡ ok e
unfolding parse_envelope_fields parse_value envelope_to_dict get lookup is_version is_true items_of
    string_of
fields-again int_of ms e h = after_require (is_version (get "version" ms)) _ _ h λ e0 h0.
    after_bind (nonempty_string (get "scope_id" ms)) _ h0 λ scope e1 h1.
      after_bind (nonempty_string (get "session_scope_id" ms)) _ h1 λ session e2 h2.
        after_bind (nonempty_string (get "generation" ms)) _ h2 λ generation e3 h3.
          after_bind (string_of (get "current_text" ms)) _ h3 λ current e4 h4.
            after_bind (nonempty_string (get "current_message_id" ms)) _ h4 λ id e5 h5.
              after_bind (nonempty_string (get "current_order_token" ms)) _ h5 λ token e6 h6.
                after_bind (string_of (get "order_token" ms)) _ h6 λ last e7 h7.
                  after_require (is_true (get "complete" ms)) _ _ h7 λ e8 h8.
                    after_require (is_bot_id (get "bot_id" ms)) _ _ h8 λ e9 h9.
                      after_bind (items_of (get "messages" ms)) _ h9 λ items e10 h10.
                        after_require (leb (items_length items) 500) _ _ h10 λ e11 h11.
                          after_require (leb (length (codes current)) 100000) _ _ h11 λ e12 h12.
                            after_bind (read_messages [] items) _ h12 λ messages e13 h13.
                              after_require (order_token_matches messages last) _ _ h13 λ e14 h14.
                                after_require (is_current_token int_of token) _ _ h14 λ e15 h15.
                                  let same = sym (message_items-read [] items messages e13) in
                                  subst (λ d. parse_value int_of (envelope_to_dict d) ≡ ok d)
                                    (ok-injective _ _ _ refl h15)
                                    (bind_ok _ _ (nonempty-again _ _ e1) (
                                      bind_ok _ _ (nonempty-again _ _ e2) (
                                        bind_ok _ _ (nonempty-again _ _ e3) (
                                          bind_ok _ _ (nonempty-again _ _ e5) (
                                            bind_ok _ _ (nonempty-again _ _ e6) (
                                              require_ok _ _ _ e9 (
                                                require_ok _ _ _
                                                  (subst (λ vs. leb (items_length vs) 500 ≡ true)
                                                    same e11)
                                                  (require_ok _ _ _ e12 (
                                                    bind_ok _ _
                                                      (subst
                                                        (λ vs. read_messages [] vs ≡ ok messages)
                                                        same e13)
                                                      (require_ok _ _ _ e14
                                                        (require_ok _ _ _ e15 refl)))))))))))

value-again :
    (int_of : String → Option ℤ) (v : Value) (e : ContextEnvelope)
    → parse_value int_of v ≡ ok e
    → parse_value int_of (envelope_to_dict e) ≡ ok e
unfolding parse_value
value-again int_of (object ms) e h = fields-again int_of ms e h
value-again int_of null e h = cc
value-again int_of (boolean b) e h = cc
value-again int_of (int n) e h = cc
value-again int_of (float t) e h = cc
value-again int_of (decimal d) e h = cc
value-again int_of (text s) e h = cc
value-again int_of (array vs) e h = cc

loaded-again :
    (int_of : String → Option ℤ) (o : Option Value) (e : ContextEnvelope)
    → (elim o [ none ↦ err rejected | some v ↦ parse_value int_of v ]) ≡ ok e
    → parse_value int_of (envelope_to_dict e) ≡ ok e
loaded-again int_of none e h = cc
loaded-again int_of (some v) e h = value-again int_of v e h

document-again :
    (loads : String → Option Value) (int_of : String → Option ℤ) (v : Value) (e : ContextEnvelope)
    → parse_context_envelope loads int_of v ≡ ok e
    → parse_value int_of (envelope_to_dict e) ≡ ok e
unfolding parse_context_envelope
document-again loads int_of (text s) e h = loaded-again int_of (loads s) e h
document-again loads int_of null e h = value-again int_of null e h
document-again loads int_of (boolean b) e h = value-again int_of (boolean b) e h
document-again loads int_of (int n) e h = value-again int_of (int n) e h
document-again loads int_of (float t) e h = value-again int_of (float t) e h
document-again loads int_of (decimal d) e h = value-again int_of (decimal d) e h
document-again loads int_of (array vs) e h = value-again int_of (array vs) e h
document-again loads int_of (object ms) e h = value-again int_of (object ms) e h

-- An envelope that was accepted, from a text or from a dictionary, is accepted again from its own
-- `to_dict`, as the same envelope.
pub parse_context_envelope-envelope_to_dict :
    (loads : String → Option Value) (int_of : String → Option ℤ) (v : Value) (e : ContextEnvelope)
    → parse_context_envelope loads int_of v ≡ ok e
    → parse_context_envelope loads int_of (envelope_to_dict e) ≡ ok e
unfolding parse_context_envelope envelope_to_dict
parse_context_envelope-envelope_to_dict loads int_of v e h = document-again loads int_of v e h

pub parsed_envelope-again :
    (loads : String → Option Value) (int_of : String → Option ℤ) (v : Value) (e : ContextEnvelope)
    → parsed_envelope loads int_of v ≡ some e
    → parsed_envelope loads int_of (envelope_to_dict e) ≡ some e
unfolding parsed_envelope
parsed_envelope-again loads int_of v e h =
    elim (Result-cases (parse_context_envelope loads int_of v)) [
      | inl (d, k) ↦
          let same : d ≡ e =
            some-injective _ _ (sym (ap (λ r. elim r [ ok x ↦ some x | err y ↦ none ]) k) ∙ h) in
          ap (λ r. elim r [ ok x ↦ some x | err y ↦ none ])
            (parse_context_envelope-envelope_to_dict loads int_of v e (k ∙ ap ok same))
      | inr (x, k) ↦ cc
    ]
