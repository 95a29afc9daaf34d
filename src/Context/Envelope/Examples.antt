-- ===== src/Context/Envelope/Examples.antt =====
-- An envelope of multinexus/context/envelope.py with two messages.
use multinexus.Base.{ℕ, ◌≡◌, ap, ◌∙◌, refl, String, true, false, Option, none, some, [], ◌∷◌}
use multinexus.Base.Text.{codes}
use multinexus.Base.Value.{
  ℤ, pos, Value, Members, empty, member, get, lookup, nil, item, items_length,
}
use Value.{null, boolean, int, text, array, object}
use multinexus.Base.Json.{digits_onto}
use multinexus.Base.Json.Numbers.{read_number, read_number-digits_onto}
use multinexus.Base.Result.{ok}
use multinexus.Context.Envelope.{
  ContextEnvelope, order_text, string_of, nonempty_string, is_version, is_true, is_bot_id, is_int,
  is_boolean, order_of, contains_order, message_order, message_fields, read_messages, order, latest,
  order_token_matches, is_current_token, items_of, parse_envelope_fields, parse_value,
  parse_context_envelope, is_anchor, has_anchor, envelope_to_dict,
}
use multinexus.Context.Envelope.Again.{parse_context_envelope-envelope_to_dict}
use multinexus.Context.Envelope.Accepted.{IsEnvelope, parse_context_envelope-IsEnvelope}

-- `int` on a text of digits.
abbrev pub int_of : String → Option ℤ
int_of s = some (pos (read_number 0 (codes s)).0)

reads : (s : String) (n : ℕ) → codes s ≡ order_text n → int_of s ≡ some (pos n)
unfolding order_text
reads s n h =
    ap (λ cs. some (pos (read_number 0 cs).0)) h
    ∙ ap (λ r. some (pos r.0)) (read_number-digits_onto n)

abbrev pub message : ℕ → String → Members
message n id = member "context_order" (int (pos n)) (
    member "created_at_ms" (int (pos 7)) (
      member "message_id" (text id) (
        member "author_id" (text "u1") (
          member "author_name" (text "Ann")
            (member "content" (text "hello") (member "author_is_bot" (boolean false) empty))))))

abbrev pub envelope : ContextEnvelope
envelope = record {
  scope_id = "workspace:ws:channel";
  session_scope_id = "channel:7";
  generation = "g1";
  bot_id = null;
  complete = true;
  order_token = "12";
  messages = message 9 "m9" ∷ message 12 "m12" ∷ [];
  current_text = "hi";
  current_message_id = "m13";
  current_order_token = "13";
}

abbrev pub document : Members
document = member "version" (int (pos 1)) (
    member "scope_id" (text "workspace:ws:channel") (
      member "session_scope_id" (text "channel:7") (
        member "generation" (text "g1") (
          member "bot_id" null (
            member "complete" (boolean true) (
              member "order_token" (text "12") (
                member "messages"
                  (array (item (object (message 9 "m9")) (item (object (message 12 "m12")) nil)))
                  (member "current_text" (text "hi") (
                    member "current_message_id" (text "m13")
                      (member "current_order_token" (text "13") empty))))))))))

pub accepted : parse_context_envelope (λ s. none) int_of (object document) ≡ ok envelope
unfolding parse_context_envelope parse_value parse_envelope_fields order_text string_of
    nonempty_string is_version is_true is_bot_id is_int is_boolean order_of contains_order
    message_order message_fields read_messages order latest order_token_matches is_current_token
    items_of items_length get lookup digits_onto read_number
accepted = refl

parse_context_envelope-IsEnvelope_example : IsEnvelope int_of envelope
parse_context_envelope-IsEnvelope_example =
    parse_context_envelope-IsEnvelope (λ s. none) int_of (object document) envelope accepted

at_m12 : has_anchor (pos (latest envelope.messages)) "m12" envelope.messages ≡ true
unfolding has_anchor is_anchor latest order get lookup
at_m12 = refl

parse_context_envelope-envelope_to_dict_example :
    parse_context_envelope (λ s. none) int_of (envelope_to_dict envelope) ≡ ok envelope
parse_context_envelope-envelope_to_dict_example =
    parse_context_envelope-envelope_to_dict (λ s. none) int_of (object document) envelope accepted
