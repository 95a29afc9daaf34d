-- ===== src/Context/Envelope.antt =====
-- The structured history that a bridge passes to a worker: multinexus/context/envelope.py. `loads` is
-- `json.loads`, with `none` for its `JSONDecodeError`; `int_of` is `int` of a text, with `none` for its
-- `ValueError`.
use multinexus.Base.{
  ℕ, zero, suc, ◌≡◌, String, Bool, true, false, not, ◌&&◌, ◌||◌, Option, none, some, List, [], ◌∷◌,
  ◌==◌, string_eq, if◌then◌else◌, ltb, leb, eqb, length, select,
}
use Prim.Native.Nat.{max}
use multinexus.Base.Text.{codes, is_empty, same_codes}
use multinexus.Base.Value.{
  ℤ, pos, negsuc, Value, Items, nil, item, Members, empty, member, get, items_length,
}
use Value.{null, boolean, int, text, array, object}
use multinexus.Base.Json.{digits_onto}
use multinexus.Base.Result.{Result, ok, err, ◌>>=◌, ◌>>◌, require}
pub mod Accepted
pub mod Delta
pub mod Again
pub mod Examples

-- `messages` are the dictionaries as they were read.
pub record ContextEnvelope : Type 0 where
  pub scope_id : String
  pub session_scope_id : String
  pub generation : String
  pub bot_id : Value
  pub complete : Bool
  pub order_token : String
  pub messages : List Members
  pub current_text : String
  pub current_message_id : String
  pub current_order_token : String

-- `return None`
pub data Rejection : Type 0 where
  rejected : Rejection

-- `str(n)` as its code points
unfoldable pub order_text : ℕ → List ℕ
order_text n = digits_onto (suc n) n []

unfoldable pub string_of : Value → Result Rejection String
string_of (text s) = ok s
string_of _ = err rejected

unfoldable pub nonempty_string : Value → Result Rejection String
nonempty_string v = do s ← string_of v; require (not (is_empty (codes s))) rejected; ok s

-- `type(value) is int and value == 1`
unfoldable pub is_version : Value → Bool
is_version (int (pos n)) = eqb n 1
is_version _ = false

-- `isinstance(value, bool) and value`
unfoldable pub is_true : Value → Bool
is_true (boolean b) = b
is_true _ = false

-- None, or an `int` that is no `bool`, or a text.
unfoldable pub is_bot_id : Value → Bool
is_bot_id null = true
is_bot_id (int n) = true
is_bot_id (text s) = true
is_bot_id _ = false

unfoldable pub is_int : Value → Bool
is_int (int n) = true
is_int _ = false

unfoldable pub is_boolean : Value → Bool
is_boolean (boolean b) = true
is_boolean _ = false

-- A `context_order` above zero.
unfoldable pub order_of : Value → Result Rejection ℕ
order_of (int (pos (suc n))) = ok (suc n)
order_of _ = err rejected

unfoldable pub contains_order : ℕ → List ℕ → Bool
contains_order n [] = false
contains_order n (m ∷ ms) = eqb n m || contains_order n ms

-- The checks of one message, with the orders that were seen before.
unfoldable pub message_order : List ℕ → Members → Result Rejection ℕ
message_order seen ms = do
  require (is_int (get "created_at_ms" ms)) rejected
  message_id ← string_of (get "message_id" ms)
  author_id ← string_of (get "author_id" ms)
  author_name ← string_of (get "author_name" ms)
  content ← string_of (get "content" ms)
  require (is_boolean (get "author_is_bot" ms)) rejected
  require (leb (length (codes content)) 10000) rejected
  order ← order_of (get "context_order" ms)
  require (not (contains_order order seen)) rejected
  require (not (is_empty (codes message_id))) rejected
  ok order

unfoldable pub message_fields : Value → Result Rejection Members
message_fields (object ms) = ok ms
message_fields _ = err rejected

-- The loop over the messages.
unfoldable pub read_messages : List ℕ → Items → Result Rejection (List Members)
read_messages seen nil = ok []
read_messages seen (item v vs) = do
  ms ← message_fields v
  order ← message_order seen ms
  rest ← read_messages (order ∷ seen) vs
  ok (ms ∷ rest)

-- `item["context_order"]` of a message that was accepted.
unfoldable pub order : Members → ℕ
order ms = elim (get "context_order" ms) [ int (pos n) ↦ n | _ ↦ 0 ]

-- `max(seen_orders)`
unfoldable pub latest : List Members → ℕ
latest [] = 0
latest (m ∷ ms) = max (order m) (latest ms)

-- The order token is that of the last message, or empty.
unfoldable pub order_token_matches : List Members → String → Bool
order_token_matches [] token = is_empty (codes token)
order_token_matches (m ∷ ms) token = same_codes (codes token) (order_text (latest (m ∷ ms)))

-- `int` gives a positive number that is written as the token.
unfoldable pub is_current_token : (String → Option ℤ) → String → Bool
is_current_token int_of token = elim (int_of token) [
  | some (pos (suc n)) ↦ same_codes (order_text (suc n)) (codes token)
  | _ ↦ false
]

unfoldable pub items_of : Value → Result Rejection Items
items_of (array vs) = ok vs
items_of _ = err rejected

unfoldable pub parse_envelope_fields :
    (String → Option ℤ) → Members → Result Rejection ContextEnvelope
parse_envelope_fields int_of ms = do
  require (is_version (get "version" ms)) rejected
  scope_id ← nonempty_string (get "scope_id" ms)
  session_scope_id ← nonempty_string (get "session_scope_id" ms)
  generation ← nonempty_string (get "generation" ms)
  current_text ← string_of (get "current_text" ms)
  current_message_id ← nonempty_string (get "current_message_id" ms)
  current_order_token ← nonempty_string (get "current_order_token" ms)
  order_token ← string_of (get "order_token" ms)
  require (is_true (get "complete" ms)) rejected
  require (is_bot_id (get "bot_id" ms)) rejected
  items ← items_of (get "messages" ms)
  require (leb (items_length items) 500) rejected
  require (leb (length (codes current_text)) 100000) rejected
  messages ← read_messages [] items
  require (order_token_matches messages order_token) rejected
  require (is_current_token int_of current_order_token) rejected
  ok (record {
    scope_id = scope_id;
    session_scope_id = session_scope_id;
    generation = generation;
    bot_id = get "bot_id" ms;
    complete = true;
    order_token = order_token;
    messages = messages;
    current_text = current_text;
    current_message_id = current_message_id;
    current_order_token = current_order_token;
  })

unfoldable pub parse_value : (String → Option ℤ) → Value → Result Rejection ContextEnvelope
parse_value int_of (object ms) = parse_envelope_fields int_of ms
parse_value int_of _ = err rejected

-- A text is decoded first; `err rejected` is the `None` of the source.
unfoldable pub parse_context_envelope :
    (String → Option Value) → (String → Option ℤ) → Value → Result Rejection ContextEnvelope
unfolding parse_value
parse_context_envelope loads int_of (text s) = elim (loads s) [
  | none ↦ err rejected
  | some v ↦ parse_value int_of v
]
parse_context_envelope loads int_of v = parse_value int_of v

-- `str(item["context_order"]) == str(cursor)` and the message's identifier.
unfoldable pub is_anchor : ℤ → String → Members → Bool
is_anchor (pos n) id ms =
    eqb (order ms) n && (elim (get "message_id" ms) [ text s ↦ s == id | _ ↦ false ])
is_anchor (negsuc n) id ms = false

unfoldable pub has_anchor : ℤ → String → List Members → Bool
has_anchor cursor id [] = false
has_anchor cursor id (m ∷ ms) = is_anchor cursor id m || has_anchor cursor id ms

-- `int(item["context_order"]) > cursor`
unfoldable pub is_after : ℤ → Members → Bool
is_after (pos n) ms = ltb n (order ms)
is_after (negsuc n) ms = true

unfoldable pub after_cursor : ℤ → String → List Members → Option (List Members)
after_cursor cursor id ms =
    if has_anchor cursor id ms then some (select (is_after cursor) ms) else none

-- The messages after the cursor, where its tokens are not empty; a missing token is an empty one.
unfoldable pub messages_after_cursor :
    (String → Option ℤ) → ContextEnvelope → String → String → Option (List Members)
unfolding after_cursor has_anchor
messages_after_cursor int_of e cursor_order_token cursor_message_id =
    if is_empty (codes cursor_order_token) || is_empty (codes cursor_message_id)
    then none
    else elim (int_of cursor_order_token) [
      | none ↦ none
      | some cursor ↦ after_cursor cursor cursor_message_id e.messages
    ]

unfoldable pub message_items : List Members → Items
message_items [] = nil
message_items (m ∷ ms) = item (object m) (message_items ms)

-- `ContextEnvelope.to_dict`
unfoldable pub envelope_to_dict : ContextEnvelope → Value
unfolding message_items
envelope_to_dict e = object (
    member "version" (int (pos 1)) (
      member "scope_id" (text e.scope_id) (
        member "session_scope_id" (text e.session_scope_id) (
          member "generation" (text e.generation) (
            member "bot_id" e.bot_id (
              member "complete" (boolean e.complete) (
                member "order_token" (text e.order_token) (
                  member "messages" (array (message_items e.messages)) (
                    member "current_text" (text e.current_text) (
                      member "current_message_id" (text e.current_message_id)
                        (member "current_order_token" (text e.current_order_token) empty)))))))))))

-- The answer of `parse_context_envelope`, `none` for `None`.
unfoldable pub parsed_envelope :
    (String → Option Value) → (String → Option ℤ) → Value → Option ContextEnvelope
unfolding parse_context_envelope
parsed_envelope loads int_of v = elim (parse_context_envelope loads int_of v) [
  | ok e ↦ some e
  | err x ↦ none
]
