-- ===== src/Context/Prompt/Current.antt =====
-- Every prompt that multinexus/context/prompt.py renders ends with the current message.
use multinexus.Base.{◌≡◌, ap, ◌∙◌, refl, sym, String, Option, none, some, List, [], ◌∷◌, ◌++◌, map}
use mathlib.Core.Path.{subst}
use mathlib.Core.List.{append_assoc}
use Prim.Native.Char.{Char}
use multinexus.Base.Chars.{chars}
use multinexus.Base.Value.{ℤ, Value, Members}
use multinexus.Context.Envelope.{
  ContextEnvelope, envelope_to_dict, messages_after_cursor, parsed_envelope,
}
use multinexus.Context.Envelope.Again.{parsed_envelope-again}
use multinexus.Context.Prompt.{
  PromptConfig, HistoryItem, join, bot_id_chars, history_line, prompt_head, newline,
  render_agent_prompt, history_item, render_messages, render_envelope, delta_prompt,
}

unfoldable pub EndsWith : List Char → List Char → Type 0
EndsWith end s = (front : List Char) × (s ≡ front ++ end)

EndsWith-append : (end s front : List Char) → EndsWith end s → EndsWith end (front ++ s)
unfolding EndsWith
EndsWith-append end s front (f, e) =
    (front ++ f, ap (λ r. front ++ r) e ∙ sym (append_assoc front f end))

join-EndsWith :
    (separator end : List Char) (ws : List (List Char))
    → EndsWith end (join separator (ws ++ (end ∷ [])))
unfolding join EndsWith
join-EndsWith separator end [] = ([], refl)
join-EndsWith separator end (w ∷ []) = (w ++ separator, sym (append_assoc w separator end))
join-EndsWith separator end (w ∷ v ∷ ws) =
    EndsWith-append end _ w (EndsWith-append end _ separator (join-EndsWith separator end (v ∷ ws)))

render_agent_prompt-EndsWith :
    (config : PromptConfig) (bot_id : Value) (history : List HistoryItem) (current : List Char)
    → EndsWith current (render_agent_prompt config bot_id history current)
unfolding render_agent_prompt EndsWith
render_agent_prompt-EndsWith config bot_id [] current = ([], refl)
render_agent_prompt-EndsWith config bot_id (h ∷ hs) current =
    let head = prompt_head config in
    let lines = map (history_line config (bot_id_chars bot_id)) (h ∷ hs) in
    let heading : List (List Char) = [] ∷ chars "[Current message]" ∷ [] in
    subst (λ ws. EndsWith current (join newline ws))
      (append_assoc head (lines ++ heading) (current ∷ [])
        ∙ ap (λ r. head ++ r) (append_assoc lines heading (current ∷ [])))
      (join-EndsWith newline current (head ++ (lines ++ heading)))

module _ (loads : String → Option Value) (int_of : String → Option ℤ) (config : PromptConfig)
    (v : Value) (e : ContextEnvelope) (accepted : parsed_envelope loads int_of v ≡ some e) where
  pub render_envelope-EndsWith :
      (history : Option (List Members))
      → EndsWith
          (chars e.current_text)
          (render_envelope (parsed_envelope loads int_of) config v history)
  unfolding render_envelope render_messages
  render_envelope-EndsWith none =
      rw (accepted, render_envelope)
        (render_agent_prompt-EndsWith config e.bot_id (map history_item e.messages)
          (chars e.current_text))
  render_envelope-EndsWith (some ms) =
      rw (accepted, render_envelope)
        (render_agent_prompt-EndsWith config e.bot_id (map history_item ms) (chars e.current_text))

-- Whatever the cursor of the session is, known or not, the prompt that `delta_prompt` renders of an
-- accepted envelope ends with the text of the current message.
pub delta_prompt-EndsWith :
    (loads : String → Option Value) (int_of : String → Option ℤ) (config : PromptConfig) (v : Value)
    (e : ContextEnvelope) (cursor_order cursor_message_id : String)
    → parsed_envelope loads int_of v ≡ some e
    → EndsWith
        (chars e.current_text)
        (delta_prompt (parsed_envelope loads int_of) int_of config v cursor_order cursor_message_id)
unfolding delta_prompt
delta_prompt-EndsWith loads int_of config v e cursor_order cursor_message_id accepted =
    rw (accepted, delta_prompt)
      (render_envelope-EndsWith loads int_of config (envelope_to_dict e) e
        (parsed_envelope-again loads int_of v e accepted)
        (messages_after_cursor int_of e cursor_order cursor_message_id))
