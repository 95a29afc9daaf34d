-- ===== src/Chunks/Termination.antt =====
-- The loop of multinexus/message_chunks.py ends, and its chunks fit into a message.
use multinexus.Base.{
  ℕ, zero, suc, ap, ◌∙◌, ◌≤◌, ◌<◌, ◌≡◌, refl, Bool, true, false, Option, none, some, List, [], ◌∷◌,
  arith, length, take, drop, length-take, length-drop, All, Bool-cases, Option-cases, leb, leb→lt,
  leb→le, inl, inr,
}
use multinexus.Base.Text.{drop_while, strip, is_empty}
use multinexus.Chunks.{
  max_discord_msg_len, rfind, late_or, cut_of, is_separator, prepend, chunk_loop, chunk_message,
}

-- A chunk can be sent as one message.
unfoldable pub Fits : List ℕ → Type 0
Fits chunk = (1 ≤ length chunk) × (length chunk ≤ max_discord_msg_len)

rfind-bound : (c : ℕ) (s : List ℕ) (i : ℕ) → rfind c s ≡ some i → i < length s
unfolding rfind
rfind-bound c [] i h = cc
rfind-bound c (d ∷ ds) i h = elim (Option-cases (rfind c ds)) [
  | inl e ↦ ground arith
  | inr (j, e) ↦ ground (arith, rfind-bound c ds j e)
]

late_or-bounds :
    (found : Option ℕ) (next : ℕ)
    → ((i : ℕ) → found ≡ some i → i ≤ 1900)
    → 1 ≤ next
    → next ≤ 1900
    → (1 ≤ late_or found next) × (late_or found next ≤ 1900)
unfolding late_or
late_or-bounds none next h low high = (low, high)
late_or-bounds (some i) next h low high = ground (arith, h i refl)

window-bound : (c : ℕ) (text : List ℕ) (i : ℕ) → rfind c (take 1900 text) ≡ some i → i ≤ 1900
window-bound c text i h = omega (arith, rfind-bound c (take 1900 text) i h, length-take 1900 text)

pub cut_of-bounds : (text : List ℕ) → (1 ≤ cut_of text) × (cut_of text ≤ 1900)
unfolding cut_of
cut_of-bounds text =
    let (low, high) =
      late_or-bounds (rfind b' ' (take 1900 text)) 1900 (window-bound b' ' text) (omega arith)
        (omega arith) in
    late_or-bounds (rfind b'\n' (take 1900 text)) _ (window-bound b'\n' text) low high

length-drop_while : (p : ℕ → Bool) (s : List ℕ) → length (drop_while p s) ≤ length s
unfolding drop_while
length-drop_while p [] = omega arith
length-drop_while p (c ∷ cs) = ground (arith, length-drop_while p cs)

-- Every round takes at least one character.
pub rest-length :
    (text : List ℕ)
    → 1 ≤ length text
    → length (drop_while is_separator (drop (cut_of text) text)) < length text
rest-length text h = omega (
  arith,
  length-drop_while is_separator (drop (cut_of text) text),
  length-drop (cut_of text) text,
  (cut_of-bounds text).0,
)

take_cut-Fits : (text : List ℕ) → leb (length text) 1900 ≡ false → Fits (take (cut_of text) text)
unfolding Fits
take_cut-Fits text h =
    let (low, high) = cut_of-bounds text in
    omega (arith, length-take (cut_of text) text, low, high, leb→lt (length text) 1900 h)

pub chunk_loop-last :
    (fuel c : ℕ) (cs : List ℕ)
    → leb (length (c ∷ cs)) 1900 ≡ true
    → chunk_loop (suc fuel) (c ∷ cs) ≡ some ((c ∷ cs) ∷ [])
unfolding chunk_loop
chunk_loop-last fuel c cs h = rw h refl

pub chunk_loop-next :
    (fuel c : ℕ) (cs : List ℕ)
    → leb (length (c ∷ cs)) 1900 ≡ false
    → chunk_loop (suc fuel) (c ∷ cs)
      ≡ prepend
          (take (cut_of (c ∷ cs)) (c ∷ cs))
          (chunk_loop fuel (drop_while is_separator (drop (cut_of (c ∷ cs)) (c ∷ cs))))
unfolding chunk_loop
chunk_loop-next fuel c cs h = rw h refl

chunk_loop-Fits :
    (fuel : ℕ) (text : List ℕ)
    → length text < fuel
    → (chunks : List (List ℕ)) × (chunk_loop fuel text ≡ some chunks) × All Fits chunks
chunk_loop-Fits zero text h = absurd (omega arith)
chunk_loop-Fits (suc fuel) [] h = ([], unfold chunk_loop in refl, tt)
chunk_loop-Fits (suc fuel) (c ∷ cs) h =
    let text = c ∷ cs in
    let rest = drop_while is_separator (drop (cut_of text) text) in
    let (chunks, e, fits) =
      chunk_loop-Fits fuel rest (omega (arith, rest-length text (omega arith))) in
    elim (Bool-cases (leb (length text) 1900)) [
      | inl short ↦ (
        text ∷ [],
        chunk_loop-last fuel c cs short,
        (unfold Fits in (omega arith, leb→le (length text) 1900 short), tt),
      )
      | inr long ↦ (
        take (cut_of text) text ∷ chunks,
        chunk_loop-next fuel c cs long ∙ ap (prepend (take (cut_of text) text)) e,
        (take_cut-Fits text long, fits),
      )
    ]

length-positive : (text : List ℕ) → is_empty (strip text) ≡ false → 1 ≤ length text
unfolding strip drop_while
length-positive [] h = absurd cc
length-positive (c ∷ cs) h = omega arith

pub chunk_message-long :
    (text : List ℕ)
    → leb (length text) 1900 ≡ false
    → chunk_message text ≡ chunk_loop (suc (length text)) text
unfolding chunk_message
chunk_message-long text h = rw h refl

pub chunk_message-blank :
    (text : List ℕ)
    → leb (length text) 1900 ≡ true
    → is_empty (strip text) ≡ true
    → chunk_message text ≡ some []
unfolding chunk_message
chunk_message-blank text h b = rw (h, b) refl

pub chunk_message-short :
    (text : List ℕ)
    → leb (length text) 1900 ≡ true
    → is_empty (strip text) ≡ false
    → chunk_message text ≡ some (text ∷ [])
unfolding chunk_message
chunk_message-short text h b = rw (h, b) refl

-- `chunk_message` ends on every text, and each chunk has between 1 and 1900 characters.
pub chunk_message-Fits :
    (text : List ℕ)
    → (chunks : List (List ℕ)) × (chunk_message text ≡ some chunks) × All Fits chunks
chunk_message-Fits text = elim (Bool-cases (leb (length text) 1900)) [
  | inr long ↦
      let (chunks, e, fits) = chunk_loop-Fits (suc (length text)) text (omega arith) in
      (chunks, chunk_message-long text long ∙ e, fits)
  | inl short ↦ elim (Bool-cases (is_empty (strip text))) [
    | inl blank ↦ ([], chunk_message-blank text short blank, tt)
    | inr full ↦ (
      text ∷ [],
      chunk_message-short text short full,
      (unfold Fits in (length-positive text full, leb→le (length text) 1900 short), tt),
    )
  ]
]
