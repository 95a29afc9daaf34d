-- ===== src/Handoff/Formal.antt =====
-- The pattern of a formal handoff in multinexus/handoff.py as a grammar.
use mathlib.Core.Path.{subst}
use multinexus.Base.{
  both, ℕ, ◌≡◌, refl, sym, ap, ◌∙◌, Bool, true, false, ◌&&◌, List, [], ◌∷◌, ◌++◌, arith, eqb,
  eqb_iff, Bool-cases, inl, inr,
}
use multinexus.Base.Text.{codes, is_space, has_prefix}
use multinexus.Handoff.{
  ends_mention, mention_digits, mention_number, mention_at, mention, after_tag, drop_tag, is_formal,
}

-- `(?:\s+.*)?$`
pub data EndsMention : List ℕ → Type 0 where
  at_end : EndsMention []
  spaced : (c : ℕ) (cs : List ℕ) → is_space c ≡ true → EndsMention (c ∷ cs)

-- `\d*>(?:\s+.*)?$`
pub data HasDigits (is_decimal : ℕ → Bool) : List ℕ → Type 0 where
  closed : (cs : List ℕ) → EndsMention cs → HasDigits is_decimal (b'>' ∷ cs)
  digit :
      (c : ℕ) (cs : List ℕ)
      → is_decimal c ≡ true
      → HasDigits is_decimal cs
      → HasDigits is_decimal (c ∷ cs)

-- `\d+>(?:\s+.*)?$`
pub data HasNumber (is_decimal : ℕ → Bool) : List ℕ → Type 0 where
  number :
      (c : ℕ) (cs : List ℕ)
      → is_decimal c ≡ true
      → HasDigits is_decimal cs
      → HasNumber is_decimal (c ∷ cs)

-- `@!?\d+>(?:\s+.*)?$`
pub data HasAt (is_decimal : ℕ → Bool) : List ℕ → Type 0 where
  user : (cs : List ℕ) → HasNumber is_decimal cs → HasAt is_decimal (b'@' ∷ cs)
  nickname : (cs : List ℕ) → HasNumber is_decimal cs → HasAt is_decimal (b'@' ∷ b'!' ∷ cs)

-- `\s*<@!?\d+>(?:\s+.*)?$`
pub data HasMention (is_decimal : ℕ → Bool) : List ℕ → Type 0 where
  opened : (cs : List ℕ) → HasAt is_decimal cs → HasMention is_decimal (b'<' ∷ cs)
  more_space :
      (c : ℕ) (cs : List ℕ)
      → is_space c ≡ true
      → HasMention is_decimal cs
      → HasMention is_decimal (c ∷ cs)

-- `^\[handoff\]\s+<@!?\d+>(?:\s+.*)?$`
pub data IsFormal (is_decimal : ℕ → Bool) : List ℕ → Type 0 where
  formal :
      (c : ℕ) (cs : List ℕ)
      → is_space c ≡ true
      → HasMention is_decimal cs
      → IsFormal is_decimal (codes "[handoff]" ++ c ∷ cs)

pub has_prefix-eq : (p s : List ℕ) → has_prefix p s ≡ true → (rest : List ℕ) × (s ≡ p ++ rest)
has_prefix-eq [] s h = (s, refl)
has_prefix-eq (q ∷ p) [] h = cc
has_prefix-eq (q ∷ p) (c ∷ s) h =
    let (first, later) = both _ _ h in
    let (rest, e) = has_prefix-eq p s later in
    (rest, (let g : c ≡ q = sym ((eqb_iff q c).0 first) in cc))

pub has_prefix-append : (p rest : List ℕ) → has_prefix p (p ++ rest) ≡ true
has_prefix-append [] rest = refl
has_prefix-append (q ∷ p) rest = rw ((eqb_iff q q).1 refl) (has_prefix-append p rest)

module _ (d : ℕ → Bool) where
  ends-EndsMention : (s : List ℕ) → ends_mention s ≡ true → EndsMention s
  unfolding ends_mention
  ends-EndsMention [] h = EndsMention.at_end
  ends-EndsMention (c ∷ cs) h = EndsMention.spaced c cs h

  EndsMention-ends : (s : List ℕ) → EndsMention s → ends_mention s ≡ true
  unfolding ends_mention
  EndsMention-ends _ EndsMention.at_end = refl
  EndsMention-ends _ (EndsMention.spaced c cs h) = h

  closes-HasDigits :
      (c : ℕ) (cs : List ℕ) → eqb c b'>' && ends_mention cs ≡ true → HasDigits d (c ∷ cs)
  closes-HasDigits c cs h =
      let (close, ends) = both _ _ h in
      subst (λ x. HasDigits d (x ∷ cs)) (sym ((eqb_iff c b'>').0 close))
        (HasDigits.closed cs (ends-EndsMention cs ends))

  digits-HasDigits : (s : List ℕ) → mention_digits d s ≡ true → HasDigits d s
  unfolding mention_digits
  digits-HasDigits [] h = cc
  digits-HasDigits (c ∷ cs) h = elim (Bool-cases (d c)) [
    | inl e ↦ HasDigits.digit c cs e (digits-HasDigits cs (ground arith))
    | inr e ↦ closes-HasDigits c cs (ground arith)
  ]

  number-HasNumber : (s : List ℕ) → mention_number d s ≡ true → HasNumber d s
  unfolding mention_number
  number-HasNumber [] h = cc
  number-HasNumber (c ∷ cs) h =
      let (first, rest) = both _ _ h in HasNumber.number c cs first (digits-HasDigits cs rest)

  at-HasAt : (s : List ℕ) → mention_at d s ≡ true → HasAt d s
  unfolding mention_at
  at-HasAt [] h = cc
  at-HasAt (a ∷ []) h = cc
  at-HasAt (a ∷ c ∷ cs) h =
      let (at, rest) = both _ _ h in
      subst (λ x. HasAt d (x ∷ c ∷ cs)) (sym ((eqb_iff a b'@').0 at))
        (elim (Bool-cases (eqb c b'!')) [
          | inl e ↦
              subst (λ x. HasAt d (b'@' ∷ x ∷ cs)) (sym ((eqb_iff c b'!').0 e))
                (HasAt.nickname cs (number-HasNumber cs (ground arith)))
          | inr e ↦ HasAt.user (c ∷ cs) (number-HasNumber (c ∷ cs) (ground arith))
        ])

  opens-HasMention :
      (c : ℕ) (cs : List ℕ) → eqb c b'<' && mention_at d cs ≡ true → HasMention d (c ∷ cs)
  opens-HasMention c cs h =
      let (opens, rest) = both _ _ h in
      subst (λ x. HasMention d (x ∷ cs)) (sym ((eqb_iff c b'<').0 opens))
        (HasMention.opened cs (at-HasAt cs rest))

  mention-HasMention : (s : List ℕ) → mention d s ≡ true → HasMention d s
  unfolding mention
  mention-HasMention [] h = cc
  mention-HasMention (c ∷ cs) h = elim (Bool-cases (is_space c)) [
    | inl e ↦ HasMention.more_space c cs e (mention-HasMention cs (ground arith))
    | inr e ↦ opens-HasMention c cs (ground arith)
  ]

  tagged-IsFormal :
      (rest : List ℕ) → after_tag d rest ≡ true → IsFormal d (codes "[handoff]" ++ rest)
  unfolding after_tag
  tagged-IsFormal [] h = cc
  tagged-IsFormal (c ∷ cs) h =
      let (space, after) = both _ _ h in IsFormal.formal c cs space (mention-HasMention cs after)

  -- A line that passes the test has the form of the pattern.
  pub passing-IsFormal : (line : List ℕ) → is_formal d line ≡ true → IsFormal d line
  unfolding is_formal drop_tag
  passing-IsFormal line h =
      let (tagged, after) = both _ _ h in
      let (rest, e) = has_prefix-eq (codes "[handoff]") line tagged in
      subst (IsFormal d) (sym e)
        (tagged-IsFormal rest (sym (ap (λ l. after_tag d (drop_tag l)) e) ∙ after))

  module _ (no_close : d b'>' ≡ false) (no_mark : d b'!' ≡ false) where
    HasDigits-digits : (s : List ℕ) → HasDigits d s → mention_digits d s ≡ true
    unfolding mention_digits
    HasDigits-digits _ (HasDigits.closed cs ends) = rw no_close (EndsMention-ends cs ends)
    HasDigits-digits _ (HasDigits.digit c cs e rest) = rw e (HasDigits-digits cs rest)

    HasNumber-number : (s : List ℕ) → HasNumber d s → mention_number d s ≡ true
    unfolding mention_number
    HasNumber-number _ (HasNumber.number c cs e rest) = rw e (HasDigits-digits cs rest)

    not_mark : (c : ℕ) → d c ≡ true → eqb c b'!' ≡ false
    not_mark c h = elim (Bool-cases (eqb c b'!')) [
      | inl e ↦ let same = (eqb_iff c b'!').0 e in let g = sym (ap d same) ∙ h in cc
      | inr e ↦ e
    ]

    HasAt-at : (s : List ℕ) → HasAt d s → mention_at d s ≡ true
    unfolding mention_at mention_number
    HasAt-at _ (HasAt.user _ (HasNumber.number c cs e rest)) =
        rw (not_mark c e, e) (HasDigits-digits cs rest)
    HasAt-at _ (HasAt.nickname cs rest) = HasNumber-number cs rest

    HasMention-mention : (s : List ℕ) → HasMention d s → mention d s ≡ true
    unfolding mention is_space
    HasMention-mention _ (HasMention.opened cs rest) = HasAt-at cs rest
    HasMention-mention _ (HasMention.more_space c cs e rest) = rw e (HasMention-mention cs rest)

    -- A line of that form passes the test.
    pub IsFormal-passing : (line : List ℕ) → IsFormal d line → is_formal d line ≡ true
    unfolding is_formal drop_tag after_tag
    IsFormal-passing _ (IsFormal.formal c cs space rest) = rw space (HasMention-mention cs rest)
