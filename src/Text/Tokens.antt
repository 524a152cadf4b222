-- ===== src/Text/Tokens.antt =====
-- strtok_r: cutting a text into tokens at delimiter characters.
use iot_services_monitoring.Common.{
  ℕ, zero, suc, ◌≤◌, ◌<◌, ◌≡◌, refl, ap, ◌≢◌, Bool, true, false, List, [], ◌∷◌, ◌++◌, Option, none,
  some, arith, length, All, Bool-cases, inl, inr, if◌then◌else◌,
}
use iot_services_monitoring.Text.{Text}

-- The tokens with one delimiter between them.
abbrev pub join : ℕ → List Text → Text
join sep [] = []
join sep (t ∷ []) = t
join sep (t ∷ u ∷ ts) = t ++ (sep ∷ join sep (u ∷ ts))

module _ (delim : ℕ → Bool) where
  -- The characters before the first delimiter, and those behind it.
  unfoldable pub word : Text → Text
  word [] = []
  word (c ∷ s) = elim (delim c) [ true ↦ [] | false ↦ c ∷ word s ]

  unfoldable pub behind_word : Text → Text
  behind_word [] = []
  behind_word (c ∷ s) = elim (delim c) [ true ↦ s | false ↦ behind_word s ]

  -- One call of strtok_r: the token, and the text that the next call goes on with.
  unfoldable pub strtok : Text → Option (Text × Text)
  unfolding word behind_word
  strtok [] = none
  strtok (c ∷ s) = if delim c then strtok s else some (c ∷ word s, behind_word s)

  -- At most `max_tokens` tokens.
  unfoldable pub tokenize : ℕ → Text → List Text
  unfolding strtok
  tokenize zero line = []
  tokenize (suc n) line = elim (strtok line) [
    | none ↦ []
    | some (token, rest) ↦ token ∷ tokenize n rest
  ]

  -- A token has a character, and no delimiter.
  abbrev pub IsToken : Text → Type 0
  IsToken t = (t ≢ []) × All (λ c. delim c ≡ false) t

  word-plain : (s : Text) → All (λ c. delim c ≡ false) (word s)
  unfolding word
  word-plain [] = tt
  word-plain (c ∷ s) = elim (Bool-cases (delim c)) [
    | inl t ↦ rw (t, word) tt
    | inr f ↦ rw (f, word) (f, word-plain s)
  ]

  length-behind_word : (s : Text) → length (behind_word s) ≤ length s
  unfolding behind_word
  length-behind_word [] = omega arith
  length-behind_word (c ∷ s) = ground (arith, length-behind_word s)

  abbrev pub TokenIf : Text → Option (Text × Text) → Type 0
  TokenIf s none = Unit
  TokenIf s (some (token, rest)) = IsToken token × (length rest < length s)

  TokenIf-cons : (c : ℕ) (s : Text) (r : Option (Text × Text)) → TokenIf s r → TokenIf (c ∷ s) r
  TokenIf-cons c s none h = tt
  TokenIf-cons c s (some (token, rest)) h = (h.0, omega (arith, h.1))

  pub strtok-TokenIf : (s : Text) → TokenIf s (strtok s)
  unfolding strtok
  strtok-TokenIf [] = tt
  strtok-TokenIf (c ∷ s) = elim (Bool-cases (delim c)) [
    | inl t ↦ rw (t, strtok) (TokenIf-cons c s (strtok s) (strtok-TokenIf s))
    | inr f ↦ rw (f, strtok) ((λ e. cc, (f, word-plain s)), omega (arith, length-behind_word s))
  ]

  tokenize_step :
      (n : ℕ) (line : Text) (r : Option (Text × Text))
      → TokenIf line r
      → ((rest : Text) → All IsToken (tokenize n rest) × (length (tokenize n rest) ≤ n))
      → let tokens : List Text = elim r [ none ↦ [] | some (t, rest) ↦ t ∷ tokenize n rest ] in
        All IsToken tokens × (length tokens ≤ suc n)
  tokenize_step n line none h ih = (tt, omega arith)
  tokenize_step n line (some (t, rest)) h ih = ((h.0, (ih rest).0), omega (arith, (ih rest).1))

  -- Every text is cut into at most `n` tokens, each with a character and no delimiter.
  pub tokenize-IsToken :
      (n : ℕ) (line : Text) → All IsToken (tokenize n line) × (length (tokenize n line) ≤ n)
  unfolding tokenize
  tokenize-IsToken zero line = (tt, omega arith)
  tokenize-IsToken (suc n) line =
      tokenize_step n line (strtok line) (strtok-TokenIf line) (tokenize-IsToken n)

  word_before :
      (w : Text) (c : ℕ) (rest : Text)
      → All (λ c. delim c ≡ false) w
      → delim c ≡ true
      → (word (w ++ (c ∷ rest)) ≡ w) × (behind_word (w ++ (c ∷ rest)) ≡ rest)
  unfolding word behind_word
  word_before [] c rest h d = rw d (refl, refl)
  word_before (x ∷ w) c rest h d =
      let (e, e') = word_before w c rest h.1 d in rw (h.0, e) (refl, e')

  word_whole : (w : Text) → All (λ c. delim c ≡ false) w → (word w ≡ w) × (behind_word w ≡ [])
  unfolding word behind_word
  word_whole [] h = (refl, refl)
  word_whole (x ∷ w) h = let (e, e') = word_whole w h.1 in rw (h.0, e, word, behind_word) (refl, e')

  strtok_before :
      (t : Text) (c : ℕ) (rest : Text)
      → IsToken t
      → delim c ≡ true
      → strtok (t ++ (c ∷ rest)) ≡ some (t, rest)
  unfolding strtok
  strtok_before [] c rest h d = absurd (h.0 refl)
  strtok_before (x ∷ w) c rest h d = let (e, e') = word_before w c rest h.1.1 d in rw (h.1.0, e, e')

  strtok_whole : (t : Text) → IsToken t → strtok t ≡ some (t, [])
  unfolding strtok
  strtok_whole [] h = absurd (h.0 refl)
  strtok_whole (x ∷ w) h = let (e, e') = word_whole w h.1.1 in rw (h.1.0, e, e')

  tokenize-nil : (n : ℕ) → tokenize n [] ≡ []
  unfolding tokenize
  tokenize-nil zero = refl
  tokenize-nil (suc n) = refl

  -- Tokens that are joined by a delimiter are cut out again.
  pub tokenize-join :
      (n : ℕ) (sep : ℕ) (ts : List Text)
      → delim sep ≡ true
      → All IsToken ts
      → length ts ≤ n
      → tokenize n (join sep ts) ≡ ts
  unfolding tokenize
  tokenize-join n sep [] d h k = tokenize-nil n
  tokenize-join zero sep (t ∷ ts) d h k = absurd (omega arith)
  tokenize-join (suc n) sep (t ∷ []) d h k =
      rw (strtok_whole t h.0, tokenize) (ap (λ r. t ∷ r) (tokenize-nil n))
  tokenize-join (suc n) sep (t ∷ u ∷ ts) d h k =
      rw (strtok_before t sep (join sep (u ∷ ts)) h.0 d, tokenize)
        (ap (λ r. t ∷ r) (tokenize-join n sep (u ∷ ts) d h.1 (omega arith)))

  -- With a limit of two tokens the rest is not looked at.
  pub tokenize_two :
      (sep : ℕ) (t u rest : Text)
      → delim sep ≡ true
      → IsToken t
      → IsToken u
      → tokenize 2 (t ++ (sep ∷ (u ++ (sep ∷ rest)))) ≡ t ∷ u ∷ []
  unfolding tokenize
  tokenize_two sep t u rest d h k =
      rw (strtok_before t sep (u ++ (sep ∷ rest)) h d, strtok_before u sep rest k d, tokenize)
