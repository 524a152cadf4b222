-- ===== src/SensorClient/Words.antt =====
-- A line of words with blanks between them arrives as the words.
use iot_services_monitoring.Common.{
  ℕ, ◌≤◌, ◌<◌, ◌≡◌, refl, ap, ◌∙◌, ◌≢◌, Bool, true, false, not, ◌&&◌, List, [], ◌∷◌, length, All,
  All-append, ◌==◌, arith,
}
use iot_services_monitoring.Text.{Text, c_string}
use iot_services_monitoring.Text.Tokens.{join, tokenize, tokenize-join, IsToken}
use iot_services_monitoring.Text.Search.{before_whole}
use iot_services_monitoring.Utils.{Strtod}
use iot_services_monitoring.Utils.Lines.{IsPlain}
use iot_services_monitoring.Smp.{is_blank, dispatch, process_line}
use iot_services_monitoring.Smp.Session.{IsMessage}

-- No blank, CR, LF or NUL.
abbrev pub is_word_char : ℕ → Bool
is_word_char c = not (is_blank c) && (not (c == 10) && (not (c == 13) && not (c == 0)))

abbrev pub IsWordChar : ℕ → Type 0
IsWordChar c = is_word_char c ≡ true

abbrev pub IsWord : Text → Type 0
IsWord w = (w ≢ []) × All IsWordChar w

word_char : (c : ℕ) → IsWordChar c → (is_blank c ≡ false) × (IsPlain c × (c ≢ 0))
word_char c h = ground (arith, h)

All-map : {P Q : ℕ → Type 0} (s : Text) → ((c : ℕ) → P c → Q c) → All P s → All Q s
All-map [] f h = tt
All-map (c ∷ s) f h = (f c h.0, All-map s f h.1)

-- The characters of a line are those of its words and the blank.
All-join :
    (P : ℕ → Type 0) (ws : List Text)
    → P 32
    → All IsWord ws
    → ((c : ℕ) → IsWordChar c → P c)
    → All P (join 32 ws)
All-join P [] p h f = tt
All-join P (w ∷ []) p h f = All-map w f h.0.1
All-join P (w ∷ v ∷ ws) p h f =
    All-append P w (32 ∷ join 32 (v ∷ ws)) (All-map w f h.0.1) (p, All-join P (v ∷ ws) p h.1 f)

tokens : (ws : List Text) → All IsWord ws → All (IsToken is_blank) ws
tokens [] h = tt
tokens (w ∷ ws) h = ((h.0.0, All-map w (λ c k. (word_char c k).0) h.0.1), tokens ws h.1)

nonempty_line : (w : Text) (ws : List Text) → IsWord w → 0 < length (join 32 (w ∷ ws))
nonempty_line [] ws h = absurd (h.0 refl)
nonempty_line (c ∷ w) [] h = omega arith
nonempty_line (c ∷ w) (v ∷ ws) h = omega arith

-- A line of up to eight words that fits the buffer is a message, and is dispatched by its words.
pub process_line-words :
    (strtod : Text → Strtod) (w : Text) (ws : List Text)
    → All IsWord (w ∷ ws)
    → length (w ∷ ws) ≤ 8
    → length (join 32 (w ∷ ws)) < 4095
    → IsMessage (join 32 (w ∷ ws))
      × (process_line strtod (c_string (join 32 (w ∷ ws))) ≡ dispatch strtod (w ∷ ws))
unfolding process_line
process_line-words strtod w ws h few fits =
    let line = join 32 (w ∷ ws) in
    let plain = All-join IsPlain (w ∷ ws) (ground arith) h (λ c k. (word_char c k).1.0) in
    let whole =
      before_whole 0 line
        (All-join (λ c. c ≢ 0) (w ∷ ws) (ground arith) h (λ c k. (word_char c k).1.1)) in
    (
      (nonempty_line w ws h.0, fits, plain),
      ap (λ s. dispatch strtod (tokenize is_blank 8 s)) whole
          ∙ ap (dispatch strtod)
              (tokenize-join is_blank 8 32 (w ∷ ws) refl (tokens (w ∷ ws) h) few),
    )
