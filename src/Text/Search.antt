-- ===== src/Text/Search.antt =====
-- strstr, strchr and what stands before a character.
use mathlib.Core.List.{append_assoc}
use iot_services_monitoring.Common.{
  sym, length-append, not, ◌&&◌, ℕ, ◌≤◌, ◌≡◌, refl, ◌≢◌, Bool, true, [], ◌∷◌, ◌++◌, none, some,
  arith, length, All, ◌==◌, Bool-cases, inl, inr,
}
use iot_services_monitoring.Text.{Text, starts_with, strstr, strchr, before}

pub before-append : (k : ℕ) (s t : Text) → All (λ c. c ≢ k) s → before k (s ++ (k ∷ t)) ≡ s
unfolding before
before-append k [] t h = ground arith
before-append k (c ∷ s) t h = ground (arith, before-append k s t h.1)

pub before_whole : (k : ℕ) (s : Text) → All (λ c. c ≢ k) s → before k s ≡ s
unfolding before
before_whole k [] h = refl
before_whole k (c ∷ s) h = ground (arith, before_whole k s h.1)

pub strchr-append :
    (k : ℕ) (s t : Text) → All (λ c. c ≢ k) s → strchr (s ++ (k ∷ t)) k ≡ some (k ∷ t)
unfolding strchr
strchr-append k [] t h = ground arith
strchr-append k (c ∷ s) t h = ground (arith, strchr-append k s t h.1)

pub strchr_absent : (k : ℕ) (s : Text) → All (λ c. c ≢ k) s → strchr s k ≡ none
unfolding strchr
strchr_absent k [] h = refl
strchr_absent k (c ∷ s) h = ground (arith, strchr_absent k s h.1)

starts_with-append : (p s t : Text) → length p ≤ length s → starts_with p (s ++ t) ≡ starts_with p s
unfolding starts_with
starts_with-append [] s t h = refl
starts_with-append (x ∷ p) [] t h = absurd (omega arith)
starts_with-append (x ∷ p) (c ∷ s) t h = ground (arith, starts_with-append p s t)

starts_with_self : (p t : Text) → starts_with p (p ++ t) ≡ true
unfolding starts_with
starts_with_self [] t = refl
starts_with_self (x ∷ p) t = ground (arith, starts_with_self p t)

strstr_here : (s needle : Text) → starts_with needle s ≡ true → strstr s needle ≡ some s
unfolding strstr
strstr_here [] needle h = rw (h, strstr)
strstr_here (c ∷ s) needle h = rw (h, strstr)

-- A needle that `pre` and all of the needle but its last character do not hold is found behind `pre`.
pub strstr-append :
    (pre init rest : Text) (last : ℕ)
    → strstr (pre ++ init) (init ++ (last ∷ [])) ≡ none
    → strstr (pre ++ (init ++ (last ∷ rest))) (init ++ (last ∷ [])) ≡ some (init ++ (last ∷ rest))
unfolding strstr
strstr-append [] init rest last h =
    strstr_here (init ++ (last ∷ rest)) (init ++ (last ∷ []))
      (rw (sym (append_assoc init (last ∷ []) rest)) (starts_with_self (init ++ (last ∷ [])) rest))
strstr-append (c ∷ pre) init rest last h =
    let needle = init ++ (last ∷ []) in
    let same = append_assoc (c ∷ pre) init (last ∷ rest) in
    let test : starts_with needle (c ∷ (pre ++ (init ++ (last ∷ rest))))
        ≡ starts_with needle (c ∷ (pre ++ init)) =
      rw (sym same) (
        starts_with-append needle (c ∷ (pre ++ init)) (last ∷ rest)
          (omega (arith, length-append init (last ∷ []), length-append pre init))) in
    elim (Bool-cases (starts_with needle (c ∷ (pre ++ init)))) [
      | inl t ↦ absurd (ground (arith, h, t))
      | inr f ↦
          let later : strstr (pre ++ init) needle ≡ none = ground (arith, h, f) in
          rw (test, f, strstr) (strstr-append pre init rest last later)
    ]

-- Whether a character is not in a text, to run on a literal.
abbrev pub lacks : ℕ → Text → Bool
lacks k [] = true
lacks k (c ∷ s) = not (c == k) && lacks k s

pub lacks_sound : (k : ℕ) (s : Text) → lacks k s ≡ true → All (λ c. c ≢ k) s
lacks_sound k [] h = tt
lacks_sound k (c ∷ s) h = (ground arith, lacks_sound k s (ground arith))
