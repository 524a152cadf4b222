-- ===== src/Utils/Trim.antt =====
-- trim of server/src/utils.c.
use mathlib.Core.Path.{subst}
use mathlib.Core.List.{reverse-cons, reverse-reverse, reverse-append}
use iot_services_monitoring.Common.{
  ℕ, ◌≡◌, refl, sym, ap, ◌∙◌, true, false, [], ◌∷◌, ◌++◌, reverse, Option, some, All, All-append,
  Bool-cases, inl, inr,
}
use iot_services_monitoring.Text.{Text, is_space}
use iot_services_monitoring.Utils.{skip_spaces, trim}

abbrev pub IsBlank : Text → Type 0
IsBlank s = All (λ c. is_space c ≡ true) s

-- The first character, if there is one, is no white space.
abbrev pub StartsSolid : Text → Type 0
StartsSolid [] = Unit
StartsSolid (c ∷ s) = is_space c ≡ false

skip_spaces_lem :
    (s : Text)
    → (blank : Text) × IsBlank blank × (blank ++ skip_spaces s ≡ s) × StartsSolid (skip_spaces s)
unfolding skip_spaces
skip_spaces_lem [] = ([], tt, refl, tt)
skip_spaces_lem (c ∷ s) = elim (Bool-cases (is_space c)) [
  | inl t ↦
      let (blank, spaces, whole, solid) = skip_spaces_lem s in
      rw (t, skip_spaces) (c ∷ blank, (t, spaces), ap (λ r. c ∷ r) whole, solid)
  | inr f ↦ rw (f, skip_spaces) ([], tt, refl, f)
]

IsBlank-reverse : (s : Text) → IsBlank s → IsBlank (reverse s)
IsBlank-reverse [] h = tt
IsBlank-reverse (c ∷ s) (t, h) =
    subst IsBlank (sym (reverse-cons c s))
      (All-append (λ d. is_space d ≡ true) (reverse s) (c ∷ []) (IsBlank-reverse s h) (t, tt))

StartsSolid-append :
    (s : Text) (c : ℕ) → StartsSolid s → is_space c ≡ false → StartsSolid (s ++ (c ∷ []))
StartsSolid-append [] c h f = f
StartsSolid-append (d ∷ s) c h f = h

-- The walk back from the end.
trim_end :
    (c : ℕ) (s : Text)
    → is_space c ≡ false
    → let t = c ∷ reverse (skip_spaces (reverse s)) in
      (blank : Text) × IsBlank blank × (t ++ blank ≡ c ∷ s) × StartsSolid (reverse t)
trim_end c s f =
    let (blank, spaces, whole, solid) = skip_spaces_lem (reverse s) in
    let kept = skip_spaces (reverse s) in
    (
      reverse blank,
      IsBlank-reverse blank spaces,
      ap (λ r. c ∷ r) (sym (reverse-append blank kept) ∙ ap reverse whole ∙ reverse-reverse s),
      subst StartsSolid
          (ap (λ r. r ++ (c ∷ [])) (sym (reverse-reverse kept))
            ∙ sym (reverse-cons c (reverse kept)))
          (StartsSolid-append kept c solid f),
    )

-- The parts of a trimmed text.
abbrev pub Trimmed : Text → Option Text → Type 0
Trimmed str result =
    (t : Text) × (front : Text) × (back : Text) × (result ≡ some t)
    × (front ++ (t ++ back) ≡ str)
    × IsBlank front
    × IsBlank back
    × StartsSolid t
    × StartsSolid (reverse t)

trim-Trimmed :
    (str core front : Text)
    → skip_spaces str ≡ core
    → IsBlank front
    → front ++ core ≡ str
    → StartsSolid core
    → Trimmed str (trim (some str))
unfolding trim
trim-Trimmed str [] front e blank whole solid =
    ([], front, [], rw (e, trim) refl, whole, blank, tt, tt, tt)
trim-Trimmed str (c ∷ s) front e blank whole solid =
    let (back, blank', end, solid') = trim_end c s solid in
    (
      c ∷ reverse (skip_spaces (reverse s)),
      front,
      back,
      rw (e, trim) refl,
      ap (λ r. front ++ r) end ∙ whole,
      blank,
      blank',
      solid,
      solid',
    )

-- trim cuts the white space before and behind the text, and no more: what is left neither begins nor
-- ends with white space, and nothing inside it is lost.
pub trim_lem : (str : Text) → Trimmed str (trim (some str))
trim_lem str =
    let (front, blank, whole, solid) = skip_spaces_lem str in
    trim-Trimmed str (skip_spaces str) front refl blank whole solid
