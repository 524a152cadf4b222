-- ===== src/Text/Laws.antt =====
-- Laws of the comparison of C strings.
use iot_services_monitoring.Common.{◌≡◌, refl, ◌↔◌, ◌≢◌, true, false, [], ◌∷◌, arith}
use iot_services_monitoring.Text.{Text, text_eq}

text_eq_sound : (a b : Text) → text_eq a b ≡ true → a ≡ b
unfolding text_eq
text_eq_sound [] [] h = refl
text_eq_sound [] (y ∷ b) h = cc
text_eq_sound (x ∷ a) [] h = cc
text_eq_sound (x ∷ a) (y ∷ b) h = ground (arith, text_eq_sound a b)

pub text_eq_refl : (a : Text) → text_eq a a ≡ true
unfolding text_eq
text_eq_refl [] = refl
text_eq_refl (x ∷ a) = ground (arith, text_eq_refl a)

-- Two C strings compare equal exactly when they are equal.
pub text_eq_iff : (a b : Text) → (text_eq a b ≡ true) ↔ (a ≡ b)
text_eq_iff a b = (text_eq_sound a b, λ e. rw e (text_eq_refl b))

pub text_eq-ne : (a b : Text) → text_eq a b ≡ false → a ≢ b
text_eq-ne a b h = λ e. let t = (text_eq_iff a b).1 e in cc
