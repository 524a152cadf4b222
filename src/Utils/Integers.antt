-- ===== src/Utils/Integers.antt =====
-- atoi reads a number that is written in decimal.
use iot_services_monitoring.Common.{ℕ, ◌≡◌, refl, ap, ◌∙◌, false, [], ◌∷◌, pos}
use iot_services_monitoring.Text.{Text, is_digit, decimal}
use iot_services_monitoring.Utils.Numbers.{sign_of, number_of, atoi, leading_int, signed_int}
use iot_services_monitoring.Utils.Decimals.{IsEach, is_plain, plain-start, span-end}
use iot_services_monitoring.Utils.Hundredths.{decimal-IsEach, number_of-decimal}

digits-IsEach : (s : Text) → IsEach is_digit s → IsEach is_plain s
digits-IsEach [] h = tt
digits-IsEach (c ∷ s) (t, h) = (rw t refl, digits-IsEach s h)

pub atoi-decimal : (n : ℕ) → atoi (decimal n) ≡ pos n
unfolding atoi
atoi-decimal n =
    let digits = decimal-IsEach n in
    let (start, sign) = plain-start (decimal n) (digits-IsEach (decimal n) digits) in
    ap (λ s. leading_int (sign_of s)) start
    ∙ ap leading_int sign
    ∙ ap (λ (p : Text × Text). signed_int (false, number_of 10 0 p.0))
        (span-end is_digit (decimal n) digits)
    ∙ ap pos (number_of-decimal n)
