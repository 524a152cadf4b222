-- ===== src/Utils/Numerals.antt =====
-- Values as sensors write them, with two digits behind the point at most: parse_double reads them all.
use iot_services_monitoring.Common.{
  ℕ, zero, suc, ◌+◌, ◌-◌, ◌*◌, ◌^◌, ◌≤◌, ◌<◌, ◌≡◌, refl, sym, ap, ◌∙◌, Bool, false, [], ◌∷◌, ◌++◌,
  none, some, length, ◌==◌, arith, if◌then◌else◌,
}
use iot_services_monitoring.Text.{Text, is_digit}
use iot_services_monitoring.Double.{Double, infinity}
use iot_services_monitoring.Double.Nearest.{nearest, underflows}
use iot_services_monitoring.Double.Nearest.Hundredths.{nearest-finite, underflows-small}
use iot_services_monitoring.Double.Nearest.Scale.{nearest_scale}
use iot_services_monitoring.Utils.{parse_double}
use iot_services_monitoring.Utils.Numbers.{number_of, rounded, strtod}
use iot_services_monitoring.Utils.Decimals.{
  IsEach, sign_text, sign_bit, parse_double-decimal, parse_double-whole,
}
use iot_services_monitoring.Utils.Hundredths.{not_infinite, text_of, value_of}
use iot_services_monitoring.Utils.Compare.{range}
use mathlib.Core.List.{append-nil}
use native.Mathlib.Nat.{le_refl, mul-le-mul}

-- A number by its sign and the digits in front of the point and behind it.
pub record Numeral : Type 0 where
  pub minus : Bool
  pub whole : Text
  pub fraction : Text

-- The digits behind the point, with the point.
abbrev pub point : Text → Text
point [] = []
point (c ∷ s) = b'.' ∷ c ∷ s

abbrev pub written : Numeral → Text
written x = sign_text x.minus ++ (x.whole ++ point x.fraction)

-- The number of hundredths.
abbrev pub worth : Numeral → ℕ
worth x = number_of 10 0 (x.whole ++ x.fraction) * 10 ^ (2 - length x.fraction)

-- The number as `%.2f` prints it.
abbrev pub two_places : Numeral → Text
two_places x = sign_text x.minus ++ text_of (worth x)

-- Digits, one at least and two behind the point at most, that write less than 2^46.
pub record IsShort (x : Numeral) : Type 0 where
  pub whole : IsEach is_digit x.whole
  pub fraction : IsEach is_digit x.fraction
  pub some_digit : 0 < length (x.whole ++ x.fraction)
  pub places : length x.fraction ≤ 2
  pub small : worth x < range

divisor : (d k : ℕ) → d * k ≡ 100 → (0 < d) × (d ≤ 100)
divisor zero k e = absurd (omega (arith, e))
divisor (suc d) zero e = absurd (omega (arith, e))
divisor (suc d) (suc k) e =
    let product : suc d * 1 ≤ suc d * suc k = mul-le-mul (le_refl (suc d)) (omega arith) in
    (omega arith, omega (arith, product, e))

rounded-finite :
    (m d x : ℕ)
    → nearest m d ≡ x
    → (x == infinity) ≡ false
    → underflows m d ≡ false
    → rounded m d ≡ (x, 0)
unfolding rounded
rounded-finite m d x e f u = rw (e, f, u) refl

-- A fraction that is a number of hundredths.
rounded-part :
    (m d k : ℕ) → 0 < k → d * k ≡ 100 → m * k < range → rounded m d ≡ (nearest (m * k) 100, 0)
rounded-part m d k positive e h =
    let (above, below) = divisor d k e in
    rounded-finite m d (nearest (m * k) 100)
      (sym (nearest_scale m d k positive) ∙ ap (nearest (m * k)) e)
      (not_infinite (nearest (m * k) 100) (nearest-finite (m * k) h))
      (underflows-small m d above below)

ten_power : (p : ℕ) → p ≤ 2 → (0 < 10 ^ (2 - p)) × (10 ^ p * 10 ^ (2 - p) ≡ 100)
ten_power zero h = ground arith
ten_power (suc zero) h = ground arith
ten_power (suc (suc zero)) h = ground arith
ten_power (suc (suc (suc p))) h = absurd (omega (arith, h))

accepted_value :
    (minus : Bool) {r : Double × ℕ} (x : ℕ)
    → r ≡ (x, 0)
    → (if r.1 == 0 then some (sign_bit minus + r.0) else none) ≡ some (sign_bit minus + x)
accepted_value minus x e =
    ap (λ (r : Double × ℕ). if r.1 == 0 then some (sign_bit minus + r.0) else none) e

parse_double-parts :
    (minus : Bool) (whole fraction : Text)
    → IsShort (record { minus = minus; whole = whole; fraction = fraction })
    → parse_double strtod (some (sign_text minus ++ (whole ++ point fraction)))
      ≡ some (value_of minus (number_of 10 0 (whole ++ fraction) * 10 ^ (2 - length fraction)))
parse_double-parts minus whole [] short = rw (append-nil whole) (
    parse_double-whole minus whole short.whole (rw (append-nil whole) at short.some_digit)
    ∙ accepted_value minus (nearest (number_of 10 0 whole * 100) 100) (
        rounded-part (number_of 10 0 whole) 1 100 (omega arith) refl
          (rw (append-nil whole) at short.small)))
parse_double-parts minus whole (c ∷ s) short =
    let p = length (c ∷ s) in
    let m = number_of 10 0 (whole ++ (c ∷ s)) in
    let (positive, product) = ten_power p short.places in
    parse_double-decimal minus whole (c ∷ s) short.whole short.fraction short.some_digit
    ∙ accepted_value minus (nearest (m * 10 ^ (2 - p)) 100)
        (rounded-part m (10 ^ p) (10 ^ (2 - p)) positive product short.small)

-- A value with two digits behind the point at most, and less than 2^46, is accepted by parse_double
-- as the double nearest to it.
pub parse_double-numeral :
    (x : Numeral)
    → IsShort x
    → parse_double strtod (some (written x)) ≡ some (value_of x.minus (worth x))
parse_double-numeral x short = parse_double-parts x.minus x.whole x.fraction short
