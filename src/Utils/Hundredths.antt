-- ===== src/Utils/Hundredths.antt =====
-- Values with two digits behind the point: parse_double reads them, and `%.2f` prints them again.
use iot_services_monitoring.Common.{
  ℕ, zero, suc, ◌+◌, ◌*◌, ◌/◌, ◌%◌, ◌^◌, ◌<◌, ◌≡◌, refl, ap, ◌∙◌, Bool, true, false, [], ◌∷◌, ◌++◌,
  none, some, length-append, ◌==◌, ltb, arith, if◌then◌else◌, Bool-cases, inl, inr,
}
use iot_services_monitoring.Text.{Text, is_digit, digits_from, decimal}
use iot_services_monitoring.Double.{
  Double, magnitude, infinity, is_nan, is_minus, mantissa, exponent, hundredths, printed_parts,
  print_2f,
}
use iot_services_monitoring.Double.Nearest.{nearest}
use iot_services_monitoring.Double.Nearest.Hundredths.{
  hundredths-nearest, nearest-finite, underflows-small,
}
use iot_services_monitoring.Utils.{parse_double}
use iot_services_monitoring.Utils.Numbers.{number_of, digit_value, rounded, strtod}
use iot_services_monitoring.Utils.Decimals.{IsEach, sign_text, sign_bit, parse_double-decimal}

number_of-append :
    (acc : ℕ) (s t : Text) → number_of 10 acc (s ++ t) ≡ number_of 10 (number_of 10 acc s) t
unfolding number_of
number_of-append acc [] t = refl
number_of-append acc (c ∷ s) t = number_of-append (acc * 10 + digit_value c) s t

pub digit-IsDigit : (n : ℕ) → n < 10 → (is_digit (48 + n) ≡ true) × (digit_value (48 + n) ≡ n)
unfolding is_digit
digit-IsDigit n h = (ground arith, ground arith)

digits_from-IsEach :
    (fuel n : ℕ) (acc : Text)
    → n < fuel
    → IsEach is_digit acc
    → IsEach is_digit (digits_from fuel n acc)
unfolding digits_from
digits_from-IsEach zero n acc h a = a
digits_from-IsEach (suc fuel) n acc h a = elim (Bool-cases (ltb n 10)) [
  | inl short ↦ rw (short, digits_from) ((digit-IsDigit n (ground arith)).0, a)
  | inr long ↦
      rw (long, digits_from)
        (digits_from-IsEach fuel (n / 10) ((48 + n % 10) ∷ acc) (ground arith)
          ((digit-IsDigit (n % 10) (omega arith)).0, a))
]

number_of-digits_from :
    (fuel n : ℕ) (acc : Text)
    → n < fuel
    → number_of 10 0 (digits_from fuel n acc) ≡ number_of 10 n acc
unfolding digits_from number_of
number_of-digits_from zero n acc h = absurd (omega (arith, h))
number_of-digits_from (suc fuel) n acc h = elim (Bool-cases (ltb n 10)) [
  | inl short ↦
      rw (short, digits_from)
        (ap (λ k. number_of 10 (0 + k) acc) (digit-IsDigit n (ground arith)).1
          ∙ ap (λ k. number_of 10 k acc) (omega arith))
  | inr long ↦
      rw (long, digits_from)
        (number_of-digits_from fuel (n / 10) ((48 + n % 10) ∷ acc) (ground arith)
          ∙ ap (λ k. number_of 10 (n / 10 * 10 + k) acc) (digit-IsDigit (n % 10) (omega arith)).1
          ∙ ap (λ k. number_of 10 k acc) (omega arith))
]

-- A decimal number is digits, and reads as itself.
pub decimal-IsEach : (n : ℕ) → IsEach is_digit (decimal n)
unfolding decimal
decimal-IsEach n = digits_from-IsEach (suc n) n [] (omega arith) tt

pub number_of-decimal : (n : ℕ) → number_of 10 0 (decimal n) ≡ n
unfolding decimal number_of
number_of-decimal n = number_of-digits_from (suc n) n [] (omega arith)

-- n hundredths with a point, without leading zeros.
abbrev pub text_of : ℕ → Text
text_of n = decimal (n / 100) ++ (b'.' ∷ (b'0' + n / 10 % 10) ∷ (b'0' + n % 10) ∷ [])

number_of-text :
    (n : ℕ)
    → number_of 10 0 (decimal (n / 100) ++ ((b'0' + n / 10 % 10) ∷ (b'0' + n % 10) ∷ [])) ≡ n
unfolding number_of
number_of-text n =
    let tens = (digit-IsDigit (n / 10 % 10) (omega arith)).1 in
    let ones = (digit-IsDigit (n % 10) (omega arith)).1 in
    number_of-append 0 (decimal (n / 100)) _ ∙ rw (number_of-decimal, tens, ones) (omega arith)

pub not_infinite : (x : ℕ) → x < infinity → (x == infinity) ≡ false
not_infinite x h = ground arith

rounded-hundredths : (n : ℕ) → n < 100 * 2 ^ 46 → rounded n 100 ≡ (nearest n 100, 0)
unfolding rounded
rounded-hundredths n h =
    let u = underflows-small n 100 (omega arith) (omega arith) in
    let finite = nearest-finite n h in rw (u, not_infinite (nearest n 100) finite) refl

-- The double that a text of hundredths stands for.
abbrev pub value_of : Bool → ℕ → Double
value_of minus n = sign_bit minus + nearest n 100

-- A text of fewer than 2^46 whole units is accepted as the double nearest to it.
pub parse_double-text :
    (minus : Bool) (n : ℕ)
    → n < 100 * 2 ^ 46
    → parse_double strtod (some (sign_text minus ++ text_of n)) ≡ some (value_of minus n)
parse_double-text minus n h =
    let places = (b'0' + n / 10 % 10) ∷ (b'0' + n % 10) ∷ [] in
    let tens = (digit-IsDigit (n / 10 % 10) (omega arith)).0 in
    let ones = (digit-IsDigit (n % 10) (omega arith)).0 in
    let read =
      parse_double-decimal minus (decimal (n / 100)) places (decimal-IsEach (n / 100))
        (tens, (ones, tt)) (omega (arith, length-append (decimal (n / 100)) places)) in
    read
    ∙ ap (λ (r : Double × ℕ). if r.1 == 0 then some (sign_bit minus + r.0) else none)
        (ap (λ k. rounded k 100) (number_of-text n) ∙ rounded-hundredths n h)

-- Such a double prints its sign and its magnitude.
pub pattern_parts :
    (minus : Bool) (x : ℕ)
    → x < infinity
    → (is_minus (sign_bit minus + x) ≡ minus) × (magnitude (sign_bit minus + x) ≡ x)
pattern_parts true x h = (ground arith, omega arith)
pattern_parts false x h = (ground arith, omega arith)

same_mantissa : (minus : Bool) (x : ℕ) → x < infinity → mantissa (sign_bit minus + x) ≡ mantissa x
same_mantissa true x h = ground arith
same_mantissa false x h = ap mantissa (omega arith)

same_exponent : (minus : Bool) (x : ℕ) → x < infinity → exponent (sign_bit minus + x) ≡ exponent x
same_exponent true x h = ground arith
same_exponent false x h = ap exponent (omega arith)

hundredths-cong :
    (a b : Double) → mantissa a ≡ mantissa b → exponent a ≡ exponent b → hundredths a ≡ hundredths b
unfolding hundredths
hundredths-cong a b m e = rw (hundredths, m, e) refl

hundredths-sign :
    (minus : Bool) (x : ℕ) → x < infinity → hundredths (sign_bit minus + x) ≡ hundredths x
hundredths-sign minus x h =
    hundredths-cong (sign_bit minus + x) x (same_mantissa minus x h) (same_exponent minus x h)

pub is_finite :
    (minus : Bool) (x : ℕ)
    → x < infinity
    → (is_nan (sign_bit minus + x) ≡ false) × ((magnitude (sign_bit minus + x) == infinity) ≡ false)
unfolding is_nan
is_finite minus x h =
    let (sign, size) = pattern_parts minus x h in (rw size (ground arith), rw size (ground arith))

pub minus_text : (minus : Bool) → (if minus then b'-' ∷ [] else []) ≡ sign_text minus
minus_text true = refl
minus_text false = refl

pub print_2f-text :
    (minus : Bool) (n : ℕ)
    → n < 100 * 2 ^ 46
    → print_2f (value_of minus n) ≡ sign_text minus ++ text_of n
unfolding print_2f
print_2f-text minus n h =
    let finite = nearest-finite n h in
    let (sign, size) = pattern_parts minus (nearest n 100) finite in
    let (number, bounded) = is_finite minus (nearest n 100) finite in
    let shown = hundredths-sign minus (nearest n 100) finite ∙ hundredths-nearest n h in
    let x = value_of minus n in
    ap (λ b. printed_parts b (is_nan x) (magnitude x == infinity) (hundredths x)) sign
    ∙ ap (λ b. printed_parts minus b (magnitude x == infinity) (hundredths x)) number
    ∙ ap (λ b. printed_parts minus false b (hundredths x)) bounded
    ∙ ap (printed_parts minus false false) shown
    ∙ ap (λ t. t ++ text_of n) (minus_text minus)

-- A value of two digits behind the point and less than 2^46 is read by parse_double as a double that
-- `%.2f` prints again as it was.
pub parse_double-print_2f :
    (minus : Bool) (n : ℕ)
    → n < 100 * 2 ^ 46
    → let text = sign_text minus ++ text_of n in
      (x : Double) × (parse_double strtod (some text) ≡ some x) × (print_2f x ≡ text)
parse_double-print_2f minus n h =
    (value_of minus n, parse_double-text minus n h, print_2f-text minus n h)
