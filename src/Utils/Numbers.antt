-- ===== src/Utils/Numbers.antt =====
-- strtod and atoi of the C library, which parse_double and main.c call, in the C locale: white space,
-- a sign, then for strtod inf, infinity, nan, or a decimal or hexadecimal number with a fraction and
-- an exponent. errno is set as glibc sets it. The characters in nan(...) are read over.
use iot_services_monitoring.Common.{
  ℕ, zero, suc, ◌+◌, ◌-◌, ◌*◌, ◌^◌, Bool, true, false, ◌&&◌, ◌||◌, [], ◌∷◌, ◌++◌, Option, none,
  some, length, drop, leb, ◌==◌, ℤ, pos, negsuc, if◌then◌else◌,
}
use iot_services_monitoring.Text.{Text, codes, is_digit, starts_with}
use iot_services_monitoring.Double.{Double, infinity}
use iot_services_monitoring.Double.Nearest.{nearest, underflows}
use iot_services_monitoring.Utils.{skip_spaces, Strtod}

-- tolower
abbrev pub lower : ℕ → ℕ
lower c = if leb b'A' c && leb c b'Z' then c + 32 else c

abbrev is_hex_digit : ℕ → Bool
is_hex_digit c = is_digit c || leb b'a' (lower c) && leb (lower c) b'f'

-- The value of a decimal or hexadecimal digit.
abbrev pub digit_value : ℕ → ℕ
digit_value c = if leb c b'9' then c - b'0' else lower c - b'a' + 10

-- A character of nan(...).
abbrev is_nan_char : ℕ → Bool
is_nan_char c = is_digit c || leb b'a' (lower c) && leb (lower c) b'z' || c == b'_'

-- The longest prefix whose characters pass the test, and what is behind it.
unfoldable pub span : (ℕ → Bool) → Text → Text × Text
span test [] = ([], [])
span test (c ∷ s) = elim (test c) [
  | true ↦ let (taken, left) = span test s in (c ∷ taken, left)
  | false ↦ ([], c ∷ s)
]

-- The number that the digits write behind those read.
unfoldable pub number_of : ℕ → ℕ → Text → ℕ
number_of base acc [] = acc
number_of base acc (c ∷ s) = number_of base (acc * base + digit_value c) s

-- Whether there is a minus sign, and what is behind the sign.
unfoldable pub sign_of : Text → Bool × Text
sign_of [] = (false, [])
sign_of (c ∷ s) = if c == b'-' then (true, s) else if c == b'+' then (false, s) else (false, c ∷ s)

-- The digits behind a point, and the rest.
unfoldable pub fraction_of : (ℕ → Bool) → Text → Text × Text
unfolding span
fraction_of test [] = ([], [])
fraction_of test (c ∷ s) = if c == b'.' then span test s else ([], c ∷ s)

abbrev exponent_digits : Bool × Text → Text → Bool × ℕ × Text
exponent_digits (minus, s) whole =
    let (digits, left) = span is_digit s in
    elim digits [ [] ↦ (false, 0, whole) | d ∷ ds ↦ (minus, number_of 10 0 (d ∷ ds), left) ]

-- The sign and the size of the exponent behind the letter `mark`; nothing is read where no digit
-- follows.
unfoldable pub exponent_part : ℕ → Text → Bool × ℕ × Text
unfolding span number_of sign_of
exponent_part mark [] = (false, 0, [])
exponent_part mark (c ∷ s) =
    if lower c == mark then exponent_digits (sign_of s) (c ∷ s) else (false, 0, c ∷ s)

-- The magnitude of a result, errno, and the text behind the number.
abbrev pub Reading : Type 0
Reading = Option (Double × ℕ × Text)

abbrev pub erange : ℕ
erange = 34

-- n / d as a double.
unfoldable pub rounded : ℕ → ℕ → Double × ℕ
unfolding nearest
rounded n d = let x = nearest n d in (x, if x == infinity || underflows n d then erange else 0)

abbrev pub reading : Double × ℕ → Text → Reading
reading (x, err) left = some (x, err, left)

-- The value of the digits, of which `places` stand behind the point, and the exponent with the rest
-- of the text.
abbrev pub real_value : ℕ → ℕ → Text → ℕ → Bool × ℕ × Text → Reading
real_value base radix [] places (minus, e, left) = none
real_value base radix (c ∷ digits) places (true, e, left) =
    reading (rounded (number_of base 0 (c ∷ digits)) (base ^ places * radix ^ e)) left
real_value base radix (c ∷ digits) places (false, e, left) =
    reading (rounded (number_of base 0 (c ∷ digits) * radix ^ e) (base ^ places)) left

abbrev pub with_exponent : ℕ → ℕ → ℕ → Text → Text × Text → Reading
with_exponent base mark radix before_point (fraction, s) =
    real_value base radix (before_point ++ fraction) (length fraction) (exponent_part mark s)

abbrev pub with_fraction : (ℕ → Bool) → ℕ → ℕ → ℕ → Text × Text → Reading
with_fraction test base mark radix (before_point, s) =
    with_exponent base mark radix before_point (fraction_of test s)

-- A number in `base` with the digits of `test`, whose exponent stands behind `mark` and is one of
-- `radix`.
unfoldable pub read_real : (ℕ → Bool) → ℕ → ℕ → ℕ → Text → Reading
unfolding span number_of fraction_of exponent_part
read_real test base mark radix s = with_fraction test base mark radix (span test s)

-- "nan" with or without characters in parentheses.
abbrev nan_tail : Text → Text
nan_tail [] = []
nan_tail (c ∷ s) =
    if c == b'('
    then elim (span is_nan_char s).1 [ [] ↦ c ∷ s | d ∷ left ↦ if d == b')' then left else c ∷ s ]
    else c ∷ s

abbrev pub lowered : Text → Text
lowered [] = []
lowered (c ∷ s) = lower c ∷ lowered s

-- What follows white space and sign. "0x" without a digit behind it is the number 0.
unfoldable pub read_unsigned : Text → Reading
unfolding span
read_unsigned s =
    if starts_with (codes "infinity") (lowered s)
    then some (infinity, 0, drop 8 s)
    else if starts_with (codes "inf") (lowered s)
    then some (infinity, 0, drop 3 s)
    else if starts_with (codes "nan") (lowered s)
    then some (0x7ff8000000000000, 0, nan_tail (drop 3 s))
    else if starts_with (codes "0x") (lowered s)
    then elim (read_real is_hex_digit 16 b'p' 2 (drop 2 s)) [
      | none ↦ some (0, 0, drop 1 s)
      | some r ↦ some r
    ]
    else read_real is_digit 10 b'e' 10 s

abbrev pub strtod_result : Text → Bool → Reading → Strtod
strtod_result s minus none = record { value = 0; consumed = 0; errno = 0 }
strtod_result s minus (some (x, err, left)) = record {
  value = (if minus then 2 ^ 63 else 0) + x;
  consumed = length s - length left;
  errno = err;
}

abbrev pub read_signed : Text → Bool × Text → Strtod
read_signed s (minus, rest) = strtod_result s minus (read_unsigned rest)

unfoldable pub strtod : Text → Strtod
unfolding skip_spaces sign_of
strtod s = read_signed s (sign_of (skip_spaces s))

abbrev pub signed_int : Bool × ℕ → ℤ
signed_int (false, n) = pos n
signed_int (true, zero) = pos 0
signed_int (true, suc n) = negsuc n

abbrev pub leading_int : Bool × Text → ℤ
leading_int (minus, s) = signed_int (minus, number_of 10 0 (span is_digit s).0)

-- Past the range of `int` the C standard leaves the result open.
unfoldable pub atoi : Text → ℤ
unfolding is_digit skip_spaces sign_of span number_of
atoi s = leading_int (sign_of (skip_spaces s))
