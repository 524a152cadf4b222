-- ===== src/SensorClient/Samples.antt =====
-- The samples that the server accepts, and the words that they are sent as.
use iot_services_monitoring.Common.{
  ℕ, ◌+◌, ◌/◌, ◌%◌, ◌≤◌, ◌<◌, ◌≡◌, refl, ap, ◌∙◌, ◌≢◌, Bool, true, false, ◌&&◌, [], ◌∷◌, ◌++◌, some,
  length, length-append, All, All-append, ◌==◌, arith,
}
use iot_services_monitoring.Text.{Text, is_digit, decimal}
use iot_services_monitoring.Text.Digits.{length-decimal}
use iot_services_monitoring.Double.{
  Double, magnitude, infinity, is_nan, is_minus, hundredths, print_2f,
}
use iot_services_monitoring.Utils.{parse_double, is_valid_timestamp}
use iot_services_monitoring.Utils.Numbers.{strtod}
use iot_services_monitoring.Utils.Decimals.{IsEach, sign_text}
use iot_services_monitoring.Utils.Hundredths.{
  text_of, value_of, decimal-IsEach, digit-IsDigit, minus_text, parse_double-text,
}
use iot_services_monitoring.Utils.Compare.{range}
use iot_services_monitoring.Utils.Timestamp.{digits2, digits4, is_format, is_valid_timestamp_iff}
use iot_services_monitoring.SensorClient.{Sample}
use iot_services_monitoring.SensorClient.Words.{IsWord, IsWordChar}

-- A finite value of less than 2^46, and a timestamp of the format.
pub record IsSample (x : Sample) : Type 0 where
  pub number : is_nan x.value ≡ false
  pub finite : (magnitude x.value == infinity) ≡ false
  pub small : hundredths x.value < range
  pub timed : is_valid_timestamp (some x.timestamp) ≡ true

-- The value with two digits behind the point, which arrives.
abbrev pub two_decimals : Double → Double
two_decimals x = value_of (is_minus x) (hundredths x)

value_text :
    (x : Sample)
    → IsSample x
    → print_2f x.value ≡ sign_text (is_minus x.value) ++ text_of (hundredths x.value)
unfolding print_2f
value_text x s =
    rw (s.number, s.finite, print_2f)
      (ap (λ t. t ++ text_of (hundredths x.value)) (minus_text (is_minus x.value)))

pub parse_double-sample :
    (x : Sample)
    → IsSample x
    → parse_double strtod (some (print_2f x.value)) ≡ some (two_decimals x.value)
parse_double-sample x s =
    ap (λ t. parse_double strtod (some t)) (value_text x s)
    ∙ parse_double-text (is_minus x.value) (hundredths x.value) s.small

digit_word : (c : ℕ) → is_digit c ≡ true → IsWordChar c
unfolding is_digit
digit_word c h = ground (arith, h)

digits-All : (s : Text) → IsEach is_digit s → All IsWordChar s
digits-All [] h = tt
digits-All (c ∷ s) h = (digit_word c h.0, digits-All s h.1)

one_digit : (n : ℕ) → IsWordChar (48 + n % 10)
one_digit n = digit_word (48 + n % 10) (digit-IsDigit (n % 10) (omega arith)).0

text_of-All : (n : ℕ) → All IsWordChar (text_of n)
text_of-All n =
    All-append IsWordChar (decimal (n / 100)) _
      (digits-All (decimal (n / 100)) (decimal-IsEach (n / 100)))
      (refl, (one_digit (n / 10), (one_digit n, tt)))

length-text_of : (n : ℕ) → n < range → length (text_of n) ≤ 18
length-text_of n h =
    let d = length-decimal 14 (n / 100) (omega (arith, h)) in
    rw (length-append (decimal (n / 100))) (omega (arith, d))

sign_text-All : (minus : Bool) → All IsWordChar (sign_text minus) × (length (sign_text minus) ≤ 1)
sign_text-All true = ((refl, tt), omega arith)
sign_text-All false = (tt, omega arith)

long_nonempty : (s : Text) → 0 < length s → s ≢ []
long_nonempty [] h e = absurd (omega (arith, h))
long_nonempty (c ∷ s) h e = cc

pub value-IsWord :
    (x : Sample) → IsSample x → IsWord (print_2f x.value) × (length (print_2f x.value) ≤ 19)
value-IsWord x s =
    let n = hundredths x.value in
    let sign = sign_text (is_minus x.value) in
    let (chars, one) = sign_text-All (is_minus x.value) in
    let d = length-text_of n s.small in
    let whole = length-append sign (text_of n) in
    let digits =
      length-append (decimal (n / 100)) (b'.' ∷ (b'0' + n / 10 % 10) ∷ (b'0' + n % 10) ∷ []) in
    rw (value_text x s) (
      (
        long_nonempty (sign ++ text_of n) (omega (arith, whole, digits)),
        All-append IsWordChar sign (text_of n) chars (text_of-All n),
      ),
      omega (arith, whole, one, d),
    )

split : (a b : Bool) → (a && b) ≡ true → (a ≡ true) × (b ≡ true)
split true b h = (refl, h)
split false b h = absurd (ground (arith, h))

four_digits :
    (a b c d : ℕ)
    → digits4 a b c d ≡ true
    → IsWordChar a × IsWordChar b × IsWordChar c × IsWordChar d
unfolding is_digit
four_digits a b c d h = ground (arith, h)

two_digits : (a b : ℕ) → digits2 a b ≡ true → IsWordChar a × IsWordChar b
unfolding is_digit
two_digits a b h = ground (arith, h)

same_char : (k c : ℕ) → IsWordChar k → (c == k) ≡ true → IsWordChar c
same_char k c w h = let same : c ≡ k = ground (arith, h) in rw same w

format-IsWord : (ts : Text) → is_format ts ≡ true → All IsWordChar ts × (length ts ≡ 20)
format-IsWord
      (y₁ ∷ y₂ ∷ y₃ ∷ y₄ ∷ s₁ ∷ m₁ ∷ m₂ ∷ s₂ ∷ d₁ ∷ d₂ ∷ t ∷ h₁ ∷ h₂ ∷ s₃ ∷ n₁ ∷ n₂ ∷ s₄ ∷ e₁ ∷ e₂
        ∷ z ∷ [])
      h =
    let (year, left) = split (digits4 y₁ y₂ y₃ y₄) _ h in
    let (a, left) = split (s₁ == b'-') _ left in
    let (month, left) = split (digits2 m₁ m₂) _ left in
    let (b, left) = split (s₂ == b'-') _ left in
    let (day, left) = split (digits2 d₁ d₂) _ left in
    let (c, left) = split (t == b'T') _ left in
    let (hour, left) = split (digits2 h₁ h₂) _ left in
    let (d, left) = split (s₃ == b':') _ left in
    let (minute, left) = split (digits2 n₁ n₂) _ left in
    let (e, left) = split (s₄ == b':') _ left in
    let (second, last) = split (digits2 e₁ e₂) _ left in
    let (y, yy, yyy, yyyy) = four_digits y₁ y₂ y₃ y₄ year in
    let (m, mm) = two_digits m₁ m₂ month in
    let (q, qq) = two_digits d₁ d₂ day in
    let (k, kk) = two_digits h₁ h₂ hour in
    let (n, nn) = two_digits n₁ n₂ minute in
    let (x, xx) = two_digits e₁ e₂ second in
    (
      (
        y,
        (
          yy,
          (
            yyy,
            (
              yyyy,
              (
                same_char b'-' s₁ refl a,
                (
                  m,
                  (
                    mm,
                    (
                      same_char b'-' s₂ refl b,
                      (
                        q,
                        (
                          qq,
                          (
                            same_char b'T' t refl c,
                            (
                              k,
                              (
                                kk,
                                (
                                  same_char b':' s₃ refl d,
                                  (
                                    n,
                                    (
                                      nn,
                                      (
                                        same_char b':' s₄ refl e,
                                        (x, (xx, (same_char b'Z' z refl last, tt))),
                                      ),
                                    ),
                                  ),
                                ),
                              ),
                            ),
                          ),
                        ),
                      ),
                    ),
                  ),
                ),
              ),
            ),
          ),
        ),
      ),
      refl,
    )
format-IsWord _ h = absurd (ground (arith, h))

pub timestamp-IsWord :
    (ts : Text) → is_valid_timestamp (some ts) ≡ true → IsWord ts × (length ts ≡ 20)
timestamp-IsWord ts h =
    let (chars, size) = format-IsWord ts ((is_valid_timestamp_iff ts).0 h) in
    ((long_nonempty ts (omega (arith, size)), chars), size)
