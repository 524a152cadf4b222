-- ===== src/Utils/Decimals.antt =====
-- What parse_double makes of a decimal number, by strtod of Utils/Numbers.
use mathlib.Core.List.{append-nil}
use iot_services_monitoring.Common.{
  ℕ, ◌+◌, ◌-◌, ◌*◌, ◌^◌, ◌≤◌, ◌<◌, ◌≡◌, refl, ap, ◌∙◌, Bool, true, false, ◌||◌, [], ◌∷◌, ◌++◌, none,
  some, length, length-append, drop, ◌==◌, arith, if◌then◌else◌, Bool-cases, inl, inr,
}
use iot_services_monitoring.Text.{Text, codes, is_digit, starts_with}
use iot_services_monitoring.Double.{Double}
use iot_services_monitoring.Utils.{skip_spaces, accepted, parse_double}
use iot_services_monitoring.Utils.Numbers.{
  span, number_of, sign_of, rounded, read_real, read_unsigned, strtod, lower, lowered,
  strtod_result, reading, read_signed, real_value, with_exponent, with_fraction,
}

-- Every character passes the test.
abbrev pub IsEach : (ℕ → Bool) → Text → Type 0
IsEach test [] = Unit
IsEach test (c ∷ s) = (test c ≡ true) × IsEach test s

-- A digit or the point.
abbrev pub is_plain : ℕ → Bool
is_plain c = is_digit c || c == b'.'

span-stop :
    (test : ℕ → Bool) (s : Text) (c : ℕ) (left : Text)
    → IsEach test s
    → test c ≡ false
    → span test (s ++ (c ∷ left)) ≡ (s, c ∷ left)
unfolding span
span-stop test [] c left h stop = rw (stop, span) refl
span-stop test (d ∷ s) c left (t, h) stop =
    rw (t, span) (ap (λ (p : Text × Text). (d ∷ p.0, p.1)) (span-stop test s c left h stop))

pub span-end : (test : ℕ → Bool) (s : Text) → IsEach test s → span test s ≡ (s, [])
unfolding span
span-end test [] h = refl
span-end test (d ∷ s) (t, h) =
    rw (t, span) (ap (λ (p : Text × Text). (d ∷ p.0, p.1)) (span-end test s h))

times_one : (n : ℕ) → n * 10 ^ 0 ≡ n
times_one n = omega arith

real_value-plain :
    (places c : ℕ) (digits : Text) {s : Text}
    → s ≡ c ∷ digits
    → real_value 10 10 s places (false, 0, [])
      ≡ reading (rounded (number_of 10 0 s) (10 ^ places)) []
real_value-plain places c digits e =
    rw e (ap (λ m. reading (rounded m (10 ^ places)) []) (times_one (number_of 10 0 (c ∷ digits))))

-- A number with a point and without an exponent.
read_real-point :
    (whole fraction : Text) (c : ℕ) (digits : Text)
    → IsEach is_digit whole
    → IsEach is_digit fraction
    → whole ++ fraction ≡ c ∷ digits
    → read_real is_digit 10 b'e' 10 (whole ++ (b'.' ∷ fraction))
      ≡ reading (rounded (number_of 10 0 (whole ++ fraction)) (10 ^ length fraction)) []
unfolding read_real is_digit
read_real-point whole fraction c digits w f e =
    ap (with_fraction is_digit 10 b'e' 10) (span-stop is_digit whole b'.' fraction w refl)
    ∙ ap (with_exponent 10 b'e' 10 whole) (span-end is_digit fraction f)
    ∙ real_value-plain (length fraction) c digits e

-- Without letters a text begins with no name, and has no 'x' behind its first character.
plain-lower : (k c : ℕ) → is_plain c ≡ true → b'a' ≤ k → (k == lower c) ≡ false
unfolding is_digit
plain-lower k c t h = ground arith

starts_with-letter :
    (k : ℕ) (prefix s : Text)
    → IsEach is_plain s
    → b'a' ≤ k
    → starts_with (k ∷ prefix) (lowered s) ≡ false
unfolding starts_with
starts_with-letter k prefix [] h a = refl
starts_with-letter k prefix (c ∷ s) (t, h) a = rw (plain-lower k c t a, starts_with) refl

starts_with-second :
    (d k : ℕ) (s : Text)
    → IsEach is_plain s
    → b'a' ≤ k
    → starts_with (d ∷ k ∷ []) (lowered s) ≡ false
unfolding starts_with
starts_with-second d k [] h a = refl
starts_with-second d k (c ∷ s) (t, h) a = rw (starts_with-letter k [] s h a) (ground arith)

read_unsigned-plain :
    (s : Text) → IsEach is_plain s → read_unsigned s ≡ read_real is_digit 10 b'e' 10 s
unfolding read_unsigned
read_unsigned-plain s h =
    rw
      (
        read_unsigned,
        starts_with-letter b'i' (codes "nfinity") s h (omega arith),
        starts_with-letter b'i' (codes "nf") s h (omega arith),
        starts_with-letter b'n' (codes "an") s h (omega arith),
        starts_with-second b'0' b'x' s h (omega arith),
      )
      refl

abbrev pub sign_text : Bool → Text
sign_text true = b'-' ∷ []
sign_text false = []

abbrev pub sign_bit : Bool → ℕ
sign_bit true = 2 ^ 63
sign_bit false = 0

-- White space and the sign are read off.
pub plain-start : (s : Text) → IsEach is_plain s → (skip_spaces s ≡ s) × (sign_of s ≡ (false, s))
unfolding skip_spaces sign_of is_digit
plain-start [] h = (refl, refl)
plain-start (c ∷ s) (t, h) = (ground arith, ground arith)

strtod-signed :
    (minus : Bool) (s : Text)
    → IsEach is_plain s
    → strtod (sign_text minus ++ s) ≡ strtod_result (sign_text minus ++ s) minus (read_unsigned s)
unfolding strtod
strtod-signed true s h = refl
strtod-signed false s h =
    let (start, sign) = plain-start s h in
    ap (λ t. read_signed s (sign_of t)) start ∙ ap (read_signed s) sign

plain-append :
    (whole fraction : Text)
    → IsEach is_digit whole
    → IsEach is_digit fraction
    → IsEach is_plain (whole ++ (b'.' ∷ fraction))
unfolding is_digit
plain-append [] [] w f = (refl, tt)
plain-append [] (d ∷ fraction) w (t, f) =
    let (p, rest) = plain-append [] fraction w f in (p, (rw t refl, rest))
plain-append (d ∷ whole) fraction (t, w) f = (rw t refl, plain-append whole fraction w f)

nonempty : (s : Text) → 0 < length s → (c : ℕ) × (digits : Text) × (s ≡ c ∷ digits)
nonempty [] h = absurd (omega arith)
nonempty (c ∷ s) h = (c, s, refl)

drop-length : (s : Text) → drop (length s) s ≡ []
drop-length [] = refl
drop-length (c ∷ s) = drop-length s

-- A result of strtod with nothing behind the number.
accept-all :
    (minus : Bool) (s : Text) (value errno : ℕ)
    → 0 < length s
    → accepted s (strtod_result s minus (some (value, errno, [])))
      ≡ (if errno == 0 then some (sign_bit minus + value) else none)
accept-all minus s value errno h =
    let all : length s - 0 ≡ length s = omega arith in
    let left : drop (length s - 0) s ≡ [] = rw all (drop-length s) in
    let positive : (length s - 0 == 0) ≡ false = ground arith in
    elim (Bool-cases minus) [
      | inl t ↦ rw (t, left, positive) (ground arith)
      | inr t ↦ rw (t, left, positive) (ground arith)
    ]

-- A number that is read to its end.
parse_double-read :
    (minus : Bool) (s : Text) (r : Double × ℕ)
    → IsEach is_plain s
    → 0 < length s
    → read_real is_digit 10 b'e' 10 s ≡ reading r []
    → parse_double strtod (some (sign_text minus ++ s))
      ≡ (if r.1 == 0 then some (sign_bit minus + r.0) else none)
unfolding parse_double
parse_double-read minus s r plain h e =
    let text = sign_text minus ++ s in
    let read : strtod text ≡ strtod_result text minus (reading r []) =
      strtod-signed minus s plain
      ∙ ap (strtod_result text minus) (read_unsigned-plain s plain ∙ e) in
    ap (accepted text) read
    ∙ accept-all minus text r.0 r.1 (omega (arith, length-append (sign_text minus) s))

-- A number with an optional minus sign and a point, with a digit at least, is accepted by
-- parse_double with the double nearest to it and its sign, unless strtod reports a range error.
pub parse_double-decimal :
    (minus : Bool) (whole fraction : Text)
    → IsEach is_digit whole
    → IsEach is_digit fraction
    → 0 < length (whole ++ fraction)
    → let text = sign_text minus ++ (whole ++ (b'.' ∷ fraction)) in
      let (value, errno) = rounded (number_of 10 0 (whole ++ fraction)) (10 ^ length fraction) in
      parse_double strtod (some text) ≡ (if errno == 0 then some (sign_bit minus + value) else none)
parse_double-decimal minus whole fraction w f some_digit =
    let (c, digits, e) = nonempty (whole ++ fraction) some_digit in
    parse_double-read minus (whole ++ (b'.' ∷ fraction))
      (rounded (number_of 10 0 (whole ++ fraction)) (10 ^ length fraction))
      (plain-append whole fraction w f) (omega (arith, length-append whole (b'.' ∷ fraction)))
      (read_real-point whole fraction c digits w f e)

digits-IsPlain : (s : Text) → IsEach is_digit s → IsEach is_plain s
digits-IsPlain [] h = tt
digits-IsPlain (c ∷ s) (t, h) = (rw t refl, digits-IsPlain s h)

read_real-whole :
    (whole : Text) (c : ℕ) (digits : Text)
    → IsEach is_digit whole
    → whole ≡ c ∷ digits
    → read_real is_digit 10 b'e' 10 whole ≡ reading (rounded (number_of 10 0 whole) 1) []
unfolding read_real
read_real-whole whole c digits w e =
    ap (with_fraction is_digit 10 b'e' 10) (span-end is_digit whole w)
    ∙ ap (λ s. real_value 10 10 s 0 (false, 0, [])) (append-nil whole)
    ∙ real_value-plain 0 c digits e

-- The same without a point.
pub parse_double-whole :
    (minus : Bool) (whole : Text)
    → IsEach is_digit whole
    → 0 < length whole
    → let (value, errno) = rounded (number_of 10 0 whole) 1 in
      parse_double strtod (some (sign_text minus ++ whole))
      ≡ (if errno == 0 then some (sign_bit minus + value) else none)
parse_double-whole minus whole w some_digit =
    let (c, digits, e) = nonempty whole some_digit in
    parse_double-read minus whole (rounded (number_of 10 0 whole) 1) (digits-IsPlain whole w)
      some_digit (read_real-whole whole c digits w e)
