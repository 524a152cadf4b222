-- ===== src/Double/Printed.antt =====
-- How long a double is when it is printed by `%.2f`.
use native.Mathlib.Nat.{mul-le-mul, pow-le-pow_right, div-le_self}
use iot_services_monitoring.Common.{
  ℕ, ◌+◌, ◌-◌, ◌*◌, ◌/◌, ◌^◌, ◌≤◌, ◌<◌, ◌≡◌, true, false, Bool-cases, inl, inr, arith, length, leb,
  ◌==◌, length-append, Bool, [], ◌∷◌, if◌then◌else◌,
}
use iot_services_monitoring.Text.Digits.{power10, length-decimal}
use iot_services_monitoring.Double.{
  Double, magnitude, infinity, is_nan, is_minus, mantissa, exponent, round_div, hundredths,
  print_2f,
}

mantissa_lt : (x : Double) → mantissa x < 2 ^ 53
mantissa_lt x = ground arith

exponent_le : (x : Double) → magnitude x < infinity → exponent x ≤ 2046
exponent_le x h = ground arith

round_div_le : (n d : ℕ) → round_div n d ≤ n + 1
unfolding round_div
round_div_le n d = ground (arith, div-le_self n d)

hundredths_lt : (x : Double) → magnitude x < infinity → hundredths x < 100 * (10 * power10 308)
unfolding hundredths
hundredths_lt x h =
    let m = mantissa_lt x in
    elim (Bool-cases (leb 1075 (exponent x))) [
      | inl big ↦
          let p : 2 ^ (exponent x - 1075) ≤ 2 ^ 971 =
            pow-le-pow_right (omega arith) {j = 971} (omega (arith, exponent_le x h)) in
          let n : mantissa x * 100 ≤ (2 ^ 53 - 1) * 100 = omega arith in
          let all = mul-le-mul n p in rw (big, hundredths) (omega arith)
      | inr small ↦
          let r = round_div_le (mantissa x * 100) (2 ^ (1075 - exponent x)) in
          rw (small, hundredths) (omega arith)
    ]

not_nan :
    (x : Double) → is_nan x ≡ false → (magnitude x == infinity) ≡ false → magnitude x < infinity
unfolding is_nan
not_nan x f o = ground arith

sign_length : (b : Bool) → length {A = ℕ} (if b then b'-' ∷ [] else []) ≤ 1
sign_length true = omega arith
sign_length false = omega arith

-- A sign, 309 digits, the point and two digits.
pub length-print_2f : (x : Double) → length (print_2f x) ≤ 313
unfolding print_2f
length-print_2f x =
    let s = sign_length (is_minus x) in
    elim (Bool-cases (is_nan x)) [
      | inl n ↦ rw (n, print_2f, length-append) (omega (arith, s))
      | inr finite ↦ elim (Bool-cases (magnitude x == infinity)) [
        | inl i ↦ rw (finite, i, print_2f, length-append) (omega (arith, s))
        | inr other ↦
            let h : magnitude x < infinity = not_nan x finite other in
            let q : hundredths x / 100 < 10 * power10 308 = omega (arith, hundredths_lt x h) in
            let d = length-decimal 308 (hundredths x / 100) q in
            rw (finite, other, print_2f, length-append, length-append) (omega (arith, s, d))
      ]
    ]
