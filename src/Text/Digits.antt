-- ===== src/Text/Digits.antt =====
-- How long a number is in decimal digits.
use iot_services_monitoring.Common.{
  ℕ, zero, suc, ◌+◌, ◌*◌, ◌/◌, ◌%◌, ◌≤◌, ◌<◌, ◌≡◌, ◌∷◌, true, Bool-cases, inl, inr, arith, length,
  ltb,
}
use iot_services_monitoring.Text.{Text, digits_from, decimal}

abbrev pub power10 : ℕ → ℕ
power10 zero = 1
power10 (suc k) = 10 * power10 k

length-digits_from :
    (k fuel n : ℕ) (acc : Text)
    → n < 10 * power10 k
    → length (digits_from fuel n acc) ≤ k + 1 + length acc
unfolding digits_from
length-digits_from k zero n acc h = omega arith
length-digits_from zero (suc fuel) n acc h =
    let short : ltb n 10 ≡ true = ground arith in rw (short, digits_from) (omega arith)
length-digits_from (suc k) (suc fuel) n acc h =
    let ih = length-digits_from k fuel (n / 10) ((48 + n % 10) ∷ acc) (omega arith) in
    elim (Bool-cases (ltb n 10)) [
      | inl short ↦ rw (short, digits_from) (omega arith)
      | inr long ↦ rw (long, digits_from) (omega (arith, ih))
    ]

-- A number below 10^(k + 1) has at most k + 1 digits.
pub length-decimal : (k n : ℕ) → n < 10 * power10 k → length (decimal n) ≤ k + 1
unfolding decimal
length-decimal k n h = omega (arith, length-digits_from k (suc n) n _ h)
