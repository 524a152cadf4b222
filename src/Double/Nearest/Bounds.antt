-- ===== src/Double/Nearest/Bounds.antt =====
-- What the first exponent that fits says of a fraction, and division with rounding.
use native.Mathlib.Nat.{div-add-mod', mod-lt, lt_of_mul-lt-mul_right}
use native.Mathlib.Decide.{dec_lt}
use iot_services_monitoring.Common.{
  ℕ, zero, suc, ◌+◌, ◌-◌, ◌*◌, ◌/◌, ◌%◌, ◌^◌, ◌≤◌, ◌<◌, ◌≡◌, refl, ◌⊎◌, inl, inr, ap, true, false,
  Bool-cases, arith,
}
use iot_services_monitoring.Double.{round_div}
use iot_services_monitoring.Double.Nearest.{fits, exponent_from, exponent_of}

-- The quotient or the next one, according to the remainder.
round_div-cases :
    (n d : ℕ)
    → 0 < d
    → ((round_div n d ≡ n / d) × (2 * (n % d) ≤ d))
      ⊎ ((round_div n d ≡ n / d + 1) × (d ≤ 2 * (n % d)))
unfolding round_div
round_div-cases n d h = ground arith

-- Rounding moves a quotient by half at most.
pub round_div-near :
    (n d : ℕ)
    → 0 < d
    → (2 * (round_div n d * d) ≤ 2 * n + d) × (2 * n ≤ 2 * (round_div n d * d) + d)
round_div-near n d h =
    let e = div-add-mod' n d in
    let r = mod-lt n h in
    elim (round_div-cases n d h) [
      | inl (q, low) ↦ rw q (omega (arith, e, r, low), omega (arith, e, r, low))
      | inr (q, high) ↦ rw q (grind (arith, e, r, high), grind (arith, e, r, high))
    ]

-- The nearest whole number is the only one less than half away.
pub round_div_unique :
    (n d q : ℕ) → 2 * n < 2 * (q * d) + d → 2 * (q * d) < 2 * n + d → round_div n d ≡ q
round_div_unique n zero q low high = absurd (omega (arith, low))
round_div_unique n (suc k) q low high =
    let d = suc k in
    let (above, below) = round_div-near n d (omega arith) in
    let up : round_div n d < q + 1 = lt_of_mul-lt-mul_right d (grind (arith, above, low)) in
    let down : q < round_div n d + 1 = lt_of_mul-lt-mul_right d (grind (arith, below, high)) in
    omega (arith, up, down)

pub round_div_mono : {n n' : ℕ} (d : ℕ) → 0 < d → n ≤ n' → round_div n d ≤ round_div n' d
unfolding round_div
round_div_mono {n} {n'} d h le = elim (dec_lt (n / d) (n' / d)) [
  | yes lt ↦ ground (arith, lt)
  | no ge ↦
      let e = div-add-mod' n d in
      let e' = div-add-mod' n' d in
      let not_above : n / d < n' / d + 1 =
        lt_of_mul-lt-mul_right d (grind (arith, e, e', mod-lt n' h, le)) in
      let same : n / d ≡ n' / d = omega (arith, not_above, ge) in
      let rest : n % d ≤ n' % d = grind (arith, e, e', ap (λ q. q * d) same, le) in
      rw same (ground (arith, rest))
]

-- The exponent that is chosen fits unless it is the last, and the one before it does not.
pub exponent_from-first :
    (fuel n d e : ℕ)
    → let k = exponent_from fuel n d e in
      (e ≤ k)
      × (k ≤ e + fuel)
      × ((k ≡ e + fuel) ⊎ (fits n d k ≡ true))
      × ((k ≡ e) ⊎ (fits n d (k - 1) ≡ false))
unfolding exponent_from
exponent_from-first zero n d e = (omega arith, omega arith, inl (omega arith), inl refl)
exponent_from-first (suc fuel) n d e = elim (Bool-cases (fits n d e)) [
  | inl f ↦ rw (f, exponent_from) (omega arith, omega arith, inr f, inl refl)
  | inr f ↦
      let (low, high, last, before) = exponent_from-first fuel n d (e + 1) in
      rw (f, exponent_from)
        (
          omega (arith, low),
          omega (arith, high),
          elim last [ inl q ↦ inl (omega (arith, q)) | inr q ↦ inr q ],
          elim before [
            | inl q ↦ inr (let m : e + 1 - 1 ≡ e = omega arith in rw (q, m) f)
            | inr q ↦ inr q
          ],
        )
]

-- The same in numbers.
pub exponent_of-first :
    (n d : ℕ)
    → let e = exponent_of n d in
      (1 ≤ e)
      × (e ≤ 2047)
      × ((e ≡ 2047) ⊎ (n * 2 ^ (1075 - e) < 2 ^ 53 * (d * 2 ^ (e - 1075))))
      × ((e ≡ 1) ⊎ (2 ^ 53 * (d * 2 ^ (e - 1 - 1075)) ≤ n * 2 ^ (1075 - (e - 1))))
exponent_of-first n d =
    let (low, high, last, before) = exponent_from-first 2046 n d 1 in
    (
      low,
      omega (arith, high),
      elim last [ inl q ↦ inl q | inr f ↦ inr (ground (arith, f)) ],
      elim before [ inl q ↦ inl q | inr f ↦ inr (ground (arith, f)) ],
    )
