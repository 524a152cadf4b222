-- ===== src/Double/Nearest/Scale.antt =====
-- The nearest double depends on the value of a fraction only.
use native.Mathlib.Nat.{
  mul-div-mul_right, div-add-mod', mul-lt-mul_of_pos_right, mul-le-mul, le_refl,
}
use iot_services_monitoring.Common.{
  ℕ, zero, suc, ◌+◌, ◌-◌, ◌*◌, ◌/◌, ◌%◌, ◌^◌, ◌≤◌, ◌<◌, ◌≡◌, refl, sym, ap, ap₂, ◌∙◌, Bool-cases,
  inl, inr, arith, ltb, min,
}
use iot_services_monitoring.Double.{infinity, round_div}
use iot_services_monitoring.Double.Nearest.{fits, exponent_from, exponent_of, scaled, pack, nearest}

ltb_scale : (a b k : ℕ) → 0 < k → ltb (a * k) (b * k) ≡ ltb a b
ltb_scale a b k h = elim (Bool-cases (ltb a b)) [
  | inl t ↦
      let lt : a * k < b * k = mul-lt-mul_of_pos_right (ground (arith, t)) h in
      rw t (ground (arith, lt))
  | inr f ↦
      let ge : b * k ≤ a * k = mul-le-mul (ground (arith, f)) (le_refl k) in
      rw f (ground (arith, ge))
]

mod_scale : (n d k : ℕ) → 0 < k → n * k % (d * k) ≡ n % d * k
mod_scale n d k h =
    let q : n * k / (d * k) ≡ n / d = mul-div-mul_right n d h in
    let e : n * k / (d * k) * (d * k) + n * k % (d * k) ≡ n * k = div-add-mod' (n * k) (d * k) in
    let e' : n / d * (d * k) + n * k % (d * k) ≡ n * k = rw q at e in
    let parts : (n / d * d + n % d) * k ≡ n * k = ap (λ m. m * k) (div-add-mod' n d) in
    let apart : (n / d * d + n % d) * k ≡ n / d * (d * k) + n % d * k = grind arith in
    let same : n / d * (d * k) + n * k % (d * k) ≡ n / d * (d * k) + n % d * k =
      e' ∙ sym parts ∙ apart in
    omega (arith, same)

round_div_scale : (n d k : ℕ) → 0 < k → round_div (n * k) (d * k) ≡ round_div n d
unfolding round_div
round_div_scale n d k h =
    let r = mod_scale n d k h in
    let q : n * k / (d * k) ≡ n / d = mul-div-mul_right n d h in
    let twice : 2 * (n % d * k) ≡ 2 * (n % d) * k = grind arith in
    rw (round_div, r, q, twice, ltb_scale (2 * (n % d)) d k h, ltb_scale d (2 * (n % d)) k h) refl

fits_scale : (n d e k : ℕ) → 0 < k → fits (n * k) (d * k) e ≡ fits n d e
fits_scale n d e k h =
    let left : n * k * 2 ^ (1075 - e) ≡ n * 2 ^ (1075 - e) * k = grind arith in
    let right : 2 ^ 53 * (d * k * 2 ^ (e - 1075)) ≡ 2 ^ 53 * (d * 2 ^ (e - 1075)) * k =
      grind arith in
    ap₂ ltb left right ∙ ltb_scale (n * 2 ^ (1075 - e)) (2 ^ 53 * (d * 2 ^ (e - 1075))) k h

exponent_from_scale :
    (fuel n d e k : ℕ) → 0 < k → exponent_from fuel (n * k) (d * k) e ≡ exponent_from fuel n d e
unfolding exponent_from
exponent_from_scale zero n d e k h = refl
exponent_from_scale (suc fuel) n d e k h = elim (Bool-cases (fits n d e)) [
  | inl f ↦ rw (fits_scale n d e k h, f, exponent_from) refl
  | inr f ↦ rw (fits_scale n d e k h, f, exponent_from) (exponent_from_scale fuel n d (e + 1) k h)
]

scaled_scale : (n d e k : ℕ) → 0 < k → scaled (n * k) (d * k) e ≡ scaled n d e
scaled_scale n d e k h =
    let left : n * k * 2 ^ (1075 - e) ≡ n * 2 ^ (1075 - e) * k = grind arith in
    let right : d * k * 2 ^ (e - 1075) ≡ d * 2 ^ (e - 1075) * k = grind arith in
    ap₂ round_div left right ∙ round_div_scale (n * 2 ^ (1075 - e)) (d * 2 ^ (e - 1075)) k h

packed_scale :
    (n d k : ℕ)
    → 0 < k
    → pack (exponent_of (n * k) (d * k)) (scaled (n * k) (d * k) (exponent_of (n * k) (d * k)))
      ≡ pack (exponent_of n d) (scaled n d (exponent_of n d))
packed_scale n d k h =
    ap (λ e. pack e (scaled (n * k) (d * k) e)) (exponent_from_scale 2046 n d 1 k h)
    ∙ ap (pack (exponent_of n d)) (scaled_scale n d (exponent_of n d) k h)

pub nearest_scale : (n d k : ℕ) → 0 < k → nearest (n * k) (d * k) ≡ nearest n d
unfolding nearest
nearest_scale n d k h = ap (min infinity) (packed_scale n d k h)
