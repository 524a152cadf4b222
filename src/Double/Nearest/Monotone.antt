-- ===== src/Double/Nearest/Monotone.antt =====
-- Rounding to a double keeps the order of fractions with one denominator.
use native.Mathlib.Nat.{mul-le-mul, le_refl, two-pow-succ, one-le-pow, lt_of_mul-lt-mul_right}
use native.Mathlib.Decide.{dec_lt}
use iot_services_monitoring.Common.{
  ℕ, zero, suc, ◌+◌, ◌-◌, ◌*◌, ◌^◌, ◌≤◌, ◌<◌, ◌≡◌, inl, inr, false, Bool-cases, arith, min,
}
use iot_services_monitoring.Double.{infinity}
use iot_services_monitoring.Double.Nearest.{fits, exponent_from, exponent_of, scaled, pack, nearest}
use iot_services_monitoring.Double.Nearest.Bounds.{
  round_div-near, round_div_mono, exponent_from-first, exponent_of-first,
}

exponent_from_mono :
    (fuel d e : ℕ) {n n' : ℕ} → n ≤ n' → exponent_from fuel n d e ≤ exponent_from fuel n' d e
unfolding exponent_from
exponent_from_mono zero d e h = le_refl e
exponent_from_mono (suc fuel) d e {n} {n'} h =
    let less : n * 2 ^ (1075 - e) ≤ n' * 2 ^ (1075 - e) = mul-le-mul h (le_refl (2 ^ (1075 - e))) in
    let later = (exponent_from-first fuel n' d (e + 1)).0 in
    let ih = exponent_from_mono fuel d (e + 1) h in
    elim (Bool-cases (fits n d e)) [
      | inl f ↦ elim (Bool-cases (fits n' d e)) [
        | inl f' ↦ rw (f, f', exponent_from) (le_refl e)
        | inr f' ↦ rw (f, f', exponent_from) (omega (arith, later))
      ]
      | inr f ↦ let f' : fits n' d e ≡ false = ground (arith, less) in rw (f, f', exponent_from) ih
    ]

-- The two ways to write the unit of the exponent before.
unit_before :
    (n d e : ℕ)
    → 2 ≤ e
    → 2 ^ 53 * (d * 2 ^ (e - 1 - 1075)) ≤ n * 2 ^ (1075 - (e - 1))
    → 2 ^ 52 * (d * 2 ^ (e - 1075)) ≤ n * 2 ^ (1075 - e)
unit_before n d e low h = elim (dec_lt e 1076) [
  | yes small ↦
      let k : 1075 - (e - 1) ≡ suc (1075 - e) = omega arith in
      let u : e - 1 - 1075 ≡ 0 = omega arith in
      let u' : e - 1075 ≡ 0 = omega arith in
      let p : n * 2 ^ (1075 - (e - 1)) ≡ 2 * (n * 2 ^ (1075 - e)) =
        rw (k, two-pow-succ) (grind arith) in
      let q : d * 2 ^ (e - 1 - 1075) ≡ d = rw u (omega arith) in
      let q' : d * 2 ^ (e - 1075) ≡ d = rw u' (omega arith) in omega (arith, p, q, q', h)
  | no big ↦
      let k : 1075 - (e - 1) ≡ 0 = omega arith in
      let k' : 1075 - e ≡ 0 = omega arith in
      let u : e - 1075 ≡ suc (e - 1 - 1075) = omega arith in
      let p : n * 2 ^ (1075 - (e - 1)) ≡ n = rw k (omega arith) in
      let p' : n * 2 ^ (1075 - e) ≡ n = rw k' (omega arith) in
      let q : d * 2 ^ (e - 1075) ≡ 2 * (d * 2 ^ (e - 1 - 1075)) =
        rw (u, two-pow-succ) (grind arith) in
      omega (arith, p, p', q, h)
]

-- A mantissa is at most 2^53 where the exponent fits, and 2^52 at least above the first exponent.
scaled-le :
    (n d e : ℕ) → 0 < d → n * 2 ^ (1075 - e) < 2 ^ 53 * (d * 2 ^ (e - 1075)) → scaled n d e ≤ 2 ^ 53
scaled-le n d e pos h =
    let unit = d * 2 ^ (e - 1075) in
    let some_unit : 0 < unit = mul-le-mul pos (one-le-pow (e - 1075) 2 (omega arith)) in
    let (above, below) = round_div-near (n * 2 ^ (1075 - e)) unit some_unit in
    let lt : scaled n d e < 2 ^ 53 + 1 =
      lt_of_mul-lt-mul_right unit (grind (arith, above, h, some_unit)) in
    omega (arith, lt)

scaled-ge :
    (n d e : ℕ) → 0 < d → 2 ^ 52 * (d * 2 ^ (e - 1075)) ≤ n * 2 ^ (1075 - e) → 2 ^ 52 ≤ scaled n d e
scaled-ge n d e pos h =
    let unit = d * 2 ^ (e - 1075) in
    let some_unit : 0 < unit = mul-le-mul pos (one-le-pow (e - 1075) 2 (omega arith)) in
    let (above, below) = round_div-near (n * 2 ^ (1075 - e)) unit some_unit in
    let lt : 2 ^ 52 < scaled n d e + 1 =
      lt_of_mul-lt-mul_right unit (grind (arith, below, h, some_unit)) in
    omega (arith, lt)

pack_mono : (e e' m m' : ℕ) → 1 ≤ e → e < e' → m ≤ 2 ^ 53 → 2 ^ 52 ≤ m' → pack e m ≤ pack e' m'
pack_mono e e' m m' h lt k k' = omega arith

add_le : (a : ℕ) {b c : ℕ} → b ≤ c → a + b ≤ a + c
add_le a h = omega arith

min_mono : (a b c : ℕ) → b ≤ c → min a b ≤ min a c
min_mono a b c h = omega arith

packed_mono :
    (d : ℕ) {n n' : ℕ}
    → 0 < d
    → n ≤ n'
    → pack (exponent_of n d) (scaled n d (exponent_of n d))
      ≤ pack (exponent_of n' d) (scaled n' d (exponent_of n' d))
packed_mono d {n} {n'} pos h =
    let (low, high, last, before) = exponent_of-first n d in
    let (low', high', last', before') = exponent_of-first n' d in
    let order = exponent_from_mono 2046 d 1 h in
    let e = exponent_of n d in
    let e' = exponent_of n' d in
    elim (dec_lt e e') [
      | yes lt ↦
          pack_mono e e' (scaled n d e) (scaled n' d e') low lt
            (elim last [
              | inl q ↦ absurd (omega (arith, q, lt, high'))
              | inr f ↦ scaled-le n d e pos f
            ])
            (elim before' [
              | inl q ↦ absurd (omega (arith, q, lt, low))
              | inr f ↦ scaled-ge n' d e' pos (unit_before n' d e' (omega (arith, lt, low)) f)
            ])
      | no ge ↦
          let same : e ≡ e' = omega (arith, order, ge) in
          let unit : 0 < d * 2 ^ (e' - 1075) =
            mul-le-mul pos (one-le-pow (e' - 1075) 2 (omega arith)) in
          let less : n * 2 ^ (1075 - e') ≤ n' * 2 ^ (1075 - e') =
            mul-le-mul h (le_refl (2 ^ (1075 - e'))) in
          let m = round_div_mono (d * 2 ^ (e' - 1075)) unit less in
          rw same (add_le ((e' - 1) * 2 ^ 52) m)
    ]

-- Where n is at most n', the double nearest to n / d is not above the one nearest to n' / d.
pub nearest_mono : (d : ℕ) {n n' : ℕ} → 0 < d → n ≤ n' → nearest n d ≤ nearest n' d
unfolding nearest
nearest_mono d {n} {n'} pos h = min_mono infinity _ _ (packed_mono d pos h)
