-- ===== src/Double/Nearest/Hundredths.antt =====
-- A number of hundredths comes back from the nearest double when it is printed by `%.2f`.
use native.Mathlib.Decide.{dec_le, dec_lt}
use native.Mathlib.Nat.{le_refl, pow-le-pow_right, mul-le-mul, two-pow-succ}
use iot_services_monitoring.Common.{
  ℕ, zero, suc, ◌+◌, ◌-◌, ◌*◌, ◌^◌, ◌≤◌, ◌<◌, ◌≡◌, refl, ◌⊎◌, inl, inr, false, arith, leb, ltb, min,
}
use iot_services_monitoring.Double.{infinity, mantissa, exponent, round_div, hundredths}
use iot_services_monitoring.Double.Nearest.{exponent_of, scaled, pack, nearest, underflows}
use iot_services_monitoring.Double.Nearest.Bounds.{
  round_div-near, round_div_unique, exponent_of-first,
}

-- The mantissa and the exponent that were packed.
unpack :
    (e m : ℕ)
    → 1 ≤ e
    → e ≤ 2046
    → m < 2 ^ 53
    → (e ≡ 1) ⊎ (2 ^ 52 ≤ m)
    → (mantissa (pack e m) ≡ m) × (exponent (pack e m) ≡ e)
unpack e m low high small normal = ground arith

-- An exponent whose unit is below a hundredth of a hundredth.
fine_exponent : (n : ℕ) → n < 100 * 2 ^ 46 → exponent_of n 100 ≤ 1068
fine_exponent n h =
    let (low, high, last, before) = exponent_of-first n 100 in
    let e = exponent_of n 100 in
    elim (dec_le e 1068) [
      | yes le ↦ le
      | no gt ↦ elim before [
        | inl first ↦ omega (arith, first)
        | inr ge ↦
            let p : 2 ^ (1075 - (e - 1)) ≤ 2 ^ 7 =
              pow-le-pow_right (omega arith) {j = 7} (omega (arith, gt)) in
            let q : 2 ^ 0 ≤ 2 ^ (e - 1 - 1075) =
              pow-le-pow_right (omega arith) {i = 0} (omega arith) in
            let np : n * 2 ^ (1075 - (e - 1)) ≤ n * 2 ^ 7 = mul-le-mul (le_refl n) p in
            absurd (omega (arith, np, q, ge, h))
      ]
    ]

power_before : (n e : ℕ) → 1 ≤ e → e ≤ 1075 → n * 2 ^ (1075 - (e - 1)) ≡ 2 * (n * 2 ^ (1075 - e))
power_before n e low high =
    let k : 1075 - (e - 1) ≡ suc (1075 - e) = omega arith in rw (k, two-pow-succ) (grind arith)

-- The mantissa of n / 100 in the unit 2^(e - 1075).
scaled-bounds :
    (n : ℕ)
    → n < 100 * 2 ^ 46
    → let e = exponent_of n 100 in
      let m = scaled n 100 e in
      (200 * m ≤ 2 * (n * 2 ^ (1075 - e)) + 100)
      × (2 * (n * 2 ^ (1075 - e)) ≤ 200 * m + 100)
      × (m ≤ 2 ^ 53)
      × ((e ≡ 1) ⊎ (2 ^ 52 ≤ m))
scaled-bounds n h =
    let (low, high, last, before) = exponent_of-first n 100 in
    let e = exponent_of n 100 in
    let fine = fine_exponent n h in
    let unit : e - 1075 ≡ 0 = omega (arith, fine) in
    let one : 2 ^ (e - 1075) ≡ 1 = rw unit refl in
    let one' : 2 ^ (e - 1 - 1075) ≡ 1 =
      let u : e - 1 - 1075 ≡ 0 = omega (arith, fine) in rw u refl in
    let (above, below) = round_div-near (n * 2 ^ (1075 - e)) 100 (omega arith) in
    let twice = power_before n e low (omega (arith, fine)) in
    let top : n * 2 ^ (1075 - e) < 2 ^ 53 * 100 = elim last [
      | inl q ↦ absurd (omega (arith, q, fine))
      | inr lt ↦ omega (arith, lt, one)
    ] in
    let bottom : (e ≡ 1) ⊎ (2 ^ 52 ≤ round_div (n * 2 ^ (1075 - e)) 100) = elim before [
      | inl q ↦ inl q
      | inr ge ↦ inr (omega (arith, ge, one', twice, below))
    ] in
    rw unit (omega (arith, above), omega (arith, below), omega (arith, above, top), bottom)

-- The hundredths of a double with this mantissa and exponent.
hundredths-unpacked :
    (x e m n : ℕ)
    → e ≤ 1069
    → (mantissa x ≡ m) × (exponent x ≡ e)
    → 200 * m < 2 * (n * 2 ^ (1075 - e)) + 2 ^ (1075 - e)
    → 2 * (n * 2 ^ (1075 - e)) < 200 * m + 2 ^ (1075 - e)
    → hundredths x ≡ n
unfolding hundredths
hundredths-unpacked x e m n high (is_m, is_e) low up =
    let small : leb 1075 e ≡ false = ground arith in
    rw (hundredths, is_e, is_m, small)
      (round_div_unique (m * 100) (2 ^ (1075 - e)) n (omega arith) (omega arith))

power_after : (n e : ℕ) → e < 1075 → n * 2 ^ (1075 - e) ≡ 2 * (n * 2 ^ (1075 - (e + 1)))
power_after n e h =
    let k : 1075 - e ≡ suc (1075 - (e + 1)) = omega arith in rw (k, two-pow-succ) (grind arith)

pack-finite : (e m : ℕ) → e ≤ 1068 → m ≤ 2 ^ 53 → min infinity (pack e m) ≡ pack e m
pack-finite e m h k = omega arith

pack-lt : (e m : ℕ) → e ≤ 1068 → m ≤ 2 ^ 53 → pack e m < infinity
pack-lt e m h k = omega arith

ltb_ge : {a b : ℕ} → b ≤ a → ltb a b ≡ false
ltb_ge h = ground arith

nearest-pack :
    (n : ℕ)
    → n < 100 * 2 ^ 46
    → let e = exponent_of n 100 in nearest n 100 ≡ pack e (scaled n 100 e)
unfolding nearest
nearest-pack n h =
    pack-finite (exponent_of n 100) (scaled n 100 (exponent_of n 100)) (fine_exponent n h)
      (scaled-bounds n h).2

-- The double nearest to n hundredths, below 2^46, rounds to n hundredths.
pub hundredths-nearest : (n : ℕ) → n < 100 * 2 ^ 46 → hundredths (nearest n 100) ≡ n
hundredths-nearest n h =
    let e = exponent_of n 100 in
    let m = scaled n 100 e in
    let (above, below, top, bottom) = scaled-bounds n h in
    let low : 1 ≤ e = (exponent_of-first n 100).0 in
    let fine = fine_exponent n h in
    let wide : 2 ^ 7 ≤ 2 ^ (1075 - e) =
      pow-le-pow_right (omega arith) {i = 7} (omega (arith, fine)) in
    rw (nearest-pack n h) (elim (dec_lt m (2 ^ 53)) [
      | yes lt ↦
          hundredths-unpacked (pack e m) e m n (omega (arith, fine))
            (unpack e m low (omega (arith, fine)) lt bottom) (omega (arith, above, wide))
            (omega (arith, below, wide))
      | no ge ↦
          let full : m ≡ 2 ^ 53 = omega (arith, top, ge) in
          let next : pack e m ≡ pack (e + 1) (2 ^ 52) = omega (arith, full, low) in
          let half = power_after n e (omega (arith, fine)) in
          let half' = power_after 1 e (omega (arith, fine)) in
          rw next (
            hundredths-unpacked (pack (e + 1) (2 ^ 52)) (e + 1) (2 ^ 52) n (omega (arith, fine))
              (unpack (e + 1) (2 ^ 52) (omega arith) (omega (arith, fine)) (omega arith)
                (inr (omega arith)))
              (omega (arith, above, full, half, half', wide))
              (omega (arith, below, full, half, half', wide)))
    ])

-- Such a double is finite, and strtod reports neither overflow nor underflow.
pub nearest-finite : (n : ℕ) → n < 100 * 2 ^ 46 → nearest n 100 < infinity
nearest-finite n h =
    let (above, below, top, bottom) = scaled-bounds n h in
    let fine = fine_exponent n h in
    rw (nearest-pack n h) (pack-lt (exponent_of n 100) (scaled n 100 (exponent_of n 100)) fine top)

-- Fractions of a divisor up to 100 are far from the range of subnormal doubles.
pub underflows-small : (n d : ℕ) → 0 < d → d ≤ 100 → underflows n d ≡ false
unfolding round_div
underflows-small zero d positive small = ground arith
underflows-small (suc n) d positive small =
    let (above, below) = round_div-near (2 * (suc n * 2 ^ 1074)) d positive in
    let q = round_div (2 * (suc n * 2 ^ 1074)) d in
    let product : q * d ≤ q * 100 = mul-le-mul (le_refl q) small in
    let big : 2 ^ 53 ≤ q = omega (arith, below, product, small) in
    let over : ltb (round_div (2 * (suc n * 2 ^ 1074)) d) (2 ^ 53) ≡ false = ltb_ge big in
    rw over refl
