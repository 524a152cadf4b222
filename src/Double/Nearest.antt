-- ===== src/Double/Nearest.antt =====
-- The double nearest to a fraction, to the even one halfway: how strtod rounds. A double other than
-- a NaN is a mantissa m below 2^53 times 2^(e - 1075), and its bits are (e - 1) * 2^52 + m.
pub mod Bounds
pub mod Monotone
pub mod Hundredths
pub mod Scale
use iot_services_monitoring.Common.{
  ℕ, zero, suc, ◌+◌, ◌-◌, ◌*◌, ◌^◌, ◌%◌, ◌≡◌, refl, Bool, true, false, not, ◌&&◌, ltb, ◌==◌, min,
}
use iot_services_monitoring.Double.{Double, infinity, round_div}

-- n / d is below 2^53 * 2^(e - 1075).
abbrev pub fits : ℕ → ℕ → ℕ → Bool
fits n d e = ltb (n * 2 ^ (1075 - e)) (2 ^ 53 * (d * 2 ^ (e - 1075)))

-- The first exponent from `e` on that fits, `fuel` tests at most.
unfoldable pub exponent_from : ℕ → ℕ → ℕ → ℕ → ℕ
exponent_from zero n d e = e
exponent_from (suc fuel) n d e = elim (fits n d e) [
  | true ↦ e
  | false ↦ exponent_from fuel n d (e + 1)
]

-- 2047 where no exponent of a finite double fits.
abbrev pub exponent_of : ℕ → ℕ → ℕ
exponent_of n d = exponent_from 2046 n d 1

-- n / d in units of 2^(e - 1075).
abbrev pub scaled : ℕ → ℕ → ℕ → ℕ
scaled n d e = round_div (n * 2 ^ (1075 - e)) (d * 2 ^ (e - 1075))

abbrev pub pack : ℕ → ℕ → ℕ
pack e m = (e - 1) * 2 ^ 52 + m

-- The nearest double, `infinity` where it is past the finite ones.
unfoldable pub nearest : ℕ → ℕ → Double
unfolding exponent_from round_div
nearest n d = min infinity (pack (exponent_of n d) (scaled n d (exponent_of n d)))

-- The fraction is not a multiple of the smallest double, and is still below the smallest normal one
-- when it is rounded to 53 bits.
abbrev pub underflows : ℕ → ℕ → Bool
underflows n d = ltb (round_div (2 * (n * 2 ^ 1074)) d) (2 ^ 53) && not (n * 2 ^ 1074 % d == 0)

nearest_tests :
    (nearest 275 10 ≡ 0x403b800000000000)
    × (nearest 1 10 ≡ 0x3fb999999999999a)
    × (nearest 0 1 ≡ 0)
    × (nearest 9007199254740993 1 ≡ 0x4340000000000000)
    × (nearest (2 ^ 1024) 1 ≡ infinity)
    × (nearest 1 (2 ^ 1074) ≡ 1)
    × (nearest 1 (2 ^ 1075) ≡ 0)
unfolding nearest
nearest_tests = (refl, refl, refl, refl, refl, refl, refl)
