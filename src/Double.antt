-- ===== src/Double.antt =====
-- The C type `double` as its IEEE 754 binary64 bit pattern, with the two operations that the server
-- makes of it: the order (alerts.c) and printing by `%.2f` (alerts.c, sensor_handler.c,
-- http_server.c). Reading one is Utils/Numbers, which rounds
-- by Double/Nearest.
pub mod Order
pub mod Printed
pub mod Nearest
use iot_services_monitoring.Common.{
  ℕ, ◌+◌, ◌-◌, ◌*◌, ◌/◌, ◌%◌, ◌^◌, Bool, not, ◌&&◌, [], ◌∷◌, ◌++◌, ltb, leb, ◌==◌, if◌then◌else◌,
}
use iot_services_monitoring.Text.{Text, codes, decimal}

abbrev pub Double : Type 0
Double = ℕ

-- All bits but the sign.
abbrev pub magnitude : Double → ℕ
magnitude x = x % 2 ^ 63

abbrev pub is_minus : Double → Bool
is_minus x = x / 2 ^ 63 % 2 == 1

-- The pattern of infinity; the magnitudes above it are NaNs.
abbrev pub infinity : ℕ
infinity = 0x7ff0000000000000

unfoldable pub is_nan : Double → Bool
is_nan x = ltb infinity (magnitude x)

-- A number that grows with the value: the magnitude, mirrored below 2^63 for negative values. The
-- two zeros have one key.
unfoldable pub order_key : Double → ℕ
order_key x = if is_minus x then 2 ^ 63 - magnitude x else 2 ^ 63 + magnitude x

-- a < b; false where one is a NaN.
unfoldable pub double_lt : Double → Double → Bool
unfolding is_nan order_key
double_lt a b = (not (is_nan a) && not (is_nan b)) && ltb (order_key a) (order_key b)

-- The mantissa with its hidden bit, and the exponent, 1 for the subnormal numbers.
abbrev pub mantissa : Double → ℕ
mantissa x =
    let fraction = x % 2 ^ 52 in if magnitude x / 2 ^ 52 == 0 then fraction else fraction + 2 ^ 52

abbrev pub exponent : Double → ℕ
exponent x = let e = magnitude x / 2 ^ 52 in if e == 0 then 1 else e

-- n / d, rounded to the nearest, to the even one halfway.
unfoldable pub round_div : ℕ → ℕ → ℕ
round_div n d =
    let q = n / d in
    let r = n % d in if ltb (2 * r) d then q else if ltb d (2 * r) then q + 1 else q + q % 2

-- The value of a finite double in hundredths, rounded, without its sign. The value is the mantissa
-- times 2^(exponent - 1075).
unfoldable pub hundredths : Double → ℕ
unfolding round_div
hundredths x =
    if leb 1075 (exponent x)
    then mantissa x * 100 * 2 ^ (exponent x - 1075)
    else round_div (mantissa x * 100) (2 ^ (1075 - exponent x))

-- A sign, and a number of hundredths unless it is a NaN or infinite.
abbrev pub printed_parts : Bool → Bool → Bool → ℕ → Text
printed_parts minus nan infinite n =
    (if minus then b'-' ∷ [] else [])
    ++ (if nan
        then codes "nan"
        else if infinite
        then codes "inf"
        else decimal (n / 100) ++ b'.' ∷ (b'0' + n / 10 % 10) ∷ (b'0' + n % 10) ∷ [])

-- printf's %.2f
unfoldable pub print_2f : Double → Text
unfolding is_nan hundredths decimal
print_2f x = printed_parts (is_minus x) (is_nan x) (magnitude x == infinity) (hundredths x)
