-- ===== src/Double/Order.antt =====
-- The order of doubles, and examples of `%.2f`.
use iot_services_monitoring.Common.{◌≡◌, refl, true, false, ◌&&◌, arith}
use iot_services_monitoring.Text.{codes}
use iot_services_monitoring.Double.{Double, double_lt, print_2f}

-- 27.5, 70, 70 + one unit in the last place, -0 and 0, and a NaN.
print_tests :
    (print_2f 0x403b800000000000 ≡ codes "27.50")
    × (print_2f 0xc059000000000000 ≡ codes "-100.00")
    × (print_2f 0x3f847ae147ae147b ≡ codes "0.01")
    × (print_2f 0x3fc0000000000000 ≡ codes "0.12")
    × (print_2f 0x4340000000000001 ≡ codes "9007199254740994.00")
    × (print_2f 0xfff0000000000000 ≡ codes "-inf")
    × (print_2f 0x7ff8000000000000 ≡ codes "nan")
unfolding print_2f
print_tests = (refl, refl, refl, refl, refl, refl, refl)

order_tests :
    (double_lt 0x4051800000000000 0x4051800000000001 ≡ true)
    × (double_lt 0x8000000000000000 0 ≡ false)
    × (double_lt 0xc059000000000000 0 ≡ true)
    × (double_lt 0 0x7ff8000000000000 ≡ false)
unfolding double_lt
order_tests = (refl, refl, refl, refl)

-- No value is below itself, and no two are below one another.
pub double_lt_asym : (a b : Double) → (double_lt a b && double_lt b a) ≡ false
unfolding double_lt
double_lt_asym a b = ground arith
