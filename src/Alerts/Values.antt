-- ===== src/Alerts/Values.antt =====
-- The anomaly rules on the texts that sensors send: values with two digits behind the point.
use iot_services_monitoring.Common.{
  ℕ, ◌<◌, ◌≡◌, refl, sym, ap, ap₂, ◌∙◌, Bool, true, false, not, ◌&&◌, ◌||◌, ltb, arith,
}
use iot_services_monitoring.Double.{Double, double_lt}
use iot_services_monitoring.Double.Nearest.{nearest}
use iot_services_monitoring.Utils.Hundredths.{value_of}
use iot_services_monitoring.Utils.Compare.{range, signed_lt, double_lt-value_of}
use iot_services_monitoring.State.{
  SensorType, sensor_temp, sensor_vib, sensor_power, sensor_type_invalid,
}
use iot_services_monitoring.Alerts.Rules.{is_anomalous, seventy, fifty, ten, hundred}

-- The same rules on hundredths: TEMP above 70.00, VIB above 50.00, POWER below 10.00 or above 100.00.
abbrev pub is_outside : SensorType → Bool → ℕ → Bool
is_outside sensor_temp minus n = not minus && ltb 7000 n
is_outside sensor_vib minus n = not minus && ltb 5000 n
is_outside sensor_power minus n = minus || ltb n 1000 || ltb 10000 n
is_outside sensor_type_invalid minus n = false

limits :
    (value_of false 7000 ≡ seventy)
    × (value_of false 5000 ≡ fifty)
    × (value_of false 1000 ≡ ten)
    × (value_of false 10000 ≡ hundred)
unfolding nearest
limits = (refl, refl, refl, refl)

over :
    (limit : Double) (k : ℕ) (minus : Bool) (n : ℕ)
    → value_of false k ≡ limit
    → k < range
    → n < range
    → double_lt limit (value_of minus n) ≡ signed_lt false k minus n
over limit k minus n e h h' =
    ap (λ l. double_lt l (value_of minus n)) (sym e) ∙ double_lt-value_of false k minus n h h'

under :
    (limit : Double) (k : ℕ) (minus : Bool) (n : ℕ)
    → value_of false k ≡ limit
    → k < range
    → n < range
    → double_lt (value_of minus n) limit ≡ signed_lt minus n false k
under limit k minus n e h h' =
    ap (double_lt (value_of minus n)) (sym e) ∙ double_lt-value_of minus n false k h' h

spelled : (minus : Bool) (k n : ℕ) → signed_lt false k minus n ≡ (not minus && ltb k n)
spelled true k n = refl
spelled false k n = refl

power_rule :
    (minus : Bool) (n : ℕ)
    → (signed_lt minus n false 1000 || signed_lt false 10000 minus n)
      ≡ (minus || ltb n 1000 || ltb 10000 n)
power_rule true n = ground arith
power_rule false n = refl

-- A value of less than 2^46 units, read from its text, is anomalous exactly if the number that the
-- text writes is outside the limits of its type.
pub is_anomalous-value_of :
    (type : SensorType) (minus : Bool) (n : ℕ)
    → n < range
    → is_anomalous type (value_of minus n) ≡ is_outside type minus n
is_anomalous-value_of sensor_temp minus n h =
    over seventy 7000 minus n limits.0 (omega arith) h ∙ spelled minus 7000 n
is_anomalous-value_of sensor_vib minus n h =
    over fifty 5000 minus n limits.1 (omega arith) h ∙ spelled minus 5000 n
is_anomalous-value_of sensor_power minus n h =
    ap₂ (λ p q. p || q) (under ten 1000 minus n limits.2 (omega arith) h)
      (over hundred 10000 minus n limits.3 (omega arith) h)
    ∙ power_rule minus n
is_anomalous-value_of sensor_type_invalid minus n h = refl
