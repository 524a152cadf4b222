-- ===== src/Alerts.antt =====
-- server/src/alerts.c: which values are anomalous, and what is recorded of them.
mod Tests
pub mod Rules
pub mod Values
use iot_services_monitoring.Common.{ℕ, List, [], ◌∷◌, ◌++◌, Option, none, some, take, if◌then◌else◌}
use iot_services_monitoring.Text.{Text, codes}
use iot_services_monitoring.Double.{Double, double_lt, print_2f}
use iot_services_monitoring.State.{
  SensorType, sensor_temp, sensor_vib, sensor_power, sensor_type_invalid, sensor_type_to_str,
  alert_normal, alert_alert,
}
use iot_services_monitoring.Calls.{Program, ret, request, add_alert, set_alert_level, ◌>>=◌, ◌>>◌}

-- The doubles 70, 50, 10 and 100.
abbrev pub temp_threshold_high : Double
temp_threshold_high = 0x4051800000000000

abbrev pub vib_threshold_high : Double
vib_threshold_high = 0x4049000000000000

abbrev pub power_threshold_low : Double
power_threshold_low = 0x4024000000000000

abbrev pub power_threshold_high : Double
power_threshold_high = 0x4059000000000000

-- snprintf(message, 256, "NAME anomaly: %.2f SIGN %.2f", value, threshold)
unfoldable pub anomaly_message : Text → Text → Double → Double → Text
anomaly_message name sign value threshold =
    take 255 (name ++ (codes " anomaly: " ++ (print_2f value ++ (sign ++ print_2f threshold))))

-- The switch of alerts_evaluate: the threshold and the message if `is_alert` is set.
unfoldable pub anomaly : SensorType → Double → Option (Double × Text)
anomaly sensor_temp value =
    if double_lt temp_threshold_high value
    then some (
      temp_threshold_high,
      anomaly_message (codes "TEMP") (codes " > ") value temp_threshold_high,
    )
    else none
anomaly sensor_vib value =
    if double_lt vib_threshold_high value
    then some
        (vib_threshold_high, anomaly_message (codes "VIB") (codes " > ") value vib_threshold_high)
    else none
anomaly sensor_power value =
    if double_lt value power_threshold_low
    then some (
      power_threshold_low,
      anomaly_message (codes "POWER") (codes " < ") value power_threshold_low,
    )
    else if double_lt power_threshold_high value
    then some (
      power_threshold_high,
      anomaly_message (codes "POWER") (codes " > ") value power_threshold_high,
    )
    else none
anomaly sensor_type_invalid value = none

unfoldable pub alerts_evaluate : Text → Double → SensorType → Text → Program ℕ
unfolding anomaly
alerts_evaluate sensor_id value type timestamp = elim (anomaly type value) [
  | some (threshold, message) ↦ do
    request (add_alert sensor_id value threshold timestamp (sensor_type_to_str type) message)
    request (set_alert_level sensor_id alert_alert)
    ret 1
  | none ↦ do request (set_alert_level sensor_id alert_normal); ret 0
]
