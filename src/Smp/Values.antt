-- ===== src/Smp/Values.antt =====
-- METRIC and STATUS on values that are texts with two digits behind the point at most.
use iot_services_monitoring.Common.{◌≡◌, ap₂, ◌∙◌, true, [], ◌∷◌, some, if◌then◌else◌}
use iot_services_monitoring.Text.{Text, codes}
use iot_services_monitoring.Utils.{is_valid_timestamp}
use iot_services_monitoring.Utils.Numbers.{strtod}
use iot_services_monitoring.Utils.Hundredths.{value_of, print_2f-text}
use iot_services_monitoring.Utils.Numerals.{
  Numeral, IsShort, written, worth, two_places, parse_double-numeral,
}
use iot_services_monitoring.State.{
  GlobalState, Sensor, AlertLevel, alert_alert, alert_normal, is_status_active, copy_text,
  sensor_type_to_str, sensor_status_to_str, alert_level_to_str, max_timestamp_len,
}
use iot_services_monitoring.State.Inv.{IsValid}
use iot_services_monitoring.State.Registry.{entry}
use iot_services_monitoring.Calls.{run}
use iot_services_monitoring.Config.{concat}
use iot_services_monitoring.Alerts.Values.{is_outside, is_anomalous-value_of}
use iot_services_monitoring.Smp.{handle_metric, handle_status, printed}
use iot_services_monitoring.Smp.Status.{status_after_metric}

-- The line of STATUS with this value, timestamp and level.
abbrev pub shown : Sensor → Text → Text → AlertLevel → Text
shown s value ts level = concat (
    codes "200 STATUS "
    ∷ s.id
    ∷ codes " "
    ∷ sensor_status_to_str s.status
    ∷ codes " "
    ∷ sensor_type_to_str s.type
    ∷ codes " "
    ∷ value
    ∷ codes " "
    ∷ ts
    ∷ codes " "
    ∷ alert_level_to_str level
    ∷ [])

-- A METRIC of an active sensor, on a valid state and with a valid timestamp, whose value is a text of
-- less than 2^46 units with two digits behind the point at most, is answered by 200 OK; a STATUS that
-- comes next shows the value that was sent, with two digits behind the point, and ALERT exactly if the
-- number that the text writes is outside the limits of the sensor's type.
pub status_shows_text :
    (g : GlobalState) (metric_command command id ts : Text) (s : Sensor) (x : Numeral)
    → IsValid g
    → entry g id ≡ some s
    → is_status_active s.status ≡ true
    → is_valid_timestamp (some ts) ≡ true
    → IsShort x
    → let (g', reply) = run (handle_metric strtod (metric_command ∷ id ∷ written x ∷ ts ∷ [])) g in
      let level = if is_outside s.type x.minus (worth x) then alert_alert else alert_normal in
      (reply ≡ codes "200 OK")
      × (run (handle_status (command ∷ id ∷ [])) g'
          ≡ (g', printed (shown s (two_places x) (copy_text ts max_timestamp_len) level)))
status_shows_text g metric_command command id ts s x v e a t short =
    let n = worth x in
    let g' = (run (handle_metric strtod (metric_command ∷ id ∷ written x ∷ ts ∷ [])) g).0 in
    let (reply, status) =
      status_after_metric strtod g metric_command command id (written x) ts s (value_of x.minus n) v
        e a (parse_double-numeral x short) t in
    (
      reply,
      status
          ∙ ap₂
              (λ value outside. (
                g',
                printed (
                    shown s value (copy_text ts max_timestamp_len)
                      (if outside then alert_alert else alert_normal)),
              ))
              (print_2f-text x.minus n short.small)
              (is_anomalous-value_of s.type x.minus n short.small),
    )
