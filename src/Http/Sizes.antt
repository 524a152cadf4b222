-- ===== src/Http/Sizes.antt =====
-- The sizes of the texts of the pages.
use iot_services_monitoring.Common.{
  ℕ, ◌+◌, ◌≤◌, ◌<◌, ◌≡◌, refl, List, [], ◌∷◌, arith, length, length-append,
}
use iot_services_monitoring.Text.{Text}
use iot_services_monitoring.Text.Digits.{length-decimal}
use iot_services_monitoring.Double.{print_2f}
use iot_services_monitoring.Double.Printed.{length-print_2f}
use iot_services_monitoring.State.{
  Metric, Alert, Sensor, SensorType, sensor_temp, sensor_vib, sensor_power, sensor_type_invalid,
  SensorStatus, status_active, status_inactive, AlertLevel, alert_normal, alert_alert,
  sensor_type_to_str,
}
use iot_services_monitoring.State.Inv.{SensorFits, MetricFits, AlertFits}
use iot_services_monitoring.Config.{concat}
use iot_services_monitoring.Http.Style.{css_style, build_nav}
use iot_services_monitoring.Http.Tables.{metrics_header, alerts_header, metric_row, alert_row}
use iot_services_monitoring.Http.Sensors.{sensor_row, status_badge, alert_badge}

abbrev pub total : List Text → ℕ
total [] = 0
total (s ∷ ss) = length s + total ss

pub length-concat : (ss : List Text) → length (concat ss) ≡ total ss
unfolding concat
length-concat [] = refl
length-concat (s ∷ ss) = omega (arith, length-append s (concat ss), length-concat ss)

length-css_style : length css_style ≡ 6221
unfolding css_style
length-css_style = refl

length-build_nav : length build_nav ≡ 234
unfolding build_nav
length-build_nav = refl

type_length : (t : SensorType) → length (sensor_type_to_str t) ≤ 7
type_length sensor_temp = omega arith
type_length sensor_vib = omega arith
type_length sensor_power = omega arith
type_length sensor_type_invalid = omega arith

length-status_badge : (t : SensorStatus) → length (status_badge t) ≤ 50
length-status_badge status_active = omega arith
length-status_badge status_inactive = omega arith

length-alert_badge : (t : AlertLevel) → length (alert_badge t) ≤ 49
length-alert_badge alert_normal = omega arith
length-alert_badge alert_alert = omega arith

pub length-metric_row : (m : Metric) → MetricFits m → length (metric_row m) ≤ 459
unfolding metric_row
length-metric_row m h = let p = length-print_2f m.value in rw (length-concat) (omega (arith, h))

pub length-alert_row :
    (a : Alert)
    → AlertFits a
    → length (alert_row a) ≤ 419 + length (print_2f a.value) + length (print_2f a.threshold)
unfolding alert_row
length-alert_row a h = rw (length-concat) (omega (arith, h))

pub length-sensor_row : (s : Sensor) → SensorFits s → length (sensor_row s) ≤ 600
unfolding sensor_row
length-sensor_row s h =
    let p = length-print_2f s.last_value in
    let t = type_length s.type in
    let b = length-status_badge s.status in
    let l = length-alert_badge s.alert_level in rw (length-concat) (omega (arith, h))

pub length-metrics_header : (count : ℕ) → count < 1000 → length (metrics_header count) ≤ 8000
unfolding metrics_header
length-metrics_header count h =
    let d = length-decimal 2 count (omega arith) in
    rw (length-concat) (omega (arith, length-css_style, length-build_nav))

pub length-alerts_header : (count : ℕ) → count < 1000 → length (alerts_header count) ≤ 8000
unfolding alerts_header
length-alerts_header count h =
    let d = length-decimal 2 count (omega arith) in
    rw (length-concat) (omega (arith, length-css_style, length-build_nav))
