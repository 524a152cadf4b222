-- ===== src/Alerts/Tests.antt =====
-- Alerts of a registered sensor, and witnesses.
use iot_services_monitoring.Common.{ℕ, ◌≡◌, refl, ◌∷◌, take}
use iot_services_monitoring.Text.{codes}
use iot_services_monitoring.State.{state_init, sensor_power, max_alerts, alert_alert}
use iot_services_monitoring.State.Inv.Keeps.{state_init-IsValid}
use iot_services_monitoring.State.Registry.{view, change, with_level}
use iot_services_monitoring.State.Recent.{recent_alerts, recent_metrics}
use iot_services_monitoring.State.Recent.Tables.{stored_alert}
use iot_services_monitoring.Calls.{run}
use iot_services_monitoring.Double.{double_lt, print_2f}
use iot_services_monitoring.Alerts.{alerts_evaluate}
use iot_services_monitoring.Alerts.Rules.{warning, alerts_evaluate_rule}

-- The value 5 of a POWER sensor.
abbrev low : ℕ
low = 0x4014000000000000

warning_test : warning sensor_power low ≡ codes "POWER anomaly: 5.00 < 10.00"
unfolding double_lt print_2f
warning_test = refl

alerts_evaluate_rule_example :
    let (g', r) = run (alerts_evaluate (codes "p1") low sensor_power (codes "t")) state_init in
    (r ≡ 1)
    × (view g' ≡ (change (codes "p1") (with_level alert_alert) (view state_init)).0)
    × (recent_alerts g'
        ≡ take max_alerts (
            stored_alert
              (codes "p1")
              low
              0x4024000000000000
              (codes "t")
              (codes "POWER")
              (warning sensor_power low)
            ∷ recent_alerts state_init))
    × (recent_metrics g' ≡ recent_metrics state_init)
unfolding double_lt
alerts_evaluate_rule_example =
    alerts_evaluate_rule state_init (codes "p1") low sensor_power (codes "t") state_init-IsValid
