-- ===== src/Alerts/Rules.antt =====
-- The anomaly rules of protocolo/SMP_1_0.md and server/include/alerts.h, and what alerts_evaluate
-- makes of them.
use iot_services_monitoring.Common.{
  ◌≡◌, refl, ap, ◌∙◌, ◌++◌, ◌⊎◌, Bool, true, false, ◌||◌, ◌∷◌, none, some, take, Bool-cases, inl,
  inr, if◌then◌else◌,
}
use iot_services_monitoring.Text.{Text, codes}
use iot_services_monitoring.Double.{Double, double_lt, print_2f}
use iot_services_monitoring.State.{
  SensorType, sensor_temp, sensor_vib, sensor_power, sensor_type_invalid, sensor_type_to_str,
  alert_normal, alert_alert, GlobalState, max_alerts,
}
use iot_services_monitoring.State.Ops.{state_add_alert}
use iot_services_monitoring.State.Inv.{IsValid}
use iot_services_monitoring.State.Recent.{recent_alerts, recent_metrics}
use iot_services_monitoring.State.Recent.Tables.{
  recent-state_add_alert, recent-state_set_alert_level, stored_alert,
}
use iot_services_monitoring.State.Registry.{view, change, with_level}
use iot_services_monitoring.State.Registry.Refine.{set_alert_level_refines}
use iot_services_monitoring.Calls.{run}
use iot_services_monitoring.Alerts.{anomaly, anomaly_message, alerts_evaluate}

abbrev pub seventy : Double
seventy = 0x4051800000000000

abbrev pub fifty : Double
fifty = 0x4049000000000000

abbrev pub ten : Double
ten = 0x4024000000000000

abbrev pub hundred : Double
hundred = 0x4059000000000000

-- TEMP: value > 70. VIB: value > 50. POWER: value < 10 or value > 100.
abbrev pub is_anomalous : SensorType → Double → Bool
is_anomalous sensor_temp value = double_lt seventy value
is_anomalous sensor_vib value = double_lt fifty value
is_anomalous sensor_power value = double_lt value ten || double_lt hundred value
is_anomalous sensor_type_invalid value = false

-- The limit that an anomalous value passes.
abbrev pub crossed : SensorType → Double → Double
crossed sensor_temp value = seventy
crossed sensor_vib value = fifty
crossed sensor_power value = if double_lt value ten then ten else hundred
crossed sensor_type_invalid value = 0

abbrev sign : SensorType → Double → Text
sign sensor_power value = if double_lt value ten then codes " < " else codes " > "
sign _ value = codes " > "

-- The text of an alert: the type, the value, the side and the limit.
abbrev pub warning : SensorType → Double → Text
warning type value = take 255 (
    sensor_type_to_str type
    ++ (codes " anomaly: "
        ++ (print_2f value ++ (sign type value ++ print_2f (crossed type value)))))

anomaly_rule :
    (type : SensorType) (value : Double)
    → ((is_anomalous type value ≡ false) × (anomaly type value ≡ none))
      ⊎ ((is_anomalous type value ≡ true)
          × (anomaly type value ≡ some (crossed type value, warning type value)))
unfolding anomaly anomaly_message
anomaly_rule sensor_temp value = elim (Bool-cases (double_lt seventy value)) [
  | inl t ↦ inr (t, rw t)
  | inr f ↦ inl (f, rw f)
]
anomaly_rule sensor_vib value = elim (Bool-cases (double_lt fifty value)) [
  | inl t ↦ inr (t, rw t)
  | inr f ↦ inl (f, rw f)
]
anomaly_rule sensor_power value = elim (Bool-cases (double_lt value ten)) [
  | inl t ↦ inr (rw t, rw t)
  | inr f ↦ elim (Bool-cases (double_lt hundred value)) [
    | inl t ↦ inr (rw (f, t), rw (f, t))
    | inr f' ↦ inl (rw (f, f'), rw (f, f'))
  ]
]
anomaly_rule sensor_type_invalid value = inl (refl, refl)

-- alerts_evaluate, run alone on a valid state, returns 1 exactly for an anomalous value. It then
-- records one alert with the limit passed, in front of the newest, and otherwise none; it sets the
-- level of the sensor to ALERT or to NORMAL accordingly, and changes no other sensor and no metric.
pub alerts_evaluate_rule :
    (g : GlobalState) (id : Text) (value : Double) (type : SensorType) (ts : Text)
    → IsValid g
    → let (g', r) = run (alerts_evaluate id value type ts) g in
      (r ≡ (if is_anomalous type value then 1 else 0))
      × (view g'
          ≡ (change id
              (with_level (if is_anomalous type value then alert_alert else alert_normal))
              (view g)).0)
      × (recent_alerts g' ≡ (
          if is_anomalous type value
          then take max_alerts (
              stored_alert id value
                (crossed type value)
                ts
                (sensor_type_to_str type)
                (warning type value)
              ∷ recent_alerts g)
          else recent_alerts g))
      × (recent_metrics g' ≡ recent_metrics g)
unfolding alerts_evaluate run state_add_alert
alerts_evaluate_rule g id value type ts v = elim (anomaly_rule type value) [
  | inl (f, e) ↦
      let (metrics, alerts) = recent-state_set_alert_level g id alert_normal in
      rw (f, e, alerts_evaluate)
        (refl, ap (λ t. t.0) (set_alert_level_refines g id alert_normal), alerts, metrics)
  | inr (t, e) ↦
      let thr = crossed type value in
      let ty = sensor_type_to_str type in
      let msg = warning type value in
      let g₁ = state_add_alert id value thr ts ty msg g in
      let (alerts, metrics) = recent-state_add_alert g id value thr ts ty msg v in
      let (metrics', alerts') = recent-state_set_alert_level g₁ id alert_alert in
      rw (t, e, alerts_evaluate)
        (
          refl,
          ap (λ t. t.0) (set_alert_level_refines g₁ id alert_alert),
          alerts' ∙ alerts,
          metrics' ∙ metrics,
        )
]
