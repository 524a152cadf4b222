-- ===== src/Smp/Metrics.antt =====
-- METRIC on a connection that nobody disturbs: which check answers, and what is stored.
use iot_services_monitoring.Common.{
  ℕ, ◌≡◌, refl, ap, ◌∙◌, Bool, List, [], ◌∷◌, Option, none, some, take, inl, inr, Bool-cases,
  Option-cases, if◌then◌else◌,
}
use iot_services_monitoring.Text.{Text, codes}
use iot_services_monitoring.Double.{Double}
use iot_services_monitoring.Utils.{Strtod, parse_double, is_valid_timestamp}
use iot_services_monitoring.State.{
  Alert, AlertLevel, GlobalState, Sensor, SensorType, is_status_active, sensor_type_to_str,
  alert_alert, alert_normal, max_metrics, max_alerts,
}
use iot_services_monitoring.State.Ops.{find_entry, state_find_sensor, state_add_metric}
use iot_services_monitoring.State.Inv.{IsValid}
use iot_services_monitoring.State.Inv.Keeps.{state_add_metric-IsValid}
use iot_services_monitoring.State.Recent.{recent_metrics, recent_alerts}
use iot_services_monitoring.State.Recent.Tables.{
  recent-state_add_metric, stored_metric, stored_alert,
}
use iot_services_monitoring.State.Registry.{change, report, with_level, view, entry, found_sensor}
use iot_services_monitoring.State.Registry.Refine.{add_metric_refines}
use iot_services_monitoring.Calls.{ret, run}
use iot_services_monitoring.Calls.Always.{run->>=}
use iot_services_monitoring.Calls.Lifetime.{add_metric-code}
use iot_services_monitoring.Alerts.{alerts_evaluate}
use iot_services_monitoring.Alerts.Rules.{is_anomalous, crossed, warning, alerts_evaluate_rule}
use iot_services_monitoring.Smp.{handle_metric, checked_metric, store_metric}

-- What a METRIC comes to: a refusal, or the sensor and the value that are stored.
pub data Verdict : Type 0 where
  refused : Text → Verdict
  accepted : Sensor → Double → Verdict

-- The checks in order: the sensor is known, it is active, the value is a number, the timestamp has
-- its format.
abbrev pub verdict : Option Sensor → Option Double → Bool → Verdict
verdict none value timed = refused (codes "404 SENSOR_NOT_FOUND")
verdict (some s) value timed =
    if is_status_active s.status
    then elim value [
      | none ↦ refused (codes "422 INVALID_VALUE")
      | some x ↦ if timed then accepted s x else refused (codes "400 BAD_REQUEST")
    ]
    else refused (codes "403 SENSOR_NOT_REGISTERED")

abbrev pub level_of : SensorType → Double → AlertLevel
level_of type value = if is_anomalous type value then alert_alert else alert_normal

-- The alerts with the one that an anomalous value makes.
abbrev pub alerted : Text → SensorType → Double → Text → List Alert → List Alert
alerted id type value ts alerts =
    if is_anomalous type value
    then take max_alerts (
        stored_alert id value (crossed type value) ts (sensor_type_to_str type) (warning type value)
        ∷ alerts)
    else alerts

-- The state after it: nothing changes on a refusal. Else the sensor has the new value, timestamp and
-- level, the metric comes in front of the newest, and so does an alert if the value is anomalous.
abbrev pub Stored : GlobalState → Text → Text → Verdict → GlobalState × Text → Type 0
Stored g id ts (refused reply) (g', r) = (r ≡ reply) × (g' ≡ g)
Stored g id ts (accepted s value) (g', r) =
    (r ≡ codes "200 OK")
    × (view g'
        ≡ (change id (with_level (level_of s.type value))
            (change id (report value ts) (view g)).0).0)
    × (recent_metrics g'
        ≡ take max_metrics
            (stored_metric id value ts (sensor_type_to_str s.type) ∷ recent_metrics g))
    × (recent_alerts g' ≡ alerted id s.type value ts (recent_alerts g))

module _ (g : GlobalState) (id : Text) (ts : Text) (v : IsValid g) where
  store_metric-Stored :
      (value : Double) (idx : ℕ) (s : Sensor)
      → find_entry id g ≡ some (idx, s)
      → Stored g id ts (accepted s value) (run (store_metric id value s ts) g)
  unfolding run state_find_sensor
  store_metric-Stored value idx s e =
      let ty = sensor_type_to_str s.type in
      let code = add_metric-code id value ts ty g (rw e tt) in
      let g₁ = (state_add_metric id value ts ty g).0 in
      let (metrics, alerts) = recent-state_add_metric g id value ts ty v in
      let (r, table, alerts', metrics') =
        alerts_evaluate_rule g₁ id value s.type ts (state_add_metric-IsValid v id value ts ty) in
      let after = run->>= (alerts_evaluate id value s.type ts) (λ _. ret (codes "200 OK")) g₁ in
      rw (code, run, after)
        (
          refl,
          table
              ∙ ap (λ t. (change id (with_level (level_of s.type value)) t).0)
                  (ap (λ p. p.0) (add_metric_refines g id value ts ty)),
          metrics' ∙ (rw code at metrics),
          alerts' ∙ ap (alerted id s.type value ts) alerts,
        )

  checked_metric-Stored :
      (strtod : Text → Strtod) (value_str : Text)
      → Stored g id ts
          (verdict
            (entry g id)
            (parse_double strtod (some value_str))
            (is_valid_timestamp (some ts)))
          (run (checked_metric strtod id value_str ts (find_entry id g)) g)
  unfolding run
  checked_metric-Stored strtod value_str = elim (Option-cases (find_entry id g)) [
    | inl e ↦ rw (e, found_sensor) (refl, refl)
    | inr ((idx, s), e) ↦ elim (Bool-cases (is_status_active s.status)) [
      | inr f ↦ rw (e, f, found_sensor) (refl, refl)
      | inl a ↦ elim (Option-cases (parse_double strtod (some value_str))) [
        | inl p ↦ rw (e, a, p, found_sensor) (refl, refl)
        | inr (value, p) ↦ elim (Bool-cases (is_valid_timestamp (some ts))) [
          | inr t ↦ rw (e, a, p, t, found_sensor) (refl, refl)
          | inl t ↦ rw (e, a, p, t, found_sensor) (store_metric-Stored value idx s e)
        ]
      ]
    ]
  ]

  -- METRIC with its four tokens, on a valid state: the answer is the first check that fails, and then
  -- the state is as before; else it is "200 OK", and exactly the new value, level, metric and, for an
  -- anomalous value, alert are stored.
  pub handle_metric-Stored :
      (strtod : Text → Strtod) (command value_str : Text)
      → Stored g id ts
          (verdict
            (entry g id)
            (parse_double strtod (some value_str))
            (is_valid_timestamp (some ts)))
          (run (handle_metric strtod (command ∷ id ∷ value_str ∷ ts ∷ [])) g)
  unfolding handle_metric run state_find_sensor
  handle_metric-Stored strtod command value_str = checked_metric-Stored strtod value_str
