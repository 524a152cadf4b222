-- ===== src/State/Recent/Tables.antt =====
-- The tables of metrics and alerts of state.c keep the newest records, newest first.
use iot_services_monitoring.Common.{
  ◌≡◌, refl, ◌∷◌, take, Option-cases, inl, inr, if◌then◌else◌, is_negative,
}
use iot_services_monitoring.Text.{Text}
use iot_services_monitoring.Double.{Double}
use iot_services_monitoring.State.{
  AlertLevel, Metric, Alert, GlobalState, max_metrics, max_alerts, zero_metric, zero_alert,
}
use iot_services_monitoring.State.Ops.{
  find_entry, state_add_metric, state_add_alert, state_set_alert_level,
}
use iot_services_monitoring.State.Inv.{IsValid}
use iot_services_monitoring.State.Recent.{recent_metrics, recent_alerts}
use iot_services_monitoring.State.Recent.Push.{newest-push}

-- The records as they are stored, their strings shortened to the arrays.
abbrev pub stored_metric : Text → Double → Text → Text → Metric
stored_metric id value ts ty = record {
  sensor_id = take 63 id;
  value = value;
  timestamp = take 31 ts;
  type_str = take 7 ty;
}

abbrev pub stored_alert : Text → Double → Double → Text → Text → Text → Alert
stored_alert id value threshold ts ty msg = record {
  sensor_id = take 63 id;
  value = value;
  threshold = threshold;
  timestamp = take 31 ts;
  type_str = take 7 ty;
  message = take 255 msg;
}

-- What a reader of the metrics sees after state_add_metric: for a known identifier the new metric in
-- front of the 511 newest before it, and for an unknown one what there was; alerts are untouched.
pub recent-state_add_metric :
    (g : GlobalState) (id : Text) (value : Double) (ts ty : Text)
    → IsValid g
    → let (g', code) = state_add_metric id value ts ty g in
      (recent_metrics g' ≡ (
        if is_negative code
        then recent_metrics g
        else take max_metrics (stored_metric id value ts ty ∷ recent_metrics g)))
      × (recent_alerts g' ≡ recent_alerts g)
unfolding state_add_metric
recent-state_add_metric g id value ts ty v = elim (Option-cases (find_entry id g)) [
  | inl e ↦ rw (e, state_add_metric) (refl, refl)
  | inr ((k, s), e) ↦
      rw (e, state_add_metric)
        (
          newest-push max_metrics zero_metric g.metrics (stored_metric id value ts ty) g.metric_next
              g.metric_count v.metrics_size v.metric_range.0 v.metric_range.1,
          refl,
        )
]

-- The same of state_add_alert, which accepts every identifier.
pub recent-state_add_alert :
    (g : GlobalState) (id : Text) (value threshold : Double) (ts ty msg : Text)
    → IsValid g
    → let g' = state_add_alert id value threshold ts ty msg g in
      (recent_alerts g'
        ≡ take max_alerts (stored_alert id value threshold ts ty msg ∷ recent_alerts g))
      × (recent_metrics g' ≡ recent_metrics g)
unfolding state_add_alert
recent-state_add_alert g id value threshold ts ty msg v = (
  newest-push max_alerts zero_alert g.alerts (stored_alert id value threshold ts ty msg)
      g.alert_next g.alert_count v.alerts_size v.alert_range.0 v.alert_range.1,
  refl,
)

-- Setting a level leaves both tables as they are.
pub recent-state_set_alert_level :
    (g : GlobalState) (id : Text) (level : AlertLevel)
    → let (g', code) = state_set_alert_level id level g in
      (recent_metrics g' ≡ recent_metrics g) × (recent_alerts g' ≡ recent_alerts g)
unfolding state_set_alert_level
recent-state_set_alert_level g id level = elim (Option-cases (find_entry id g)) [
  | inl e ↦ rw (e, state_set_alert_level) (refl, refl)
  | inr ((k, s), e) ↦ rw (e, state_set_alert_level) (refl, refl)
]
