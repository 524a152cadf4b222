-- ===== src/State/Inv/Keeps.antt =====
-- Every operation of state.c keeps the invariant of the shared state.
use iot_services_monitoring.Common.{
  ℕ, ◌+◌, ◌≡◌, refl, sym, true, some, arith, get_elem?, set, length-set, length-replicate,
  if◌then◌else◌, All-set, All-get_elem?, All-replicate, Option-cases, Bool-cases, inl, inr,
}
use iot_services_monitoring.Text.{Text}
use iot_services_monitoring.Double.{Double}
use iot_services_monitoring.State.{
  SensorType, is_invalid_type, is_status_active, AlertLevel, Sensor, GlobalState, state_init,
  zero_sensor, zero_metric, zero_alert, is_entry, is_free,
}
use iot_services_monitoring.State.Ops.{
  find_entry, find_slot, put_sensor, push_metric, new_sensor, state_register_sensor,
  state_add_metric, state_add_alert, state_deactivate_sensor, state_set_alert_level,
}
use iot_services_monitoring.State.Arrays.{find_from_sound}
use iot_services_monitoring.State.Inv.{
  SensorFits, MetricFits, AlertFits, IsValid, occupied-set, occupied-replicate, length-copy,
}

-- memset and the counters at zero.
pub state_init-IsValid : IsValid state_init
unfolding state_init
state_init-IsValid = record {
  sensors_size = length-replicate 64 zero_sensor;
  metrics_size = length-replicate 512 zero_metric;
  alerts_size = length-replicate 256 zero_alert;
  counted = sym (occupied-replicate 64);
  metric_range = omega arith;
  alert_range = omega arith;
  sensors_fit = All-replicate SensorFits 64 {x = zero_sensor} (omega arith);
  metrics_fit = All-replicate MetricFits 512 {x = zero_metric} (omega arith);
  alerts_fit = All-replicate AlertFits 256 {x = zero_alert} (omega arith);
}

module _ {g : GlobalState} (v : IsValid g) where
  pub push_metric-IsValid :
      (id : Text) (value : Double) (ts ty : Text) → IsValid (push_metric id value ts ty g)
  push_metric-IsValid id value ts ty = record {
    sensors_size = v.sensors_size;
    metrics_size = omega (arith, length-set g.metrics g.metric_next _, v.metrics_size);
    alerts_size = v.alerts_size;
    counted = v.counted;
    metric_range = ground (arith, v.metric_range);
    alert_range = v.alert_range;
    sensors_fit = v.sensors_fit;
    metrics_fit = All-set MetricFits g.metrics g.metric_next v.metrics_fit (
      length-copy 63 id (omega arith),
      length-copy 31 ts (omega arith),
      length-copy 7 ty (omega arith),
    );
    alerts_fit = v.alerts_fit;
  }

module _ {g : GlobalState} (v : IsValid g) where
  -- A write to a slot keeps the invariant if the count follows the slot's occupation.
  pub write_sensor-IsValid :
      (j : ℕ) (x y : Sensor) (n : ℕ)
      → get_elem? g.sensors j ≡ some x
      → SensorFits y
      → n + (if x.active then 1 else 0) ≡ g.sensor_count + (if y.active then 1 else 0)
      → IsValid (record g { sensors = set g.sensors j y; sensor_count = n })
  write_sensor-IsValid j x y n e fits count = record {
    sensors_size = omega (arith, length-set g.sensors j y, v.sensors_size);
    metrics_size = v.metrics_size;
    alerts_size = v.alerts_size;
    counted = omega (arith, occupied-set g.sensors j x y e, v.counted);
    metric_range = v.metric_range;
    alert_range = v.alert_range;
    sensors_fit = All-set SensorFits g.sensors j v.sensors_fit fits;
    metrics_fit = v.metrics_fit;
    alerts_fit = v.alerts_fit;
  }

  -- Of an entry that was found: its slot, and the bounds on its strings.
  pub found-facts :
      (id : Text) {k : ℕ} {s : Sensor}
      → find_entry id g ≡ some (k, s)
      → (get_elem? g.sensors k ≡ some s) × SensorFits s × (s.active ≡ true)
  found-facts id {k} {s} e =
      let (j, ek, lt, get, test) = find_from_sound (is_entry id) g.sensors 0 e in
      let same : k ≡ j = omega arith in
      (rw same get, All-get_elem? SensorFits g.sensors j v.sensors_fit get, ground arith)

  -- Updating the entry of an id in place, keeping it occupied.
  pub update_entry-IsValid :
      (id : Text) {k : ℕ} {s : Sensor} (s' : Sensor)
      → find_entry id g ≡ some (k, s)
      → SensorFits s'
      → s'.active ≡ s.active
      → IsValid (put_sensor g k s')
  update_entry-IsValid id {k} {s} s' e fits same =
      let (get, _, _) = found-facts id e in
      write_sensor-IsValid k s s' g.sensor_count get fits (rw same)

  pub state_add_alert-IsValid :
      (id : Text) (value threshold : Double) (ts ty msg : Text)
      → IsValid (state_add_alert id value threshold ts ty msg g)
  unfolding state_add_alert
  state_add_alert-IsValid id value threshold ts ty msg = record {
    sensors_size = v.sensors_size;
    metrics_size = v.metrics_size;
    alerts_size = omega (arith, length-set g.alerts g.alert_next _, v.alerts_size);
    counted = v.counted;
    metric_range = v.metric_range;
    alert_range = ground (arith, v.alert_range);
    sensors_fit = v.sensors_fit;
    metrics_fit = v.metrics_fit;
    alerts_fit = All-set AlertFits g.alerts g.alert_next v.alerts_fit (
      length-copy 63 id (omega arith),
      length-copy 31 ts (omega arith),
      length-copy 7 ty (omega arith),
      length-copy 255 msg (omega arith),
    );
  }

  pub state_deactivate_sensor-IsValid : (id : Text) → IsValid (state_deactivate_sensor id g).0
  unfolding state_deactivate_sensor
  state_deactivate_sensor-IsValid id = elim (Option-cases (find_entry id g)) [
    | inl e ↦ rw (e, state_deactivate_sensor) v
    | inr ((k, s), e) ↦
        rw (e, state_deactivate_sensor) (update_entry-IsValid id _ e (found-facts id e).1 refl)
  ]

  pub state_set_alert_level-IsValid :
      (id : Text) (level : AlertLevel) → IsValid (state_set_alert_level id level g).0
  unfolding state_set_alert_level
  state_set_alert_level-IsValid id level = elim (Option-cases (find_entry id g)) [
    | inl e ↦ rw (e, state_set_alert_level) v
    | inr ((k, s), e) ↦
        rw (e, state_set_alert_level) (update_entry-IsValid id _ e (found-facts id e).1 refl)
  ]

  pub state_add_metric-IsValid :
      (id : Text) (value : Double) (ts ty : Text) → IsValid (state_add_metric id value ts ty g).0
  unfolding state_add_metric
  state_add_metric-IsValid id value ts ty = elim (Option-cases (find_entry id g)) [
    | inl e ↦ rw (e, state_add_metric) v
    | inr ((k, s), e) ↦
        rw (e, state_add_metric)
          (push_metric-IsValid
            (update_entry-IsValid id _ e ((found-facts id e).1.0, length-copy 31 ts (omega arith))
              refl)
            id value ts ty)
  ]

  new_sensor-IsValid :
      (id : Text) (type : SensorType) {k : ℕ} {s : Sensor}
      → find_slot g ≡ some (k, s)
      → IsValid (record g {
        sensors = set g.sensors k (new_sensor id type);
        sensor_count = g.sensor_count + 1;
      })
  new_sensor-IsValid id type {k} {s} e =
      let (j, ek, lt, get, test) = find_from_sound is_free g.sensors 0 e in
      let same : k ≡ j = omega arith in
      write_sensor-IsValid k s (new_sensor id type) (g.sensor_count + 1) (rw same get)
        (length-copy 63 id (omega arith), omega arith) (ground arith)

  pub state_register_sensor-IsValid :
      (id : Text) (type : SensorType) → IsValid (state_register_sensor id type g).0
  unfolding state_register_sensor
  state_register_sensor-IsValid id type = elim (Bool-cases (is_invalid_type type)) [
    | inl t ↦ rw (t, state_register_sensor) v
    | inr f ↦ elim (Option-cases (find_entry id g)) [
      | inl e ↦ elim (Option-cases (find_slot g)) [
        | inl full ↦ rw (f, e, full, state_register_sensor) v
        | inr ((k, s), free) ↦
            rw (f, e, free, state_register_sensor) (new_sensor-IsValid id type free)
      ]
      | inr ((k, s), e) ↦ elim (Bool-cases (is_status_active s.status)) [
        | inl a ↦ rw (f, e, a, state_register_sensor) v
        | inr a ↦
            rw (f, e, a, state_register_sensor)
              (update_entry-IsValid id _ e (found-facts id e).1 refl)
      ]
    ]
  ]
