-- ===== src/State/Ops.antt =====
-- The operations of server/src/state.c, each one atomic step on the state, and the data type of the
-- calls that the handlers can make.
use iot_services_monitoring.Common.{
  ℕ, ◌+◌, ◌%◌, Bool, true, ◌&&◌, List, [], ◌∷◌, Option, none, some, set, ltb, ℤ, pos, negsuc,
  if◌then◌else◌,
}
use iot_services_monitoring.Text.{Text, codes, text_eq}
use iot_services_monitoring.Double.{Double}
use iot_services_monitoring.State.{
  SensorType, status_active, status_inactive, AlertLevel, alert_normal, Sensor, GlobalState,
  copy_text, max_id_len, max_timestamp_len, max_type_len, max_message_len, max_metrics, max_alerts,
  is_entry, is_free, is_status_active, is_invalid_type,
}

-- for (i = 0; ...; i++) if (test(cells[i])) break; with the index and the cell where it stops.
unfoldable pub find_from {ℓ} : {A : Type ℓ} → (A → Bool) → List A → ℕ → Option (ℕ × A)
find_from test [] i = none
find_from test (x ∷ xs) i = if test x then some (i, x) else find_from test xs (i + 1)

-- The first occupied slot with this id.
abbrev pub find_entry : Text → GlobalState → Option (ℕ × Sensor)
find_entry id g = find_from (is_entry id) g.sensors 0

-- The first slot that is not occupied.
abbrev pub find_slot : GlobalState → Option (ℕ × Sensor)
find_slot g = find_from is_free g.sensors 0

abbrev pub put_sensor : GlobalState → ℕ → Sensor → GlobalState
put_sensor g i s = record g { sensors = set g.sensors i s }

-- The slot after memset and the assignments of state_register_sensor.
abbrev pub new_sensor : Text → SensorType → Sensor
new_sensor id type = record {
  id = copy_text id max_id_len;
  type = type;
  status = status_active;
  alert_level = alert_normal;
  last_value = 0;
  last_timestamp = copy_text (codes "N/A") max_timestamp_len;
  active = true;
}

unfoldable pub state_register_sensor : Text → SensorType → GlobalState → GlobalState × ℤ
unfolding find_from text_eq
state_register_sensor id type g =
    if is_invalid_type type then (g, negsuc 2) else elim (find_entry id g) [
      | some (i, s) ↦
          if is_status_active s.status
          then (g, negsuc 1)
          else (put_sensor g i (record s { status = status_active }), pos 0)
      | none ↦ elim (find_slot g) [
        | none ↦ (g, negsuc 0)
        | some (slot, _) ↦ (
          record g {
            sensors = set g.sensors slot (new_sensor id type);
            sensor_count = g.sensor_count + 1;
          },
          pos 0,
        )
      ]
    ]

-- The index and, as copied to `*found`, the sensor; `none` for -1.
unfoldable pub state_find_sensor : Text → GlobalState → Option (ℕ × Sensor)
unfolding find_from text_eq
state_find_sensor id g = find_entry id g

-- The second half of state_add_metric.
abbrev pub push_metric : Text → Double → Text → Text → GlobalState → GlobalState
push_metric sensor_id value timestamp type_str g = record g {
  metrics = set g.metrics g.metric_next (record {
    sensor_id = copy_text sensor_id max_id_len;
    value = value;
    timestamp = copy_text timestamp max_timestamp_len;
    type_str = copy_text type_str max_type_len;
  });
  metric_next = (g.metric_next + 1) % max_metrics;
  metric_count = if ltb g.metric_count max_metrics then g.metric_count + 1 else g.metric_count;
}

unfoldable pub state_add_metric : Text → Double → Text → Text → GlobalState → GlobalState × ℤ
unfolding find_from text_eq
state_add_metric sensor_id value timestamp type_str g = elim (find_entry sensor_id g) [
  | none ↦ (g, negsuc 0)
  | some (i, s) ↦ (
    push_metric sensor_id value timestamp type_str (
        put_sensor g i (record s {
          last_value = value;
          last_timestamp = copy_text timestamp max_timestamp_len;
        })),
    pos 0,
  )
]

unfoldable pub state_add_alert :
    Text → Double → Double → Text → Text → Text → GlobalState → GlobalState
state_add_alert sensor_id value threshold timestamp type_str message g = record g {
  alerts = set g.alerts g.alert_next (record {
    sensor_id = copy_text sensor_id max_id_len;
    value = value;
    threshold = threshold;
    timestamp = copy_text timestamp max_timestamp_len;
    type_str = copy_text type_str max_type_len;
    message = copy_text message max_message_len;
  });
  alert_next = (g.alert_next + 1) % max_alerts;
  alert_count = if ltb g.alert_count max_alerts then g.alert_count + 1 else g.alert_count;
}

unfoldable pub state_deactivate_sensor : Text → GlobalState → GlobalState × ℤ
unfolding find_from text_eq
state_deactivate_sensor id g = elim (find_entry id g) [
  | none ↦ (g, negsuc 0)
  | some (i, s) ↦ (put_sensor g i (record s { status = status_inactive }), pos 0)
]

unfoldable pub state_set_alert_level : Text → AlertLevel → GlobalState → GlobalState × ℤ
unfolding find_from text_eq
state_set_alert_level id level g = elim (find_entry id g) [
  | none ↦ (g, negsuc 0)
  | some (i, s) ↦ (put_sensor g i (record s { alert_level = level }), pos 0)
]

abbrev pub state_get_sensor_count : GlobalState → ℕ
state_get_sensor_count g = g.sensor_count

abbrev pub count_active : List Sensor → ℕ
count_active [] = 0
count_active (s ∷ ss) = (if s.active && is_status_active s.status then 1 else 0) + count_active ss

unfoldable pub state_get_active_sensor_count : GlobalState → ℕ
state_get_active_sensor_count g = count_active g.sensors

abbrev pub state_get_alert_count : GlobalState → ℕ
state_get_alert_count g = g.alert_count

abbrev pub state_get_metric_count : GlobalState → ℕ
state_get_metric_count g = g.metric_count
