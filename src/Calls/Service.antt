-- ===== src/Calls/Service.antt =====
-- What state.h promises, without arrays: a map of sensors, and the newest metrics and alerts in order.
-- Every call of state.c is a step of this service.
pub mod Refines
pub mod Commute
pub mod Active
use iot_services_monitoring.Common.{
  ℕ, Bool, List, [], ◌∷◌, Option, none, some, ℤ, pos, negsuc, length, take, ◌≤◌, if◌then◌else◌,
  is_negative,
}
use iot_services_monitoring.Text.{Text}
use iot_services_monitoring.State.{Metric, Alert, Sensor, GlobalState, max_metrics, max_alerts}
use iot_services_monitoring.State.Registry.{
  Table, register, change, report, leave, with_level, view, found_sensor,
}
use iot_services_monitoring.State.Recent.{recent_metrics, recent_alerts}
use iot_services_monitoring.State.Recent.Tables.{stored_metric, stored_alert}
use iot_services_monitoring.Calls.{
  Call, Reply, register_sensor, find_sensor, add_metric, add_alert, deactivate_sensor,
  set_alert_level, get_sensor_count, get_active_sensor_count, get_alert_count, get_metric_count,
  read_state, exec,
}

pub record Service : Type 0 where
  pub table : Table
  pub metrics : List Metric
  pub alerts : List Alert

-- Behind state_init.
abbrev pub empty_service : Service
empty_service = record {
  table = record { lookup = λ id. none; used = 0 };
  metrics = [];
  alerts = [];
}

abbrev pub service_of : GlobalState → Service
service_of g = record { table = view g; metrics = recent_metrics g; alerts = recent_alerts g }

-- What of a reply the service determines: not the index of a sensor, and not the number of active
-- sensors, for which a map does not give the order of a count.
abbrev pub Seen : Call → Type 0
Seen (register_sensor id type) = ℤ
Seen (find_sensor id) = Option Sensor
Seen (add_metric id value ts ty) = ℤ
Seen (add_alert id value thr ts ty msg) = Unit {0}
Seen (deactivate_sensor id) = ℤ
Seen (set_alert_level id level) = ℤ
Seen get_sensor_count = ℕ
Seen get_active_sensor_count = Unit {0}
Seen get_alert_count = ℕ
Seen get_metric_count = ℕ
Seen read_state = Service

abbrev pub seen : (c : Call) → Reply c → Seen c
seen (register_sensor id type) r = r
seen (find_sensor id) r = found_sensor r
seen (add_metric id value ts ty) r = r
seen (add_alert id value thr ts ty msg) r = tt
seen (deactivate_sensor id) r = r
seen (set_alert_level id level) r = r
seen get_sensor_count r = r
seen get_active_sensor_count r = tt
seen get_alert_count r = r
seen get_metric_count r = r
seen read_state g = service_of g

abbrev pub with_table : Service → Table × ℤ → Service × ℤ
with_table s (t, code) = (record s { table = t }, code)

-- A metric is kept only for a known sensor.
abbrev pub keep_metric : Metric → Service × ℤ → Service × ℤ
keep_metric m (s, code) =
    (if is_negative code then s else record s { metrics = take max_metrics (m ∷ s.metrics) }, code)

abbrev pub specify : (c : Call) → Service → Service × Seen c
specify (register_sensor id type) s = with_table s (register id type s.table)
specify (find_sensor id) s = (s, s.table.lookup id)
specify (add_metric id value ts ty) s =
    keep_metric (stored_metric id value ts ty) (with_table s (change id (report value ts) s.table))
specify (add_alert id value thr ts ty msg) s =
    (record s { alerts = take max_alerts (stored_alert id value thr ts ty msg ∷ s.alerts) }, tt)
specify (deactivate_sensor id) s = with_table s (change id leave s.table)
specify (set_alert_level id level) s = with_table s (change id (with_level level) s.table)
specify get_sensor_count s = (s, s.table.used)
specify get_active_sensor_count s = (s, tt)
specify get_alert_count s = (s, length s.alerts)
specify get_metric_count s = (s, length s.metrics)
specify read_state s = (s, s)

-- An identifier that is registered fits its array.
abbrev pub Fits : Call → Type 0
Fits (register_sensor id type) = length id ≤ 63
Fits _ = Unit

-- What a caller sees of a call.
pub record Observation : Type 0 where
  pub request : Call
  pub result : Seen request

abbrev pub observe : List Call → GlobalState → List Observation
observe [] g = []
observe (c ∷ cs) g = record { request = c; result = seen c (exec c g).1 } ∷ observe cs (exec c g).0

abbrev pub specified : List Call → Service → List Observation
specified [] s = []
specified (c ∷ cs) s =
    record { request = c; result = (specify c s).1 } ∷ specified cs (specify c s).0
