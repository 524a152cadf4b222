-- ===== src/State/Inv.antt =====
-- The invariant of the shared state: sizes of the tables, ranges of the circular indices, the count of
-- the occupied slots, and strings that fit their arrays. Every operation keeps it: see the child module.
pub mod Keeps
use iot_services_monitoring.Common.{
  ℕ, zero, suc, ◌+◌, ◌%◌, ◌≤◌, ◌<◌, ◌≡◌, refl, sym, Bool, true, false, List, [], ◌∷◌, some, arith,
  length, get_elem?, set, length-set, length-replicate, length-take, take, if◌then◌else◌, ltb, All,
  All-set, All-get_elem?, All-replicate, Option-cases, inl, inr, ◌⊎◌, replicate, ap,
}
use iot_services_monitoring.Text.{Text}
use iot_services_monitoring.Double.{Double}
use iot_services_monitoring.State.{
  SensorType, sensor_type_to_str, AlertLevel, Sensor, Metric, Alert, GlobalState, max_sensors,
  max_metrics, max_alerts, state_init, zero_sensor, zero_metric, zero_alert, is_entry, is_free,
}
use iot_services_monitoring.State.Ops.{
  find_entry, find_slot, put_sensor, push_metric, new_sensor, state_register_sensor,
  state_add_metric, state_add_alert, state_deactivate_sensor, state_set_alert_level,
}
use iot_services_monitoring.State.Arrays.{find_from_sound}

abbrev pub SensorFits : Sensor → Type 0
SensorFits s = (length s.id ≤ 63) × (length s.last_timestamp ≤ 31)

abbrev pub MetricFits : Metric → Type 0
MetricFits m = (length m.sensor_id ≤ 63) × (length m.timestamp ≤ 31) × (length m.type_str ≤ 7)

abbrev pub AlertFits : Alert → Type 0
AlertFits a =
    (length a.sensor_id ≤ 63)
    × (length a.timestamp ≤ 31)
    × (length a.type_str ≤ 7)
    × (length a.message ≤ 255)

-- The number of occupied slots.
abbrev pub occupied : List Sensor → ℕ
occupied [] = 0
occupied (s ∷ ss) = (if s.active then 1 else 0) + occupied ss

-- A circular table: the next slot is inside, and is the first unused one until the table is full.
abbrev pub InRange : ℕ → ℕ → ℕ → Type 0
InRange cap next count = (next < cap) × (count ≤ cap) × ((count ≡ cap) ⊎ (next ≡ count))

pub record IsValid (g : GlobalState) : Type 0 where
  pub sensors_size : length g.sensors ≡ max_sensors
  pub metrics_size : length g.metrics ≡ max_metrics
  pub alerts_size : length g.alerts ≡ max_alerts
  pub counted : g.sensor_count ≡ occupied g.sensors
  pub metric_range : InRange max_metrics g.metric_next g.metric_count
  pub alert_range : InRange max_alerts g.alert_next g.alert_count
  pub sensors_fit : All SensorFits g.sensors
  pub metrics_fit : All MetricFits g.metrics
  pub alerts_fit : All AlertFits g.alerts

pub occupied-set :
    (xs : List Sensor) (j : ℕ) (x y : Sensor)
    → get_elem? xs j ≡ some x
    → occupied (set xs j y) + (if x.active then 1 else 0)
      ≡ occupied xs + (if y.active then 1 else 0)
occupied-set [] j x y e = absurd (ground arith)
occupied-set (z ∷ xs) zero x y e = ground arith
occupied-set (z ∷ xs) (suc j) x y e = omega (arith, occupied-set xs j x y e)

-- At most as many slots are occupied as there are.
pub occupied-le-length : (xs : List Sensor) → occupied xs ≤ length xs
occupied-le-length [] = omega arith
occupied-le-length (x ∷ xs) = ground (arith, occupied-le-length xs)

pub occupied-replicate : (n : ℕ) → occupied (replicate n zero_sensor) ≡ 0
occupied-replicate zero = refl
occupied-replicate (suc n) = omega (arith, occupied-replicate n)

pub length-copy : (n : ℕ) (src : Text) {m : ℕ} → n ≤ m → length (take n src) ≤ m
length-copy n src h = omega (arith, length-take n src)
