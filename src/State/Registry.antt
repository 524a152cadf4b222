-- ===== src/State/Registry.antt =====
-- The abstract contract of the sensor table of state.h: a map from identifiers to sensors with a
-- number of used places, and what each operation of state.c does to it.
pub mod Refine
pub mod LongIds
use iot_services_monitoring.Common.{
  ℕ, ◌+◌, ◌≡◌, Bool, true, false, Option, none, some, ℤ, pos, negsuc, ◌==◌, if◌then◌else◌,
}
use iot_services_monitoring.Text.{Text, text_eq}
use iot_services_monitoring.Double.{Double}
use iot_services_monitoring.State.{
  SensorType, SensorStatus, status_active, status_inactive, AlertLevel, Sensor, GlobalState,
  is_status_active, is_invalid_type, copy_text, max_sensors, max_timestamp_len,
}
use iot_services_monitoring.State.Ops.{find_entry, new_sensor}

pub record Table : Type 0 where
  pub lookup : Text → Option Sensor
  pub used : ℕ

-- The entry of one identifier is replaced; all others stay.
abbrev pub put : Text → Sensor → Table → Table
put id s t = record t { lookup = λ id'. if text_eq id id' then some s else t.lookup id' }

-- Registering: a new entry, a sensor that had left becomes active again with all that is known of
-- it, and the three refusals.
abbrev pub register : Text → SensorType → Table → Table × ℤ
register id type t = if is_invalid_type type then (t, negsuc 2) else elim (t.lookup id) [
  | some s ↦
      if is_status_active s.status
      then (t, negsuc 1)
      else (put id (record s { status = status_active }) t, pos 0)
  | none ↦
      if t.used == max_sensors
      then (t, negsuc 0)
      else (record (put id (new_sensor id type) t) { used = t.used + 1 }, pos 0)
]

-- Changing a known entry; -1 for an unknown one.
abbrev pub change : Text → (Sensor → Sensor) → Table → Table × ℤ
change id f t = elim (t.lookup id) [ none ↦ (t, negsuc 0) | some s ↦ (put id (f s) t, pos 0) ]

abbrev pub report : Double → Text → Sensor → Sensor
report value timestamp s = record s {
  last_value = value;
  last_timestamp = copy_text timestamp max_timestamp_len;
}

abbrev pub leave : Sensor → Sensor
leave s = record s { status = status_inactive }

abbrev pub with_level : AlertLevel → Sensor → Sensor
with_level level s = record s { alert_level = level }

-- What the table of the program stands for.
abbrev pub found_sensor : Option (ℕ × Sensor) → Option Sensor
found_sensor none = none
found_sensor (some (k, s)) = some s

abbrev pub entry : GlobalState → Text → Option Sensor
entry g id = found_sensor (find_entry id g)

abbrev pub view : GlobalState → Table
view g = record { lookup = entry g; used = g.sensor_count }
