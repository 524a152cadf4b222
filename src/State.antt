-- ===== src/State.antt =====
-- The shared state of the server: server/include/state.h and server/src/state.c. Each function of
-- state.c holds `lock` from its first access to its last, so each is one atomic step: it takes the
-- state and returns the new state beside its result. Character arrays are kept as the C strings that
-- they hold.
mod Tests
pub mod Ops
pub mod Inv
pub mod Arrays
pub mod Registry
pub mod Recent
use iot_services_monitoring.Common.{
  ℕ, zero, suc, ◌+◌, ◌-◌, Bool, true, false, not, ◌&&◌, List, [], ◌∷◌, Option, none, some, take,
  replicate, if◌then◌else◌,
}
use iot_services_monitoring.Text.{Text, codes, text_eq}
use iot_services_monitoring.Double.{Double}

abbrev pub max_id_len : ℕ
max_id_len = 64

abbrev pub max_timestamp_len : ℕ
max_timestamp_len = 32

abbrev pub max_type_len : ℕ
max_type_len = 8

abbrev pub max_message_len : ℕ
max_message_len = 256

abbrev pub max_sensors : ℕ
max_sensors = 64

abbrev pub max_alerts : ℕ
max_alerts = 256

abbrev pub max_metrics : ℕ
max_metrics = 512

pub data SensorType : Type 0 where
  sensor_temp sensor_vib sensor_power sensor_type_invalid : SensorType

pub data SensorStatus : Type 0 where
  status_active status_inactive : SensorStatus

pub data AlertLevel : Type 0 where
  alert_normal alert_alert : AlertLevel

pub record Sensor : Type 0 where
  pub id : Text
  pub type : SensorType
  pub status : SensorStatus
  pub alert_level : AlertLevel
  pub last_value : Double
  pub last_timestamp : Text
  pub active : Bool

pub record Metric : Type 0 where
  pub sensor_id : Text
  pub value : Double
  pub timestamp : Text
  pub type_str : Text

pub record Alert : Type 0 where
  pub sensor_id : Text
  pub value : Double
  pub threshold : Double
  pub timestamp : Text
  pub type_str : Text
  pub message : Text

pub record GlobalState : Type 0 where
  pub sensors : List Sensor
  pub sensor_count : ℕ
  pub metrics : List Metric
  pub metric_count : ℕ
  pub metric_next : ℕ
  pub alerts : List Alert
  pub alert_count : ℕ
  pub alert_next : ℕ

-- What safe_strncpy leaves in an array of `size` bytes, as a C string.
abbrev pub copy_text : Text → ℕ → Text
copy_text src size = take (size - 1) src

-- Zeroed memory, as memset leaves it.
abbrev pub zero_sensor : Sensor
zero_sensor = record {
  id = [];
  type = sensor_temp;
  status = status_active;
  alert_level = alert_normal;
  last_value = 0;
  last_timestamp = [];
  active = false;
}

abbrev pub zero_metric : Metric
zero_metric = record { sensor_id = []; value = 0; timestamp = []; type_str = [] }

abbrev pub zero_alert : Alert
zero_alert = record {
  sensor_id = [];
  value = 0;
  threshold = 0;
  timestamp = [];
  type_str = [];
  message = [];
}

unfoldable pub state_init : GlobalState
state_init = record {
  sensors = replicate max_sensors zero_sensor;
  sensor_count = 0;
  metrics = replicate max_metrics zero_metric;
  metric_count = 0;
  metric_next = 0;
  alerts = replicate max_alerts zero_alert;
  alert_count = 0;
  alert_next = 0;
}

-- A NULL string is `none`.
unfoldable pub sensor_type_from_str : Option Text → SensorType
unfolding text_eq
sensor_type_from_str none = sensor_type_invalid
sensor_type_from_str (some str) =
    if text_eq str (codes "TEMP")
    then sensor_temp
    else if text_eq str (codes "VIB")
    then sensor_vib
    else if text_eq str (codes "POWER")
    then sensor_power
    else sensor_type_invalid

abbrev pub sensor_type_to_str : SensorType → Text
sensor_type_to_str sensor_temp = codes "TEMP"
sensor_type_to_str sensor_vib = codes "VIB"
sensor_type_to_str sensor_power = codes "POWER"
sensor_type_to_str sensor_type_invalid = codes "UNKNOWN"

abbrev pub sensor_status_to_str : SensorStatus → Text
sensor_status_to_str status_active = codes "ACTIVE"
sensor_status_to_str status_inactive = codes "INACTIVE"

abbrev pub alert_level_to_str : AlertLevel → Text
alert_level_to_str alert_normal = codes "NORMAL"
alert_level_to_str alert_alert = codes "ALERT"

abbrev pub is_status_active : SensorStatus → Bool
is_status_active status_active = true
is_status_active status_inactive = false

abbrev pub is_alert_normal : AlertLevel → Bool
is_alert_normal alert_normal = true
is_alert_normal alert_alert = false

abbrev pub is_invalid_type : SensorType → Bool
is_invalid_type sensor_type_invalid = true
is_invalid_type _ = false

-- The test of the loops over the table: sensors[i].active && strcmp(sensors[i].id, id) == 0.
abbrev pub is_entry : Text → Sensor → Bool
is_entry id s = s.active && text_eq s.id id

abbrev pub is_free : Sensor → Bool
is_free s = not s.active
