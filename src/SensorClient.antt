-- ===== src/SensorClient.antt =====
-- clients/python_sensor/sensor.py: what a sensor sends. random and the clock are the samples that the
-- loop takes, as many as it takes before it ends; the socket works. Texts are the bytes of their UTF-8.
pub mod Words
pub mod Samples
pub mod Talk
pub mod Begin
pub mod Sessions
pub mod Steady
pub mod Crowd
mod Tests
use iot_services_monitoring.Common.{
  ℕ, Bool, true, false, ◌&&◌, ◌||◌, List, [], ◌∷◌, ◌++◌, Option, none, some, map, leb, ◌==◌,
  if◌then◌else◌,
}
use iot_services_monitoring.Text.{Text, codes, text_eq, starts_with}
use iot_services_monitoring.Python.{strip_left}
use iot_services_monitoring.Double.{Double, print_2f}

-- What run uses of the configuration.
pub record SensorConfig : Type 0 where
  pub sensor_id : Text
  pub sensor_type : Text

-- generate_value and utc_timestamp in one round of the loop.
pub record Sample : Type 0 where
  pub value : Double
  pub timestamp : Text

-- VALID_SENSOR_TYPES
unfoldable pub is_valid_type : Text → Bool
unfolding text_eq
is_valid_type type =
    text_eq type (codes "TEMP") || text_eq type (codes "VIB") || text_eq type (codes "POWER")

-- SensorClient(config): another type is a ValueError.
unfoldable pub sensor_client : SensorConfig → Option SensorConfig
unfolding is_valid_type
sensor_client config = if is_valid_type config.sensor_type then some config else none

abbrev pub register_command : SensorConfig → Text
register_command config =
    codes "REGISTER " ++ (config.sensor_id ++ (codes " " ++ config.sensor_type))

abbrev pub metric_command : SensorConfig → Sample → Text
metric_command config sample =
    codes "METRIC "
    ++ (config.sensor_id
        ++ (codes " " ++ (print_2f sample.value ++ (codes " " ++ sample.timestamp))))

abbrev pub quit_command : SensorConfig → Text
quit_command config = codes "QUIT " ++ config.sensor_id

-- `response.startswith("200")` on what _recv_line returns; the end that strip() takes off too has no
-- influence.
unfoldable pub is_ok : Text → Bool
unfolding strip_left starts_with
is_ok response = starts_with (codes "200") (strip_left response)

-- The lines that run sends when REGISTER is answered by `response`: the metrics if it begins with 200,
-- whatever is answered to them, and in both cases the QUIT of close().
unfoldable pub run_commands : SensorConfig → List Sample → Text → List Text
unfolding print_2f is_ok
run_commands config samples response =
    register_command config
    ∷ (if is_ok response
        then map (metric_command config) samples ++ (quit_command config ∷ [])
        else quit_command config ∷ [])
