-- ===== src/State/Tests.antt =====
-- Two sensors in the table, and witnesses of the theorems on state.c.
use iot_services_monitoring.Common.{◌≡◌, refl, none, arith, replicate, pos}
use iot_services_monitoring.Text.{Text, codes}
use iot_services_monitoring.State.{GlobalState, state_init, sensor_temp, sensor_vib}
use iot_services_monitoring.State.Ops.{
  state_register_sensor, state_find_sensor, state_deactivate_sensor, state_get_active_sensor_count,
}
use iot_services_monitoring.State.Inv.{IsValid}
use iot_services_monitoring.State.Inv.Keeps.{state_init-IsValid, state_register_sensor-IsValid}
use iot_services_monitoring.State.Registry.LongIds.{register_long_id}

abbrev s1 : Text
s1 = codes "s1"

abbrev one_sensor : GlobalState
one_sensor = (state_register_sensor s1 sensor_temp state_init).0

one_sensor-IsValid : IsValid one_sensor
one_sensor-IsValid = state_register_sensor-IsValid state_init-IsValid s1 sensor_temp

active_count_test :
    (state_get_active_sensor_count (state_register_sensor (codes "s2") sensor_vib one_sensor).0 ≡ 2)
    × (state_get_active_sensor_count (state_deactivate_sensor s1 one_sensor).0 ≡ 0)
unfolding state_get_active_sensor_count state_register_sensor state_deactivate_sensor state_init
active_count_test = (refl, refl)

-- Seventy times "a".
abbrev long_id : Text
long_id = replicate 70 b'a'

register_long_id_example :
    let (g', code) = state_register_sensor long_id sensor_temp state_init in
    (code ≡ pos 0)
    × (g'.sensor_count ≡ 1)
    × (state_find_sensor long_id state_init ≡ none)
    × (state_find_sensor long_id g' ≡ none)
unfolding state_init
register_long_id_example =
    register_long_id state_init long_id sensor_temp state_init-IsValid (omega arith) refl
