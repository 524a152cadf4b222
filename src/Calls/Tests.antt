-- ===== src/Calls/Tests.antt =====
-- An interleaving, and witnesses.
use iot_services_monitoring.Common.{◌≡◌, arith, List, [], ◌∷◌}
use iot_services_monitoring.Text.{codes}
use iot_services_monitoring.Calls.Service.{observe, specified, empty_service}
use iot_services_monitoring.Calls.Service.Refines.{calls_refine}
use iot_services_monitoring.State.{GlobalState, state_init, sensor_temp, alert_alert}
use iot_services_monitoring.State.Ops.{state_register_sensor, state_find_sensor}
use iot_services_monitoring.Calls.{
  Call, register_sensor, add_metric, deactivate_sensor, set_alert_level, exec_all,
}
use iot_services_monitoring.Calls.Lifetime.{IsFound, exec_all-IsFound}

abbrev some_calls : List Call
some_calls =
    register_sensor (codes "s1") sensor_temp
    ∷ add_metric (codes "s1") 0x4052200000000000 (codes "2026-03-30T14:05:00Z") (codes "TEMP")
    ∷ set_alert_level (codes "s1") alert_alert
    ∷ deactivate_sensor (codes "s1")
    ∷ []

abbrev with_sensor : GlobalState
with_sensor = (state_register_sensor (codes "s1") sensor_temp state_init).0

exec_all-IsFound_example :
    IsFound (state_find_sensor (codes "s1") (exec_all some_calls with_sensor))
unfolding state_find_sensor state_register_sensor state_init
exec_all-IsFound_example = exec_all-IsFound (codes "s1") some_calls with_sensor tt

calls_refine_example : observe some_calls state_init ≡ specified some_calls empty_service
calls_refine_example = calls_refine some_calls (omega arith, (tt, (tt, (tt, tt))))
