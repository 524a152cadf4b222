-- ===== src/Threads/Tests.antt =====
-- Two sensors that register one identifier, and witnesses.
use iot_services_monitoring.Common.{refl, [], ◌∷◌}
use iot_services_monitoring.Text.{Text, codes}
use iot_services_monitoring.Utils.{Incoming, closed}
use iot_services_monitoring.Utils.Numbers.{strtod}
use iot_services_monitoring.State.{state_init, sensor_temp, sensor_type_from_str}
use iot_services_monitoring.State.Ops.{state_register_sensor}
use iot_services_monitoring.State.Inv.{IsValid}
use iot_services_monitoring.Calls.{ret, register_sensor, exec_all}
use iot_services_monitoring.Main.{default_config}
use iot_services_monitoring.Smp.{disconnected, handle_sensor_connection}
use iot_services_monitoring.Smp.Session.{sent_lines}
use iot_services_monitoring.Threads.{
  Finished, sensor_done, sensor_connection, System, Reach, start, later, accept, advance,
}
use iot_services_monitoring.Threads.Invariant.{reach-IsValid}
use iot_services_monitoring.Threads.Outcomes.{IsProper, reach-IsProper}

abbrev registering : Incoming
registering = record { bytes = sent_lines (codes "REGISTER s1 TEMP" ∷ []); ending = closed }

abbrev replied : Text → Finished
replied resp = sensor_done (record {
  exchanges = record { recv_msg = codes "REGISTER s1 TEMP"; resp = resp } ∷ [];
  finish = disconnected;
})

-- The second connection is served first.
abbrev after_both : System
after_both = record {
  state =
      exec_all
        (register_sensor (codes "s1") sensor_temp ∷ register_sensor (codes "s1") sensor_temp ∷ [])
        state_init;
  threads =
      ret (replied (codes "409 SENSOR_ALREADY_EXISTS"))
      ∷ ret (replied (codes "200 REGISTERED s1"))
      ∷ [];
}

both : Reach strtod default_config after_both
unfolding handle_sensor_connection sensor_type_from_str exec_all state_register_sensor state_init
both =
    later
      (later
        (later (later start (accept (sensor_connection registering)))
          (accept (sensor_connection registering)))
        (advance 1 (register_sensor (codes "s1") sensor_temp) _ refl))
      (advance 0 (register_sensor (codes "s1") sensor_temp) _ refl)

reach-IsValid_example : IsValid after_both.state
reach-IsValid_example = reach-IsValid strtod default_config both

reach-IsProper_example : IsProper (replied (codes "200 REGISTERED s1"))
reach-IsProper_example =
    reach-IsProper strtod default_config 1 (replied (codes "200 REGISTERED s1")) both refl
