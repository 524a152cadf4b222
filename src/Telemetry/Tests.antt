-- ===== src/Telemetry/Tests.antt =====
-- A value that a sensor sends and an operator sees.
use iot_services_monitoring.Common.{◌≡◌, refl, true, [], ◌∷◌, ◌++◌, arith}
use iot_services_monitoring.Text.{Text, codes, decimal}
use iot_services_monitoring.Utils.{is_valid_timestamp}
use iot_services_monitoring.Utils.Numbers.{strtod, number_of}
use iot_services_monitoring.State.{GlobalState, state_init, sensor_temp}
use iot_services_monitoring.State.Ops.{new_sensor, state_register_sensor, state_get_metric_count}
use iot_services_monitoring.State.Inv.Keeps.{state_init-IsValid, state_register_sensor-IsValid}
use iot_services_monitoring.Calls.{run}
use iot_services_monitoring.Config.{concat}
use iot_services_monitoring.Smp.{handle_metric}
use iot_services_monitoring.Http.Tables.{metrics_header}
use iot_services_monitoring.Http.Requests.{responded, ok, route_metrics}
use iot_services_monitoring.Telemetry.{metric_on_page}

abbrev now : Text
now = codes "2026-03-30T14:05:00Z"

abbrev one_sensor : GlobalState
one_sensor = (state_register_sensor (codes "s1") sensor_temp state_init).0

metric_on_page_example :
    let (g', reply) =
      run
        (handle_metric strtod (codes "METRIC" ∷ codes "s1" ∷ codes "-3.5" ∷ now ∷ []))
        one_sensor in
    let row =
      codes "<tr><td>s1</td><td>TEMP</td><td>-3.50</td><td>2026-03-30T14:05:00Z</td></tr>" in
    (reply ≡ codes "200 OK")
    × (rest : Text) × (run route_metrics g'
        ≡ (g', responded (ok (metrics_header (state_get_metric_count g') ++ (row ++ rest)))))
unfolding state_register_sensor state_init is_valid_timestamp decimal concat number_of
metric_on_page_example =
    metric_on_page one_sensor (codes "METRIC") (codes "s1") now
      (new_sensor (codes "s1") sensor_temp)
      (record { minus = true; whole = codes "3"; fraction = codes "5" })
      (state_register_sensor-IsValid state_init-IsValid (codes "s1") sensor_temp) refl refl refl
      (record {
        whole = (refl, tt);
        fraction = (refl, tt);
        some_digit = omega arith;
        places = omega arith;
        small = omega arith;
      })
