-- ===== src/Http/Tests.antt =====
-- Pages on concrete states, and witnesses.
mod Requests
use iot_services_monitoring.Common.{
  ℕ, ◌≡◌, refl, ◌≢◌, true, false, List, [], ◌∷◌, ◌++◌, none, some, arith, replicate, map, All-set,
  All-replicate,
}
use iot_services_monitoring.Text.{
  Text, codes, starts_with, strstr, strchr, before, decimal, text_eq,
}
use iot_services_monitoring.Text.Search.{lacks_sound}
use iot_services_monitoring.Text.Laws.{text_eq-ne}
use iot_services_monitoring.Double.{print_2f}
use iot_services_monitoring.State.{Alert, GlobalState, state_init, sensor_temp, zero_alert}
use iot_services_monitoring.State.Ops.{state_add_alert, state_add_metric, state_deactivate_sensor}
use iot_services_monitoring.State.Recent.{newest, recent_metrics, recent_alerts}
use iot_services_monitoring.Calls.{Call, add_alert, register_sensor, exec_all}
use iot_services_monitoring.Calls.Invariant.{reachable-IsValid}
use iot_services_monitoring.Alerts.{anomaly_message, temp_threshold_high}
use iot_services_monitoring.Config.{concat}
use iot_services_monitoring.Http.Style.{css_style, build_nav}
use iot_services_monitoring.State.Ops.{state_register_sensor, state_get_active_sensor_count}
use iot_services_monitoring.Utils.{Incoming, closed}
use iot_services_monitoring.Calls.{ret, run_among, deactivate_sensor, add_metric}
use iot_services_monitoring.Main.{default_config}
use iot_services_monitoring.Auth.{Network}
use iot_services_monitoring.Auth.Answers.{known, Exchanged}
use iot_services_monitoring.Http.{Response, header_of, send_http_response}
use iot_services_monitoring.Http.Pages.{home_page}
use iot_services_monitoring.Http.Sensors.{sensors_page, stats, sensor_row}
use iot_services_monitoring.Http.Fit.{Shown}
use iot_services_monitoring.Http.Overrun.{alerts_page_overrun}
use iot_services_monitoring.Http.Views.{metrics_page-Shown, alerts_page-Shown, IsShort}
use iot_services_monitoring.Http.Inventory.{sensors_page_lem, shown_counters, listed}
use iot_services_monitoring.Http.Patched.{header_head, header_tail}
use iot_services_monitoring.Http.Sending.{send_http_response_prefix}
use iot_services_monitoring.Http.Routes.{
  handle_http_request-ends, get_request-served, get_line, are_words_sound,
}
use iot_services_monitoring.Http.Requests.{
  out_of_fuel, served, responded, ok, handle_http_request, route, not_found, username_of,
  route_metrics, route_sensors,
}
use iot_services_monitoring.Http.Answers.{
  tables-IsPage, IsPage, route_other, login_request, login_path, login_page,
}
use iot_services_monitoring.Http.Tables.{
  metric_row, metrics_header, metrics_page, table_end, append, append_rows, fill, alert_row,
  alerts_header, alerts_page,
}

-- 1e300
abbrev huge : ℕ
huge = 0x7e37e43c8800759c

-- What METRIC records for the value 1e300 of a sensor of type TEMP.
abbrev huge_alert : Call
huge_alert =
    add_alert (codes "tmp1") huge temp_threshold_high (codes "2026-03-30T14:05:00Z") (codes "TEMP")
      (anomaly_message (codes "TEMP") (codes " > ") huge temp_threshold_high)

abbrev flooded : GlobalState
flooded = exec_all (replicate 89 huge_alert) state_init

-- With 89 such alerts, /alerts writes outside its buffer.
flooded_overrun : alerts_page 89 flooded ≡ none
unfolding alerts_page fill append append_rows alert_row alerts_header css_style build_nav concat
    print_2f decimal state_add_alert state_init exec_all anomaly_message newest
flooded_overrun = refl

-- One of the alerts of `flooded`.
abbrev stored : Alert
stored = record {
  sensor_id = codes "tmp1";
  value = huge;
  threshold = temp_threshold_high;
  timestamp = codes "2026-03-30T14:05:00Z";
  type_str = codes "TEMP";
  message = anomaly_message (codes "TEMP") (codes " > ") huge temp_threshold_high;
}

flooded_alerts : recent_alerts flooded ≡ replicate 88 stored ++ (stored ∷ [])
unfolding newest state_add_alert state_init exec_all anomaly_message print_2f decimal
flooded_alerts = refl

alerts_page_overrun_example : alerts_page 89 flooded ≡ none
unfolding alert_row alerts_header css_style build_nav concat print_2f decimal anomaly_message
alerts_page_overrun_example =
    alerts_page_overrun flooded 89 (replicate 88 stored) stored flooded_alerts (omega arith)
      (omega arith)

abbrev pub some_calls : List Call
some_calls =
    register_sensor (codes "s1") sensor_temp
    ∷ register_sensor (codes "s2") sensor_temp
    ∷ add_metric (codes "s1") 0x403b800000000000 (codes "2026-03-30T14:05:00Z") (codes "TEMP")
    ∷ add_alert (codes "s1") 0x4052200000000000 temp_threshold_high (codes "2026-03-30T14:05:00Z")
        (codes "TEMP") (codes "TEMP anomaly: 72.50 > 70.00")
    ∷ deactivate_sensor (codes "s2")
    ∷ []

abbrev busy : GlobalState
busy = exec_all some_calls state_init

sensors_page_lem_example :
    (sensors_page busy
      ≡ some (
          header_head
          ++ (concat (stats (shown_counters busy))
              ++ (header_tail ++ (concat (map sensor_row (listed busy.sensors)) ++ table_end)))))
    × ((shown_counters busy).total_sensors ≡ busy.sensor_count)
    × ((shown_counters busy).active_sensors ≡ state_get_active_sensor_count busy)
sensors_page_lem_example = sensors_page_lem (reachable-IsValid some_calls)

metrics_page-Shown_example :
    Shown (metrics_header 1) (map metric_row (recent_metrics busy)) (metrics_page 1 busy)
metrics_page-Shown_example = metrics_page-Shown 1 (reachable-IsValid some_calls) (omega arith)

-- The alert of `busy`.
abbrev spiked : Alert
spiked = record {
  sensor_id = codes "s1";
  value = 0x4052200000000000;
  threshold = temp_threshold_high;
  timestamp = codes "2026-03-30T14:05:00Z";
  type_str = codes "TEMP";
  message = codes "TEMP anomaly: 72.50 > 70.00";
}

alerts_page-Shown_example :
    Shown (alerts_header 1) (map alert_row (recent_alerts busy)) (alerts_page 1 busy)
unfolding exec_all state_init state_register_sensor state_add_metric state_add_alert
    state_deactivate_sensor print_2f
alerts_page-Shown_example = alerts_page-Shown 1 (reachable-IsValid some_calls) (omega arith) (
    All-set IsShort (replicate 256 zero_alert) 0 {y = spiked}
      (All-replicate IsShort 256 {x = zero_alert} (omega arith)) (omega arith))

tables-IsPage_example :
    IsPage (run_among route_metrics (some_calls ∷ []) state_init).1
    × IsPage (run_among route_sensors (some_calls ∷ []) state_init).1
unfolding state_init exec_all
tables-IsPage_example = tables-IsPage (some_calls ∷ []) (reachable-IsValid [])
