-- ===== src/Smp/Tests.antt =====
-- A session as the documents show one, and witnesses.
use iot_services_monitoring.Common.{
  pos, ◌≡◌, refl, ◌≢◌, false, ◌++◌, replicate, All-replicate, List, [], ◌∷◌, map, some, arith,
  length,
}
use iot_services_monitoring.Text.{Text, codes, decimal, starts_with, is_digit, c_string}
use iot_services_monitoring.Config.{concat}
use iot_services_monitoring.Utils.Numbers.{number_of, strtod, read_unsigned, read_real, rounded}
use iot_services_monitoring.State.Recent.{recent_alerts}
use iot_services_monitoring.Smp.Values.{status_shows_text}
use iot_services_monitoring.Smp.Nan.{nan_raises_no_alert}
use iot_services_monitoring.Smp.FullLines.{only, session-full_line}
use iot_services_monitoring.Double.{double_lt, print_2f, is_nan}
use iot_services_monitoring.Utils.{Strtod, Incoming, closed, parse_double, is_valid_timestamp}
use iot_services_monitoring.Utils.Lines.{without_cr, IsPlain}
use iot_services_monitoring.State.{
  GlobalState, state_init, sensor_type_from_str, sensor_temp, status_inactive, alert_normal,
}
use iot_services_monitoring.State.Ops.{
  new_sensor, state_register_sensor, state_find_sensor, state_add_metric, state_add_alert,
  state_deactivate_sensor, state_set_alert_level,
}
use iot_services_monitoring.State.Inv.{IsValid}
use iot_services_monitoring.State.Inv.Keeps.{
  state_init-IsValid, state_register_sensor-IsValid, state_deactivate_sensor-IsValid,
}
use iot_services_monitoring.State.Registry.{Table, view, entry, change, report, with_level}
use iot_services_monitoring.Calls.{run, run_among, ret, deactivate_sensor}
use iot_services_monitoring.Alerts.{alerts_evaluate}
use iot_services_monitoring.Smp.{
  Exchange, Finish, Transcript, handle_sensor_connection, handle_metric, handle_register,
  handle_status, session, ended, process_line, disconnected, quit, out_of_fuel,
}
use iot_services_monitoring.Smp.Metrics.{Stored, accepted, handle_metric-Stored}
use iot_services_monitoring.Logger.{log_info, log_sensor}
use iot_services_monitoring.Smp.Log.{session_log}
use iot_services_monitoring.Smp.Lifetime.{IsMetricReply, handle_metric-IsMetricReply}
use iot_services_monitoring.Smp.Register.{handle_register-registered, reregister_keeps_type}
use iot_services_monitoring.Smp.Session.{
  handle_sensor_connection-ends, session-empty_line, session-lines, process_all, sent_lines,
}

-- A conversion that reads every text whole, as 72.5.
abbrev reads_72 : Text → Strtod
reads_72 s = record { value = 0x4052200000000000; consumed = length s; errno = 0 }

abbrev said : List Text → Incoming
said ls = record { bytes = sent_lines ls; ending = closed }

abbrev responses : Transcript → List Text × Finish
responses t = (map (λ (e : Exchange). e.resp) t.exchanges, t.finish)

documented_session :
    responses
      (run
        (handle_sensor_connection strtod (
          said (
            codes "REGISTER sensor01 TEMP"
            ∷ codes "METRIC sensor01 72.5 2026-03-30T14:05:00Z"
            ∷ codes "STATUS sensor01"
            ∷ codes "PING sensor01"
            ∷ codes "REGISTER sensor01 TEMP"
            ∷ codes "METRIC sensor02 1 2026-03-30T14:05:00Z"
            ∷ codes "METRIC sensor01 1 yesterday"
            ∷ codes "HELLO"
            ∷ codes "QUIT sensor01"
            ∷ codes "PING sensor01"
            ∷ [])))
        state_init).1
    ≡ (
      codes "200 REGISTERED sensor01"
          ∷ codes "200 OK"
          ∷ codes "200 STATUS sensor01 ACTIVE TEMP 72.50 2026-03-30T14:05:00Z ALERT"
          ∷ codes "200 PONG"
          ∷ codes "409 SENSOR_ALREADY_EXISTS"
          ∷ codes "404 SENSOR_NOT_FOUND"
          ∷ codes "400 BAD_REQUEST"
          ∷ codes "400 BAD_REQUEST"
          ∷ codes "200 BYE"
          ∷ [],
      quit,
    )
unfolding strtod read_unsigned read_real rounded starts_with is_digit handle_sensor_connection run
    state_init sensor_type_from_str state_find_sensor state_register_sensor parse_double
    is_valid_timestamp state_add_metric alerts_evaluate double_lt state_set_alert_level
    state_add_alert print_2f
documented_session = refl

abbrev s1 : Text
s1 = codes "s1"

abbrev now : Text
now = codes "2026-03-30T14:05:00Z"

abbrev one_sensor : GlobalState
one_sensor = (state_register_sensor s1 sensor_temp state_init).0

one_sensor-IsValid : IsValid one_sensor
one_sensor-IsValid = state_register_sensor-IsValid state_init-IsValid s1 sensor_temp

abbrev metric_line : List Text
metric_line = codes "METRIC" ∷ s1 ∷ codes "72.5" ∷ now ∷ []

-- The metric is accepted.
handle_metric-Stored_example :
    Stored one_sensor s1 now
      (accepted (new_sensor s1 sensor_temp) 0x4052200000000000)
      (run (handle_metric reads_72 metric_line) one_sensor)
unfolding state_register_sensor state_init parse_double is_valid_timestamp
handle_metric-Stored_example =
    handle_metric-Stored one_sensor s1 now one_sensor-IsValid reads_72 (codes "METRIC")
      (codes "72.5")

-- Between the two calls of METRIC another connection says QUIT.
handle_metric-IsMetricReply_example :
    IsMetricReply
      (run_among
        (handle_metric reads_72 metric_line)
        ([] ∷ (deactivate_sensor s1 ∷ []) ∷ [])
        one_sensor).1
handle_metric-IsMetricReply_example =
    handle_metric-IsMetricReply reads_72 metric_line ([] ∷ (deactivate_sensor s1 ∷ []) ∷ [])
      one_sensor

handle_register-registered_example :
    let (g', r) = run (handle_register (codes "REGISTER" ∷ s1 ∷ codes "VIB" ∷ [])) one_sensor in
    ◌≡◌ {A = Table × Text} (view g', r) (view one_sensor, codes "409 SENSOR_ALREADY_EXISTS")
unfolding state_register_sensor state_init sensor_type_from_str
handle_register-registered_example =
    handle_register-registered one_sensor (codes "REGISTER") s1 (codes "VIB") one_sensor-IsValid
      (omega arith)

abbrev gone : GlobalState
gone = (state_deactivate_sensor s1 one_sensor).0

-- A TEMP sensor that had left registers as VIB, and is TEMP still.
reregister_keeps_type_example :
    let (g', r) = run (handle_register (codes "REGISTER" ∷ s1 ∷ codes "VIB" ∷ [])) gone in
    (r ≡ codes "200 REGISTERED s1") × (entry g' s1 ≡ some (new_sensor s1 sensor_temp))
unfolding state_register_sensor state_deactivate_sensor state_init sensor_type_from_str
reregister_keeps_type_example =
    reregister_keeps_type gone (codes "REGISTER") s1 (codes "VIB")
      (record (new_sensor s1 sensor_temp) { status = status_inactive })
      (state_deactivate_sensor-IsValid one_sensor-IsValid s1) (omega arith) refl refl refl

handle_sensor_connection-ends_example :
    (run_among
      (handle_sensor_connection reads_72 (said (codes "PING s1" ∷ [])))
      []
      one_sensor).1.finish
    ≢ out_of_fuel
handle_sensor_connection-ends_example =
    handle_sensor_connection-ends reads_72 (said (codes "PING s1" ∷ [])) [] one_sensor

-- An empty line between two commands.
session-empty_line_example :
    session reads_72 9 (record { bytes = 10 ∷ codes "PING s1"; ending = closed })
    ≡ ret (ended disconnected)
unfolding without_cr
session-empty_line_example = session-empty_line reads_72 8 closed [] (codes "PING s1") tt refl

session-lines_example :
    session reads_72 3 (said (codes "PING s1" ∷ codes "QUIT s1" ∷ []))
    ≡ process_all reads_72 (codes "PING s1" ∷ codes "QUIT s1" ∷ [])
session-lines_example =
    session-lines reads_72 (codes "PING s1" ∷ codes "QUIT s1" ∷ []) 3 (omega arith) (omega arith)

-- The log of a connection with one exchange.
log_test :
    session_log
      (λ n. codes "now")
      (codes "10.0.0.7")
      (pos 40100)
      (record {
        exchanges = record { recv_msg = codes "PING s1"; resp = codes "200 PONG" } ∷ [];
        finish = disconnected;
      })
    ≡ log_info (codes "now") (codes "Sensor client connected: 10.0.0.7:40100")
      ∷ log_sensor (codes "now") (codes "10.0.0.7") (pos 40100) (codes "PING s1") (codes "200 PONG")
      ∷ log_info (codes "now") (codes "Sensor client disconnected: 10.0.0.7:40100")
      ∷ log_info (codes "now") (codes "Sensor handler thread finished for 10.0.0.7:40100")
      ∷ []
unfolding session_log
log_test = refl

status_shows_text_example :
    let (g', reply) =
      run (handle_metric strtod (codes "METRIC" ∷ s1 ∷ codes "70.5" ∷ now ∷ [])) one_sensor in
    (reply ≡ codes "200 OK")
    × (run (handle_status (codes "STATUS" ∷ s1 ∷ [])) g'
        ≡ (g', codes "200 STATUS s1 ACTIVE TEMP 70.50 2026-03-30T14:05:00Z ALERT"))
unfolding state_register_sensor state_init is_valid_timestamp decimal concat number_of
status_shows_text_example =
    status_shows_text one_sensor (codes "METRIC") (codes "STATUS") s1 now
      (new_sensor s1 sensor_temp)
      (record { minus = false; whole = codes "70"; fraction = codes "5" }) one_sensor-IsValid refl
      refl refl
      (record {
        whole = (refl, (refl, tt));
        fraction = (refl, tt);
        some_digit = omega arith;
        places = omega arith;
        small = omega arith;
      })

nan_raises_no_alert_example :
    let (g', reply) =
      run (handle_metric strtod (codes "METRIC" ∷ s1 ∷ codes "nan" ∷ now ∷ [])) one_sensor in
    (reply ≡ codes "200 OK")
    × (recent_alerts g' ≡ recent_alerts one_sensor)
    × (view g'
        ≡ (change s1
            (with_level alert_normal)
            (change s1 (report 0x7ff8000000000000 now) (view one_sensor)).0).0)
unfolding strtod read_unsigned read_real starts_with is_digit parse_double is_nan is_valid_timestamp
    state_register_sensor state_init
nan_raises_no_alert_example =
    nan_raises_no_alert strtod one_sensor (codes "METRIC") s1 (codes "nan") now
      (new_sensor s1 sensor_temp) 0x7ff8000000000000 one_sensor-IsValid refl refl refl refl refl

abbrev full : Text
full = replicate 4095 b'x'

-- A message of 4095 bytes in front of a REGISTER, which is not read.
session-full_line_example :
    run_among
      (session strtod 2
        (record { bytes = full ++ (10 ∷ codes "REGISTER s1 TEMP"); ending = closed }))
      ((deactivate_sensor s1 ∷ []) ∷ [])
      one_sensor
    ≡ (let (g', r) =
          run_among
            (process_line strtod (c_string full))
            ((deactivate_sensor s1 ∷ []) ∷ [])
            one_sensor in
        (g', only (c_string full) r))
session-full_line_example =
    session-full_line strtod 0 closed full (codes "REGISTER s1 TEMP")
      ((deactivate_sensor s1 ∷ []) ∷ []) one_sensor
      (All-replicate IsPlain 4095 {x = b'x'} (omega arith, omega arith)) refl
