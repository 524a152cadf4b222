-- ===== src/SensorClient/Tests.antt =====
-- Sessions of clients/python_sensor at concrete inputs.
use iot_services_monitoring.Common.{◌≡◌, refl, none, some, List, [], ◌∷◌, arith}
use iot_services_monitoring.Text.{codes, decimal, text_eq, starts_with}
use iot_services_monitoring.Double.{is_nan, hundredths, print_2f}
use iot_services_monitoring.Utils.{closed, is_valid_timestamp}
use iot_services_monitoring.Utils.Numbers.{strtod}
use iot_services_monitoring.State.{GlobalState, state_init, sensor_temp, sensor_type_from_str}
use iot_services_monitoring.State.Ops.{new_sensor, find_from, state_register_sensor}
use iot_services_monitoring.State.Inv.Keeps.{state_init-IsValid, state_register_sensor-IsValid}
use iot_services_monitoring.State.Registry.{entry, leave}
use iot_services_monitoring.State.Recent.{recent_metrics, recent_alerts}
use iot_services_monitoring.Calls.{
  Call, register_sensor, deactivate_sensor, get_sensor_count, run, run_among,
}
use iot_services_monitoring.Smp.{handle_metric, handle_sensor_connection, quit}
use iot_services_monitoring.Smp.Session.{sent_lines}
use iot_services_monitoring.Python.{strip_left}
use iot_services_monitoring.SensorClient.{
  SensorConfig, Sample, is_valid_type, sensor_client, is_ok, run_commands,
}
use iot_services_monitoring.SensorClient.Samples.{IsSample}
use iot_services_monitoring.SensorClient.Talk.{responses, reported, kept, raised}
use iot_services_monitoring.SensorClient.Crowd.{client_in_crowd}
use iot_services_monitoring.SensorClient.Sessions.{client_accepted, client_rejected}

abbrev sensor_7 : SensorConfig
sensor_7 = record { sensor_id = codes "s7"; sensor_type = codes "VIB" }

abbrev wrong_type : SensorConfig
wrong_type = record { sensor_id = codes "s7"; sensor_type = codes "HUM" }

-- 27.5
abbrev sample : Sample
sample = record { value = 0x403b800000000000; timestamp = codes "2026-03-30T14:05:00Z" }

commands_tests :
    (run_commands sensor_7 (sample ∷ []) (codes "200 REGISTERED s7")
      ≡ codes "REGISTER s7 VIB"
        ∷ codes "METRIC s7 27.50 2026-03-30T14:05:00Z"
        ∷ codes "QUIT s7"
        ∷ [])
    × (run_commands sensor_7 (sample ∷ []) (codes "409 SENSOR_ALREADY_EXISTS")
        ≡ codes "REGISTER s7 VIB" ∷ codes "QUIT s7" ∷ [])
    × (sensor_client sensor_7 ≡ some sensor_7)
    × (sensor_client wrong_type ≡ none)
unfolding run_commands is_ok strip_left starts_with print_2f is_nan hundredths decimal sensor_client
    is_valid_type text_eq
commands_tests = (refl, refl, refl, refl)

sample-IsSample : IsSample sample
unfolding is_nan hundredths is_valid_timestamp
sample-IsSample = record { number = refl; finite = refl; small = omega arith; timed = refl }

client_accepted_example :
    let registered = codes "200 REGISTERED s7" in
    let lines = run_commands sensor_7 (sample ∷ []) registered in
    let type = sensor_type_from_str (some (codes "VIB")) in
    let (g', t) =
      run
        (handle_sensor_connection strtod (record { bytes = sent_lines lines; ending = closed }))
        state_init in
    (responses t ≡ registered ∷ codes "200 OK" ∷ codes "200 BYE" ∷ [])
    × (t.finish ≡ quit)
    × (entry g' (codes "s7") ≡ some (leave (reported (sample ∷ []) (new_sensor (codes "s7") type))))
    × (recent_metrics g' ≡ kept (codes "s7") type (sample ∷ []) (recent_metrics state_init))
    × (recent_alerts g' ≡ raised (codes "s7") type (sample ∷ []) (recent_alerts state_init))
unfolding sensor_client is_valid_type text_eq state_init find_from
client_accepted_example =
    client_accepted sensor_7 (sample ∷ []) state_init (omega arith) (λ e. cc, (refl, (refl, tt)))
      refl state_init-IsValid refl (omega arith) (sample-IsSample, tt)

abbrev one_sensor : GlobalState
one_sensor = (state_register_sensor (codes "s7") sensor_temp state_init).0

client_rejected_example :
    let refused = codes "409 SENSOR_ALREADY_EXISTS" in
    let lines = run_commands sensor_7 (sample ∷ []) refused in
    let (g', t) =
      run
        (handle_sensor_connection strtod (record { bytes = sent_lines lines; ending = closed }))
        one_sensor in
    (responses t ≡ refused ∷ codes "200 BYE" ∷ [])
    × (entry g' (codes "s7") ≡ some (leave (new_sensor (codes "s7") sensor_temp)))
    × (run
          (handle_metric strtod
            (codes "METRIC" ∷ codes "s7" ∷ codes "21.50" ∷ sample.timestamp ∷ []))
          g'
        ≡ (g', codes "403 SENSOR_NOT_REGISTERED"))
unfolding sensor_client is_valid_type text_eq state_register_sensor state_init
client_rejected_example =
    client_rejected sensor_7 (sample ∷ []) one_sensor (new_sensor (codes "s7") sensor_temp)
      (codes "21.50") sample.timestamp (omega arith) (λ e. cc, (refl, (refl, tt))) refl
      (state_register_sensor-IsValid state_init-IsValid (codes "s7") sensor_temp) refl refl

-- What others call, before the connection's second call and later.
abbrev crowd : List (List Call)
crowd =
    (register_sensor (codes "s8") sensor_temp ∷ register_sensor (codes "s7") sensor_temp ∷ [])
    ∷ []
    ∷ (deactivate_sensor (codes "s8") ∷ get_sensor_count ∷ [])
    ∷ []

client_in_crowd_example :
    let registered = codes "200 REGISTERED s7" in
    let lines = run_commands sensor_7 (sample ∷ []) registered in
    let (g', t) =
      run_among
        (handle_sensor_connection strtod (record { bytes = sent_lines lines; ending = closed }))
        ([] ∷ crowd)
        state_init in
    (responses t ≡ registered ∷ codes "200 OK" ∷ codes "200 BYE" ∷ []) × (t.finish ≡ quit)
unfolding sensor_client is_valid_type text_eq state_init find_from
client_in_crowd_example =
    client_in_crowd sensor_7 (omega arith) (λ e. cc, (refl, (refl, tt))) (sample ∷ []) crowd
      state_init refl state_init-IsValid refl (omega arith) (sample-IsSample, tt)
      ((omega arith, (omega arith, tt)), (tt, ((refl, (tt, tt)), tt)))
