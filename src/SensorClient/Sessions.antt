-- ===== src/SensorClient/Sessions.antt =====
-- The whole session of a sensor of clients/python_sensor, on a server that nobody else disturbs.
use iot_services_monitoring.Common.{
  ◌≤◌, ◌<◌, ◌≡◌, refl, ap, ap₂, ◌∙◌, true, List, [], ◌∷◌, ◌++◌, none, some, length, map, All,
}
use iot_services_monitoring.Text.{Text, codes, starts_with}
use iot_services_monitoring.Utils.{closed}
use iot_services_monitoring.Utils.Numbers.{strtod}
use iot_services_monitoring.State.{
  GlobalState, Sensor, is_status_active, sensor_type_from_str, max_sensors,
}
use iot_services_monitoring.State.Ops.{new_sensor}
use iot_services_monitoring.State.Inv.{IsValid}
use iot_services_monitoring.State.Registry.{entry, leave}
use iot_services_monitoring.State.Recent.{recent_metrics, recent_alerts}
use iot_services_monitoring.Calls.{run}
use iot_services_monitoring.Calls.Invariant.{run-IsValid}
use iot_services_monitoring.Smp.{handle_metric, handle_sensor_connection, quit}
use iot_services_monitoring.Smp.Session.{sent_lines, process_all}
use iot_services_monitoring.Smp.Register.{metric-inactive}
use iot_services_monitoring.Python.{strip_left}
use iot_services_monitoring.SensorClient.{
  SensorConfig, Sample, sensor_client, metric_command, quit_command, is_ok, run_commands,
}
use iot_services_monitoring.SensorClient.Words.{IsWord}
use iot_services_monitoring.SensorClient.Samples.{IsSample}
use iot_services_monitoring.SensorClient.Talk.{responses, reported, kept, raised, samples-Told}
use iot_services_monitoring.SensorClient.Begin.{
  begin, begun, begin-recent, begin-accepted, begin-rejected, made_type, metric_messages,
}

module _ (config : SensorConfig) (xs : List Sample) (g : GlobalState) where
  abbrev id : Text
  id = config.sensor_id

  -- A client that can be made, with an identifier of 1 to 63 bytes without blanks, CR, LF and NUL that
  -- the server does not know, on a valid state with a free place, sends samples of finite values below
  -- 2^46 with valid timestamps. Every line that it sends is answered by 200, the REGISTER first and the
  -- QUIT last; the sensor has left then, with its last value, timestamp and level, and the metrics,
  -- and the alerts for the anomalous values, stand in front of the others, the newest first.
  pub client_accepted :
      length id ≤ 63
      → IsWord id
      → sensor_client config ≡ some config
      → IsValid g
      → entry g id ≡ none
      → g.sensor_count < max_sensors
      → All IsSample xs
      → let type = sensor_type_from_str (some config.sensor_type) in
        let registered = codes "200 REGISTERED " ++ id in
        let lines = run_commands config xs registered in
        let (g', t) =
          run
            (handle_sensor_connection strtod (record { bytes = sent_lines lines; ending = closed }))
            g in
        (responses t ≡ registered ∷ (map (λ _. codes "200 OK") xs ++ (codes "200 BYE" ∷ [])))
        × (t.finish ≡ quit)
        × (entry g' id ≡ some (leave (reported xs (new_sensor id type))))
        × (recent_metrics g' ≡ kept id type xs (recent_metrics g))
        × (recent_alerts g' ≡ raised id type xs (recent_alerts g))
  unfolding run_commands is_ok strip_left starts_with
  client_accepted short named made v e free h =
      let typed = made_type config made in
      let ls = map (metric_command config) xs ++ (quit_command config ∷ []) in
      let type = sensor_type_from_str (some config.sensor_type) in
      let (reply, found) = begin-accepted config g short typed v e free in
      let (r, f, l, m, al) =
        samples-Told config short named xs (run (begin config) g).0 (new_sensor id type)
          (run-IsValid (begin config) v) found refl h in
      rw (begun config g ls short named typed (metric_messages config short named xs h)) (
        ap₂ (λ a b. a ∷ b) reply r,
        f,
        l,
        m ∙ ap (kept id type xs) (begin-recent config g typed).0,
        al ∙ ap (raised id type xs) (begin-recent config g typed).1,
      )

  -- A client that can be made, with an identifier of 1 to 63 bytes without blanks, CR, LF and NUL that
  -- an active sensor has, on a valid state, gets 409, and sends its QUIT all the same: it is answered
  -- by 200 BYE, the sensor of the other client is inactive, and a METRIC that the other client sends
  -- next is refused with 403, whatever value and timestamp it brings.
  pub client_rejected :
      (s : Sensor) (value_str ts : Text)
      → length id ≤ 63
      → IsWord id
      → sensor_client config ≡ some config
      → IsValid g
      → entry g id ≡ some s
      → is_status_active s.status ≡ true
      → let refused = codes "409 SENSOR_ALREADY_EXISTS" in
        let lines = run_commands config xs refused in
        let (g', t) =
          run
            (handle_sensor_connection strtod (record { bytes = sent_lines lines; ending = closed }))
            g in
        (responses t ≡ refused ∷ codes "200 BYE" ∷ [])
        × (entry g' id ≡ some (leave s))
        × (run (handle_metric strtod (codes "METRIC" ∷ id ∷ value_str ∷ ts ∷ [])) g'
            ≡ (g', codes "403 SENSOR_NOT_REGISTERED"))
  unfolding run_commands is_ok strip_left starts_with
  client_rejected s value_str ts short named made v e a =
      let typed = made_type config made in
      let (reply, found) = begin-rejected config g s short typed v e a in
      let g₁ = (run (begin config) g).0 in
      let bye = process_all strtod (quit_command config ∷ []) in
      let v₁ = run-IsValid (begin config) v in
      let (r, f, l, m, al) = samples-Told config short named [] g₁ s v₁ found a tt in
      let later =
        metric-inactive strtod (run bye g₁).0 (codes "METRIC") id value_str ts (leave s)
          (run-IsValid bye v₁) l refl in
      rw
        (begun config g (quit_command config ∷ []) short named typed
          (metric_messages config short named [] tt))
        (ap₂ (λ a b. a ∷ b) reply r, l, later)
