-- ===== src/SensorClient/Crowd.antt =====
-- The session of a client of sensor.py on a server with other connections.
use mathlib.Core.Path.{subst}
use iot_services_monitoring.Common.{
  ◌≤◌, ◌<◌, ◌≡◌, refl, sym, ap, ◌∙◌, false, List, [], ◌∷◌, ◌++◌, none, some, length, map, All,
}
use iot_services_monitoring.Text.{Text, codes, c_string, starts_with}
use iot_services_monitoring.Utils.{closed}
use iot_services_monitoring.Utils.Numbers.{strtod}
use iot_services_monitoring.State.{GlobalState, sensor_type_from_str, max_sensors}
use iot_services_monitoring.State.Ops.{new_sensor, state_register_sensor}
use iot_services_monitoring.State.Inv.{IsValid}
use iot_services_monitoring.State.Registry.{entry}
use iot_services_monitoring.Calls.{
  Call, ret, call, run, run_among, exec_all, register_sensor, ◌>>=◌,
}
use iot_services_monitoring.Calls.Rely.{Safe-run_among}
use iot_services_monitoring.Calls.Invariant.{exec-IsValid}
use iot_services_monitoring.Calls.Service.Active.{Spares}
use iot_services_monitoring.Smp.{register_response, handle_sensor_connection, quit, stay, proceed}
use iot_services_monitoring.Smp.Session.{sent_lines, process_all}
use iot_services_monitoring.Python.{strip_left}
use iot_services_monitoring.SensorClient.{
  SensorConfig, Sample, sensor_client, run_commands, is_ok, register_command, metric_command,
  quit_command,
}
use iot_services_monitoring.SensorClient.Words.{IsWord}
use iot_services_monitoring.SensorClient.Samples.{IsSample}
use iot_services_monitoring.SensorClient.Talk.{responses, register_line}
use iot_services_monitoring.SensorClient.Begin.{
  begin, begin-call, connection, connection-lines, valid-IsType, made_type, metric_messages,
  begin-accepted,
}
use iot_services_monitoring.SensorClient.Steady.{Serves, exec-Serves, AllAnswered, registered-Safe}

module _ (config : SensorConfig) (short : length config.sensor_id ≤ 63)
    (named : IsWord config.sensor_id) where
  abbrev sid : Text
  sid = config.sensor_id

  -- A client that can be made, with an identifier of 1 to 63 bytes without blanks, CR, LF and NUL,
  -- sends samples of finite values below 2^46 with valid timestamps. Its REGISTER is carried out in a
  -- valid state with a free place where the identifier is not known; before each later call of the
  -- connection other threads call whatever they like, except that they do not deactivate this sensor
  -- and register no identifier of more than 63 bytes. Then every line that the client sends is
  -- answered by 200, and the session ends by its QUIT.
  pub client_in_crowd :
      (xs : List Sample) (others : List (List Call)) (g : GlobalState)
      → sensor_client config ≡ some config
      → IsValid g
      → entry g sid ≡ none
      → g.sensor_count < max_sensors
      → All IsSample xs
      → All (All (Spares sid)) others
      → let registered = codes "200 REGISTERED " ++ sid in
        let lines = run_commands config xs registered in
        let (g', t) =
          run_among
            (handle_sensor_connection strtod (record { bytes = sent_lines lines; ending = closed }))
            ([] ∷ others)
            g in
        (responses t ≡ registered ∷ (map (λ _. codes "200 OK") xs ++ (codes "200 BYE" ∷ [])))
        × (t.finish ≡ quit)
  unfolding run run_among exec_all run_commands is_ok strip_left starts_with
  client_in_crowd xs others g made v e free h spare =
      let typed = made_type config made in
      let type = sensor_type_from_str (some config.sensor_type) in
      let (word, few, valid) = valid-IsType config.sensor_type typed in
      let ls = map (metric_command config) xs ++ (quit_command config ∷ []) in
      let line = c_string (register_command config) in
      let rest = process_all strtod ls in
      let ok = codes "200 REGISTERED " ++ sid in
      let (message, read) = register_line config short named word few in
      let (reply, there) = begin-accepted config g short typed v e free in
      let once : begin config
          ≡ call (register_sensor sid type) (λ r. ret (register_response r sid)) =
        begin-call config valid in
      let lines =
        connection-lines (register_command config ∷ ls)
          (message, metric_messages config short named xs h) in
      let program : connection config (register_command config ∷ ls)
          ≡ call (register_sensor sid type)
              (λ r. proceed line rest (register_response r sid, false)) =
        lines ∙ ap (λ q. q >>= proceed line rest) (read ∙ ap stay once) in
      let (g₁, code) = state_register_sensor sid type g in
      let ran : run (begin config) g ≡ (g₁, register_response code sid) = ap (λ p. run p g) once in
      let there' : entry g₁ sid ≡ some (new_sensor sid type) =
        ap (λ (p : GlobalState × Text). entry p.0 sid) (sym ran) ∙ there in
      let reply' : register_response code sid ≡ ok =
        ap (λ (p : GlobalState × Text). p.1) (sym ran) ∙ reply in
      let serves : Serves sid g₁ =
        (exec-IsValid (register_sensor sid type) v, (new_sensor sid type, there', refl)) in
      subst (λ p. AllAnswered ok xs (run_among p ([] ∷ others) g).1) (sym program)
        (subst (λ r. AllAnswered ok xs (run_among (proceed line rest (r, false)) others g₁).1)
          (sym reply')
          (Safe-run_among (Serves sid) (Spares sid) (exec-Serves sid) (AllAnswered ok xs)
            (proceed line rest (ok, false)) others g₁ spare serves
            (registered-Safe config short named line ok xs h)))
