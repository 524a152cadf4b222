-- ===== src/SensorClient/Talk.antt =====
-- A sensor of clients/python_sensor and the server: what is answered, and what is stored.
use iot_services_monitoring.Common.{
  ◌≤◌, ◌≡◌, refl, ap, ap₂, ◌∙◌, Bool, true, false, List, [], ◌∷◌, ◌++◌, some, length, length-append,
  take, map, All, arith,
}
use iot_services_monitoring.Text.{Text, codes, c_string, text_eq}
use iot_services_monitoring.Double.{print_2f}
use iot_services_monitoring.Utils.Numbers.{strtod}
use iot_services_monitoring.State.{
  GlobalState, Sensor, SensorType, Metric, Alert, is_status_active, sensor_type_to_str, max_metrics,
}
use iot_services_monitoring.State.Inv.{IsValid}
use iot_services_monitoring.State.Registry.{entry, leave}
use iot_services_monitoring.State.Recent.{recent_metrics, recent_alerts}
use iot_services_monitoring.State.Recent.Tables.{stored_metric}
use iot_services_monitoring.Calls.{Program, run, ret, ◌>>=◌}
use iot_services_monitoring.Calls.Always.{run->>=}
use iot_services_monitoring.Calls.Invariant.{run-IsValid}
use iot_services_monitoring.Calls.Service.Refines.{recent-state_deactivate_sensor}
use iot_services_monitoring.Smp.{
  Transcript, answered, stay, process_line, dispatch, handle_register, handle_metric, handle_quit,
  quit, proceed, Exchange,
}
use iot_services_monitoring.Smp.Session.{IsMessage, process_all}
use iot_services_monitoring.Smp.Metrics.{alerted}
use iot_services_monitoring.Smp.Status.{measured, metric-measured}
use iot_services_monitoring.Smp.Register.{metric_after_quit}
use iot_services_monitoring.SensorClient.{
  SensorConfig, Sample, register_command, metric_command, quit_command,
}
use iot_services_monitoring.SensorClient.Words.{IsWord, process_line-words}
use iot_services_monitoring.SensorClient.Samples.{
  IsSample, two_decimals, parse_double-sample, value-IsWord, timestamp-IsWord,
}

-- The responses in order.
abbrev pub responses : Transcript → List Text
responses t = map (λ (e : Exchange). e.resp) t.exchanges

-- A line that is answered, and does not end the session.
pub run-answered :
    (line : Text) (ls : List Text) (p : Program Text) (g : GlobalState)
    → process_line strtod (c_string line) ≡ stay p
    → let (g₁, r) = run p g in
      let (g', t) = run (process_all strtod ls) g₁ in
      run (process_all strtod (line ∷ ls)) g ≡ (g', answered (c_string line) r t)
unfolding run
run-answered line ls p g e =
    let rest = process_all strtod ls in
    let go = proceed (c_string line) rest in
    let (g₁, r) = run p g in
    ap (λ (q : Program (Text × Bool)). run (q >>= go) g) e
    ∙ run->>= (stay p) go g
    ∙ ap (λ (x : GlobalState × (Text × Bool)). run (go x.1) x.0) (run->>= p (λ r. ret (r, false)) g)
    ∙ run->>= rest (λ t. ret (answered (c_string line) r t)) g₁

-- The sensor, the metrics and the alerts after the samples.
abbrev pub reported : List Sample → Sensor → Sensor
reported [] s = s
reported (x ∷ xs) s = reported xs (measured (two_decimals x.value) x.timestamp s)

abbrev pub kept : Text → SensorType → List Sample → List Metric → List Metric
kept id type [] ms = ms
kept id type (x ∷ xs) ms =
    let m = stored_metric id (two_decimals x.value) x.timestamp (sensor_type_to_str type) in
    kept id type xs (take max_metrics (m ∷ ms))

abbrev pub raised : Text → SensorType → List Sample → List Alert → List Alert
raised id type [] alerts = alerts
raised id type (x ∷ xs) alerts =
    raised id type xs (alerted id type (two_decimals x.value) x.timestamp alerts)

-- Every sample is answered by 200 OK and stored, then the sensor leaves.
abbrev pub Told : Text → Sensor → List Sample → GlobalState → GlobalState × Transcript → Type 0
Told id s xs g (g', t) =
    (responses t ≡ map (λ _. codes "200 OK") xs ++ (codes "200 BYE" ∷ []))
    × (t.finish ≡ quit)
    × (entry g' id ≡ some (leave (reported xs s)))
    × (recent_metrics g' ≡ kept id s.type xs (recent_metrics g))
    × (recent_alerts g' ≡ raised id s.type xs (recent_alerts g))

module _ (config : SensorConfig) (short : length config.sensor_id ≤ 63)
    (named : IsWord config.sensor_id) where
  abbrev id : Text
  id = config.sensor_id

  pub metric_line :
      (x : Sample)
      → IsSample x
      → IsMessage (metric_command config x)
        × (process_line strtod (c_string (metric_command config x))
            ≡ stay
                (handle_metric strtod (codes "METRIC" ∷ id ∷ print_2f x.value ∷ x.timestamp ∷ [])))
  unfolding dispatch text_eq
  metric_line x s =
      let (value, size) = value-IsWord x s in
      let (time, size') = timestamp-IsWord x.timestamp s.timed in
      let l = length-append id (32 ∷ (print_2f x.value ++ (32 ∷ x.timestamp))) in
      let l' = length-append (print_2f x.value) (32 ∷ x.timestamp) in
      process_line-words strtod (codes "METRIC") (id ∷ print_2f x.value ∷ x.timestamp ∷ [])
        (
          (λ e. cc, (refl, (refl, (refl, (refl, (refl, (refl, tt))))))),
          (named, (value, (time, tt))),
        )
        (omega arith) (omega (arith, short, size, size', l, l'))

  pub quit_line :
      IsMessage (quit_command config)
      × (process_line strtod (c_string (quit_command config))
          ≡ handle_quit (codes "QUIT" ∷ id ∷ []))
  unfolding dispatch text_eq
  quit_line =
      process_line-words strtod (codes "QUIT") (id ∷ [])
        ((λ e. cc, (refl, (refl, (refl, (refl, tt))))), (named, tt)) (omega arith)
        (omega (arith, short))

  pub register_line :
      IsWord config.sensor_type
      → length config.sensor_type ≤ 5
      → IsMessage (register_command config)
        × (process_line strtod (c_string (register_command config))
            ≡ stay (handle_register (codes "REGISTER" ∷ id ∷ config.sensor_type ∷ [])))
  unfolding dispatch text_eq
  register_line typed few =
      let l = length-append id (32 ∷ config.sensor_type) in
      process_line-words strtod (codes "REGISTER") (id ∷ config.sensor_type ∷ [])
        (
          (λ e. cc, (refl, (refl, (refl, (refl, (refl, (refl, (refl, (refl, tt))))))))),
          (named, (typed, tt)),
        )
        (omega arith) (omega (arith, short, few, l))

  pub samples-Told :
      (xs : List Sample) (g : GlobalState) (s : Sensor)
      → IsValid g
      → entry g id ≡ some s
      → is_status_active s.status ≡ true
      → All IsSample xs
      → Told id s xs g (
          run (process_all strtod (map (metric_command config) xs ++ (quit_command config ∷ []))) g)
  unfolding run handle_quit
  samples-Told [] g s v e a h =
      let (bye, left, _) = metric_after_quit strtod g (codes "QUIT") [] id [] [] s v e in
      rw (quit_line.1, run)
        (
          refl,
          refl,
          left,
          (recent-state_deactivate_sensor g id).0,
          (recent-state_deactivate_sensor g id).1,
        )
  samples-Told (x ∷ xs) g s v e a h =
      let p = handle_metric strtod (codes "METRIC" ∷ id ∷ print_2f x.value ∷ x.timestamp ∷ []) in
      let (ok, found, metrics, alerts) =
        metric-measured strtod g (codes "METRIC") id (print_2f x.value) x.timestamp s
          (two_decimals x.value) v e a (parse_double-sample x h.0) h.0.timed in
      let ls = map (metric_command config) xs ++ (quit_command config ∷ []) in
      let (r, f, l, m, al) =
        samples-Told xs (run p g).0 (measured (two_decimals x.value) x.timestamp s)
          (run-IsValid p v) found a h.1 in
      rw (run-answered (metric_command config x) ls p g (metric_line x h.0).1) (
        ap₂ (λ a b. a ∷ b) ok r,
        f,
        l,
        m ∙ ap (kept id s.type xs) metrics,
        al ∙ ap (raised id s.type xs) alerts,
      )
