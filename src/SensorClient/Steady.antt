-- ===== src/SensorClient/Steady.antt =====
-- While its sensor is active, a client of sensor.py is answered by 200, whatever other threads call.
use mathlib.Core.Path.{subst}
use iot_services_monitoring.Common.{
  ℕ, ◌≤◌, ◌≡◌, refl, sym, ap, ap₂, ◌∙◌, inl, inr, Bool, true, false, List, [], ◌∷◌, ◌++◌, none,
  some, length, map, All, arith, Option-cases,
}
use iot_services_monitoring.Text.{Text, codes, c_string}
use iot_services_monitoring.Double.{Double, print_2f}
use iot_services_monitoring.Utils.Numbers.{strtod}
use iot_services_monitoring.State.{
  GlobalState, Sensor, SensorType, is_status_active, sensor_type_to_str, alert_alert, alert_normal,
}
use iot_services_monitoring.State.Ops.{find_entry, state_find_sensor}
use iot_services_monitoring.State.Inv.{IsValid}
use iot_services_monitoring.State.Registry.{view, found_sensor}
use iot_services_monitoring.Calls.{
  Call, Program, ret, exec, add_metric, set_alert_level, add_alert, ◌>>=◌,
}
use iot_services_monitoring.Calls.Rely.{Steady, Safe, Steady->>=, Safe->>=, Safe-map}
use iot_services_monitoring.Calls.Invariant.{exec-IsValid}
use iot_services_monitoring.Calls.Lifetime.{add_metric-code}
use iot_services_monitoring.Calls.Service.Active.{HasActive, Spares, exec-HasActive}
use iot_services_monitoring.Alerts.{anomaly, alerts_evaluate}
use iot_services_monitoring.Smp.{
  Transcript, answered, ended, disconnected, quit, stay, proceed, handle_metric, handle_quit,
  store_metric,
}
use iot_services_monitoring.Smp.Session.{process_all}
use iot_services_monitoring.SensorClient.{SensorConfig, Sample, metric_command, quit_command}
use iot_services_monitoring.SensorClient.Words.{IsWord}
use iot_services_monitoring.SensorClient.Samples.{IsSample, two_decimals, parse_double-sample}
use iot_services_monitoring.SensorClient.Talk.{responses, metric_line, quit_line}

module _ (id : Text) where
  -- A valid state with the sensor active.
  abbrev pub Serves : GlobalState → Type 0
  Serves g = IsValid g × HasActive id (view g)

  pub exec-Serves : (c : Call) (g : GlobalState) → Spares id c → Serves g → Serves (exec c g).0
  exec-Serves c g p (v, h) = (exec-IsValid c v, exec-HasActive id c g p v h)

  abbrev IsOk : Text → Type 0
  IsOk r = r ≡ codes "200 OK"

  alerts_evaluate-Steady :
      (value : Double) (type : SensorType) (ts : Text)
      → Steady Serves (λ (n : ℕ). Unit {0}) (alerts_evaluate id value type ts)
  unfolding alerts_evaluate
  alerts_evaluate-Steady value type ts = elim (Option-cases (anomaly type value)) [
    | inl e ↦
        rw (e, alerts_evaluate) (λ g s. (exec-Serves (set_alert_level id alert_normal) g tt s, tt))
    | inr ((threshold, message), e) ↦
        rw (e, alerts_evaluate)
          (λ g s. (
            exec-Serves (add_alert id value threshold ts (sensor_type_to_str type) message) g tt s,
            λ g' s'. (exec-Serves (set_alert_level id alert_alert) g' tt s', tt),
          ))
  ]

  found :
      (g : GlobalState)
      → Serves g
      → (idx : ℕ) × (s : Sensor) × (find_entry id g ≡ some (idx, s))
        × (is_status_active s.status ≡ true)
  found g (v, (s, e, a)) = elim (Option-cases (find_entry id g)) [
    | inl n ↦ let w : none ≡ some s = sym (ap found_sensor n) ∙ e in absurd (ground arith)
    | inr ((idx, s'), h) ↦
        let w : some s' ≡ some s = sym (ap found_sensor h) ∙ e in
        let same : s' ≡ s = cc in
        (idx, s', h, ap (λ (x : Sensor). is_status_active x.status) same ∙ a)
  ]

  store_metric-Steady :
      (value : Double) (s : Sensor) (ts : Text) → Steady Serves IsOk (store_metric id value s ts)
  unfolding state_find_sensor
  store_metric-Steady value s ts = λ g serves.
      let ty = sensor_type_to_str s.type in
      let (idx, s', h, a) = found g serves in
      let code = add_metric-code id value ts ty g (rw h tt) in
      (
        exec-Serves (add_metric id value ts ty) g tt serves,
        rw code (
            Steady->>= Serves (λ (n : ℕ). Unit {0}) IsOk (alerts_evaluate id value s.type ts) _
              (alerts_evaluate-Steady value s.type ts) (λ n u. refl)),
      )

  handle_metric-Steady :
      (x : Sample)
      → IsSample x
      → Steady Serves IsOk
          (handle_metric strtod (codes "METRIC" ∷ id ∷ print_2f x.value ∷ x.timestamp ∷ []))
  unfolding handle_metric state_find_sensor
  handle_metric-Steady x good = λ g serves.
      let (idx, s, h, a) = found g serves in
      (
        serves,
        rw (h, a, parse_double-sample x good, good.timed)
            (store_metric-Steady (two_decimals x.value) s x.timestamp),
      )

-- What the session brings.
abbrev AllOk : List Sample → Transcript → Type 0
AllOk xs t =
    (responses t ≡ map (λ _. codes "200 OK") xs ++ (codes "200 BYE" ∷ [])) × (t.finish ≡ quit)

-- The same behind a first response.
abbrev pub AllAnswered : Text → List Sample → Transcript → Type 0
AllAnswered reply xs t =
    (responses t ≡ reply ∷ (map (λ _. codes "200 OK") xs ++ (codes "200 BYE" ∷ [])))
    × (t.finish ≡ quit)

abbrev Stays : Text × Bool → Type 0
Stays (r, stop) = (r ≡ codes "200 OK") × (stop ≡ false)

module _ (config : SensorConfig) (short : length config.sensor_id ≤ 63)
    (named : IsWord config.sensor_id) where
  abbrev sid : Text
  sid = config.sensor_id

  proceed-Safe :
      (line : Text) (x : Sample) (xs : List Sample) (rest : Program Transcript) (r : Text × Bool)
      → Stays r
      → Safe (Serves sid) (AllOk xs) rest
      → Safe (Serves sid) (AllOk (x ∷ xs)) (proceed line rest r)
  proceed-Safe line x xs rest (r, true) h s = absurd (ground (arith, h.1))
  proceed-Safe line x xs rest (r, false) h s =
      Safe-map (Serves sid) (AllOk xs) (AllOk (x ∷ xs)) rest (answered line r) s
        (λ t q. (ap₂ (λ a b. a ∷ b) h.0 q.0, q.1))

  samples-Safe :
      (xs : List Sample)
      → All IsSample xs
      → Safe
          (Serves sid)
          (AllOk xs)
          (process_all strtod (map (metric_command config) xs ++ (quit_command config ∷ [])))
  unfolding handle_quit
  samples-Safe [] h =
      let line = c_string (quit_command config) in
      subst (λ q. Safe (Serves sid) (AllOk []) (q >>= proceed line (ret (ended disconnected))))
        (sym (quit_line config short named).1) (λ g s. inr (refl, refl))
  samples-Safe (x ∷ xs) h =
      let line = c_string (metric_command config x) in
      let rest =
        process_all strtod (map (metric_command config) xs ++ (quit_command config ∷ [])) in
      let p = handle_metric strtod (codes "METRIC" ∷ sid ∷ print_2f x.value ∷ x.timestamp ∷ []) in
      let steady =
        Steady->>= (Serves sid) (IsOk sid) Stays p (λ r. ret (r, false))
          (handle_metric-Steady sid x h.0) (λ r e. (e, refl)) in
      subst (λ q. Safe (Serves sid) (AllOk (x ∷ xs)) (q >>= proceed line rest))
        (sym (metric_line config short named x h.0).1)
        (Safe->>= (Serves sid) Stays (AllOk (x ∷ xs)) (stay p) (proceed line rest) steady
          (λ r k. proceed-Safe line x xs rest r k (samples-Safe xs h.1)))

  -- The same behind the response to REGISTER.
  pub registered-Safe :
      (line : Text) (reply : Text) (xs : List Sample)
      → All IsSample xs
      → let rest =
          process_all strtod (map (metric_command config) xs ++ (quit_command config ∷ [])) in
        Safe (Serves sid) (AllAnswered reply xs) (proceed line rest (reply, false))
  registered-Safe line reply xs h =
      Safe-map (Serves sid) (AllOk xs) (AllAnswered reply xs) _ (answered line reply)
        (samples-Safe xs h) (λ t q. (ap (λ rs. reply ∷ rs) q.0, q.1))
