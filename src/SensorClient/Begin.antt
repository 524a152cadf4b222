-- ===== src/SensorClient/Begin.antt =====
-- How the session of a client of sensor.py begins: its REGISTER is accepted or refused.
use iot_services_monitoring.Common.{
  suc, ◌+◌, ◌≤◌, ◌<◌, ◌≡◌, refl, ap, ◌∙◌, ◌⊎◌, inl, inr, Bool, true, false, ◌||◌, List, [], ◌∷◌,
  ◌++◌, none, some, length, length-append, map, All, arith, ◌==◌, Bool-cases,
}
use iot_services_monitoring.Text.{Text, codes, c_string, text_eq}
use iot_services_monitoring.Text.Laws.{text_eq_refl, text_eq_iff}
use iot_services_monitoring.Utils.{closed}
use iot_services_monitoring.Utils.Numbers.{strtod}
use iot_services_monitoring.State.{
  GlobalState, Sensor, is_status_active, sensor_type_from_str, is_invalid_type, max_sensors,
}
use iot_services_monitoring.State.Ops.{new_sensor}
use iot_services_monitoring.State.Inv.{IsValid}
use iot_services_monitoring.State.Registry.{Table, put, view, entry}
use iot_services_monitoring.State.Recent.{recent_metrics, recent_alerts}
use iot_services_monitoring.Calls.{Program, call, ret, register_sensor, run}
use iot_services_monitoring.Calls.Service.Refines.{recent-state_register_sensor}
use iot_services_monitoring.Smp.{
  Transcript, answered, register_response, handle_register, handle_sensor_connection,
}
use iot_services_monitoring.Smp.Session.{IsMessage, sent_lines, process_all, session-lines}
use iot_services_monitoring.Smp.Register.{registered, handle_register-registered}
use iot_services_monitoring.SensorClient.{
  SensorConfig, Sample, sensor_client, is_valid_type, register_command, metric_command,
  quit_command,
}
use iot_services_monitoring.SensorClient.Words.{IsWord}
use iot_services_monitoring.SensorClient.Samples.{IsSample}
use iot_services_monitoring.SensorClient.Talk.{run-answered, register_line, metric_line, quit_line}

-- The bytes of the lines are read in as many rounds as there are lines.
rounds : (ls : List Text) → length ls ≤ length (sent_lines ls)
rounds [] = omega arith
rounds (l ∷ ls) = omega (arith, rounds ls, length-append l (10 ∷ sent_lines ls))

pub connection-lines :
    (ls : List Text)
    → All IsMessage ls
    → handle_sensor_connection strtod (record { bytes = sent_lines ls; ending = closed })
      ≡ process_all strtod ls
unfolding handle_sensor_connection
connection-lines ls h =
    session-lines strtod ls (suc (length (sent_lines ls))) h (omega (arith, rounds ls))

-- A type of VALID_SENSOR_TYPES.
abbrev pub IsType : Text → Type 0
IsType ty = IsWord ty × (length ty ≤ 5) × (is_invalid_type (sensor_type_from_str (some ty)) ≡ false)

or_cases : (a b c : Bool) → (a || b || c) ≡ true → (a ≡ true) ⊎ (b ≡ true) ⊎ (c ≡ true)
or_cases a b c h = ground (arith, h)

known-IsType : (ty name : Text) → text_eq ty name ≡ true → IsType name → IsType ty
known-IsType ty name e t = rw ((text_eq_iff ty name).0 e) t

pub valid-IsType : (ty : Text) → is_valid_type ty ≡ true → IsType ty
unfolding is_valid_type sensor_type_from_str
valid-IsType ty h =
    elim (or_cases (text_eq ty (codes "TEMP")) (text_eq ty (codes "VIB"))
      (text_eq ty (codes "POWER")) h) [
        | inl e ↦
            known-IsType ty (codes "TEMP") e
              ((λ e. cc, (refl, (refl, (refl, (refl, tt))))), omega arith, refl)
        | inr (inl e) ↦
            known-IsType ty (codes "VIB") e
              ((λ e. cc, (refl, (refl, (refl, tt)))), omega arith, refl)
        | inr (inr e) ↦
            known-IsType ty (codes "POWER") e
              ((λ e. cc, (refl, (refl, (refl, (refl, (refl, tt)))))), omega arith, refl)
      ]

module _ (config : SensorConfig) where
  abbrev id : Text
  id = config.sensor_id

  pub metric_messages :
      length id ≤ 63
      → IsWord id
      → (ys : List Sample) → All IsSample ys
      → All IsMessage (map (metric_command config) ys ++ (quit_command config ∷ []))
  metric_messages short named [] h = ((quit_line config short named).0, tt)
  metric_messages short named (y ∷ ys) h =
      ((metric_line config short named y h.0).0, metric_messages short named ys h.1)

  abbrev pub begin : Program Text
  begin = handle_register (codes "REGISTER" ∷ id ∷ config.sensor_type ∷ [])

  abbrev pub connection : List Text → Program Transcript
  connection ls =
      handle_sensor_connection strtod (record { bytes = sent_lines ls; ending = closed })

  -- REGISTER of a valid type is one call.
  pub begin-call :
      is_invalid_type (sensor_type_from_str (some config.sensor_type)) ≡ false
      → begin
        ≡ call
            (register_sensor id (sensor_type_from_str (some config.sensor_type)))
            (λ r. ret (register_response r id))
  unfolding handle_register
  begin-call valid = rw valid refl

  pub made_type : sensor_client config ≡ some config → is_valid_type config.sensor_type ≡ true
  unfolding sensor_client
  made_type made = elim (Bool-cases (is_valid_type config.sensor_type)) [
    | inl t ↦ t
    | inr f ↦ absurd (ground (arith, rw f at made))
  ]

  module _ (g : GlobalState) where
    -- REGISTER is answered, then the other lines.
    pub begun :
        (ls : List Text)
        → length id ≤ 63
        → IsWord id
        → is_valid_type config.sensor_type ≡ true
        → All IsMessage ls
        → let (g₁, r) = run begin g in
          let (g', t) = run (process_all strtod ls) g₁ in
          run (connection (register_command config ∷ ls)) g
          ≡ (g', answered (c_string (register_command config)) r t)
    begun ls short named typed h =
        let (word, few, _) = valid-IsType config.sensor_type typed in
        let (message, line) = register_line config short named word few in
        ap (λ p. run p g) (connection-lines (register_command config ∷ ls) (message, h))
        ∙ run-answered (register_command config) ls begin g line

    pub begin-recent :
        is_valid_type config.sensor_type ≡ true
        → (recent_metrics (run begin g).0 ≡ recent_metrics g)
          × (recent_alerts (run begin g).0 ≡ recent_alerts g)
    unfolding run handle_register
    begin-recent typed =
        let (_, _, valid) = valid-IsType config.sensor_type typed in
        rw (valid, run)
          (recent-state_register_sensor g id (sensor_type_from_str (some config.sensor_type)))

    pub begin-accepted :
        length id ≤ 63
        → is_valid_type config.sensor_type ≡ true
        → IsValid g
        → entry g id ≡ none
        → g.sensor_count < max_sensors
        → ((run begin g).1 ≡ codes "200 REGISTERED " ++ id)
          × (entry (run begin g).0 id
              ≡ some (new_sensor id (sensor_type_from_str (some config.sensor_type))))
    begin-accepted short typed v e free =
        let type = sensor_type_from_str (some config.sensor_type) in
        let (_, _, valid) = valid-IsType config.sensor_type typed in
        let unused : (g.sensor_count == max_sensors) ≡ false = ground (arith, free) in
        let table = handle_register-registered g (codes "REGISTER") id config.sensor_type v short in
        let expected : registered id type (view g) ≡ (
          record (put id (new_sensor id type) (view g)) { used = g.sensor_count + 1 },
          codes "200 REGISTERED " ++ id,
        ) =
          rw (valid, e, unused, registered) refl in
        (
          ap (λ (p : Table × Text). p.1) (table ∙ expected),
          ap (λ (p : Table × Text). p.0.lookup id) (table ∙ expected) ∙ (rw (text_eq_refl id)),
        )

    pub begin-rejected :
        (s : Sensor)
        → length id ≤ 63
        → is_valid_type config.sensor_type ≡ true
        → IsValid g
        → entry g id ≡ some s
        → is_status_active s.status ≡ true
        → ((run begin g).1 ≡ codes "409 SENSOR_ALREADY_EXISTS")
          × (entry (run begin g).0 id ≡ some s)
    begin-rejected s short typed v e a =
        let type = sensor_type_from_str (some config.sensor_type) in
        let (_, _, valid) = valid-IsType config.sensor_type typed in
        let table = handle_register-registered g (codes "REGISTER") id config.sensor_type v short in
        let expected : registered id type (view g) ≡ (view g, codes "409 SENSOR_ALREADY_EXISTS") =
          rw (valid, e, a, registered) refl in
        (
          ap (λ (p : Table × Text). p.1) (table ∙ expected),
          ap (λ (p : Table × Text). p.0.lookup id) (table ∙ expected) ∙ e,
        )
