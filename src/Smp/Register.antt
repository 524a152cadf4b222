-- ===== src/Smp/Register.antt =====
-- REGISTER, STATUS and QUIT on a connection that nobody disturbs.
use iot_services_monitoring.Common.{
  ◌+◌, ◌≤◌, ◌≡◌, refl, ap, ◌∙◌, true, false, [], ◌∷◌, ◌++◌, none, some, length, arith, inl, inr,
  Bool-cases, Option-cases, if◌then◌else◌, ◌==◌, take_all, ℤ,
}
use iot_services_monitoring.Text.{Text, codes}
use iot_services_monitoring.Text.Laws.{text_eq_refl}
use iot_services_monitoring.Utils.{Strtod}
use iot_services_monitoring.State.{
  GlobalState, Sensor, SensorType, is_status_active, is_invalid_type, status_active, max_sensors,
  sensor_type_from_str,
}
use iot_services_monitoring.State.Ops.{new_sensor, state_deactivate_sensor}
use iot_services_monitoring.State.Inv.Keeps.{state_deactivate_sensor-IsValid}
use iot_services_monitoring.Smp.Metrics.{handle_metric-Stored}
use iot_services_monitoring.State.Inv.{IsValid}
use iot_services_monitoring.State.Registry.{Table, change, register, put, leave, view, entry}
use iot_services_monitoring.State.Registry.Refine.{register_refines, deactivate_refines}
use iot_services_monitoring.Calls.{run}
use iot_services_monitoring.Smp.{handle_register, handle_metric, handle_quit, register_response}

-- The protocol's table for REGISTER: what is answered, and the map of sensors afterwards.
abbrev pub registered : Text → SensorType → Table → Table × Text
registered id type t =
    if is_invalid_type type then (t, codes "422 INVALID_SENSOR_TYPE") else elim (t.lookup id) [
      | some s ↦
          if is_status_active s.status
          then (t, codes "409 SENSOR_ALREADY_EXISTS")
          else (put id (record s { status = status_active }) t, codes "200 REGISTERED " ++ id)
      | none ↦ if t.used == max_sensors then (t, codes "500 INTERNAL_ERROR") else (
        record (put id (new_sensor id type) t) { used = t.used + 1 },
        codes "200 REGISTERED " ++ id,
      )
    ]

-- The abstract registration with its code spelled as a response.
register-registered :
    (id : Text) (type : SensorType) (t : Table)
    → length id ≤ 63
    → is_invalid_type type ≡ false
    → (let (t', code) = register id type t in (t', register_response code id))
      ≡ registered id type t
register-registered id type t short valid = elim (Option-cases (t.lookup id)) [
  | inl e ↦ elim (Bool-cases (t.used == max_sensors)) [
    | inl full ↦ rw (valid, e, full)
    | inr free ↦
        rw (valid, e, free)
          (ap
            (λ (x : Text). (
              record (put id (new_sensor id type) t) { used = t.used + 1 },
              codes "200 REGISTERED " ++ x,
            ))
            (take_all 4080 id (omega arith)))
  ]
  | inr (s, e) ↦ elim (Bool-cases (is_status_active s.status)) [
    | inl a ↦ rw (valid, e, a)
    | inr a ↦
        rw (valid, e, a)
          (ap
            (λ (x : Text).
              (put id (record s { status = status_active }) t, codes "200 REGISTERED " ++ x))
            (take_all 4080 id (omega arith)))
  ]
]

-- REGISTER with an identifier of at most 63 bytes, on a valid state, answers and changes the map of
-- sensors as the table says: 422 for an unknown type, 409 for an active sensor, 500 if all 64 places
-- are used, else 200 with a new sensor, or with the old one made active again.
pub handle_register-registered :
    (g : GlobalState) (command id type_str : Text)
    → IsValid g
    → length id ≤ 63
    → let (g', r) = run (handle_register (command ∷ id ∷ type_str ∷ [])) g in
      (view g', r) ≡ registered id (sensor_type_from_str (some type_str)) (view g)
unfolding handle_register run
handle_register-registered g command id type_str v short =
    let type = sensor_type_from_str (some type_str) in
    elim (Bool-cases (is_invalid_type type)) [
      | inl t ↦ rw (t, run)
      | inr f ↦
          rw (f, run)
            (ap (λ (p : Table × ℤ). (p.0, register_response p.1 id))
                (register_refines g id type short v)
              ∙ register-registered id type (view g) short f
              ∙ (rw (f, registered)))
    ]

-- A sensor that had left is taken up again by any REGISTER with a valid type: it is answered 200, and
-- the sensor keeps its value, timestamp and level, and the type of its first registration, whatever
-- type the command names.
pub reregister_keeps_type :
    (g : GlobalState) (command id type_str : Text) (s : Sensor)
    → IsValid g
    → length id ≤ 63
    → entry g id ≡ some s
    → is_status_active s.status ≡ false
    → is_invalid_type (sensor_type_from_str (some type_str)) ≡ false
    → let (g', r) = run (handle_register (command ∷ id ∷ type_str ∷ [])) g in
      (r ≡ codes "200 REGISTERED " ++ id)
      × (entry g' id ≡ some (record s { status = status_active }))
reregister_keeps_type g command id type_str s v short e left valid =
    let table = handle_register-registered g command id type_str v short in
    let expected : registered id (sensor_type_from_str (some type_str)) (view g)
        ≡ (put id (record s { status = status_active }) (view g), codes "200 REGISTERED " ++ id) =
      rw (valid, e, left, registered) in
    (
      ap (λ (p : Table × Text). p.1) (table ∙ expected),
      ap (λ (p : Table × Text). p.0.lookup id) (table ∙ expected) ∙ (rw (text_eq_refl id)),
    )

-- A METRIC of an inactive sensor changes nothing.
pub metric-inactive :
    (strtod : Text → Strtod) (g : GlobalState) (command id value_str ts : Text) (s : Sensor)
    → IsValid g
    → entry g id ≡ some s
    → is_status_active s.status ≡ false
    → run (handle_metric strtod (command ∷ id ∷ value_str ∷ ts ∷ [])) g
      ≡ (g, codes "403 SENSOR_NOT_REGISTERED")
metric-inactive strtod g command id value_str ts s v e a =
    let (r, same) = rw (e, a) at (handle_metric-Stored g id ts v strtod command value_str) in
    λ i. (same i, r i)

-- After QUIT a known sensor is inactive, and a METRIC that comes next is refused with 403, whatever
-- value and timestamp it brings, and changes nothing.
pub metric_after_quit :
    (strtod : Text → Strtod) (g : GlobalState) (quit_command command id value_str ts : Text)
    (s : Sensor)
    → IsValid g
    → entry g id ≡ some s
    → let (g', bye) = run (handle_quit (quit_command ∷ id ∷ [])) g in
      (bye ≡ (codes "200 BYE", true))
      × (entry g' id ≡ some (leave s))
      × (run (handle_metric strtod (command ∷ id ∷ value_str ∷ ts ∷ [])) g'
          ≡ (g', codes "403 SENSOR_NOT_REGISTERED"))
unfolding handle_quit run
metric_after_quit strtod g quit_command command id value_str ts s v e =
    let g' = (state_deactivate_sensor id g).0 in
    let table : view g' ≡ put id (leave s) (view g) =
      ap (λ (p : Table × ℤ). p.0) (deactivate_refines g id) ∙ (rw (e, change)) in
    let left : entry g' id ≡ some (leave s) =
      ap (λ (t : Table). t.lookup id) table ∙ (rw (text_eq_refl id)) in
    (
      refl,
      left,
      metric-inactive strtod g' command id value_str ts (leave s)
          (state_deactivate_sensor-IsValid v id) left refl,
    )
