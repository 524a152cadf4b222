-- ===== src/Calls/Service/Active.antt =====
-- An active sensor stays active through every call but its own deactivation.
use iot_services_monitoring.Common.{
  ◌≤◌, ◌≡◌, refl, sym, ap, ◌∙◌, ◌⊎◌, inl, inr, true, false, some, length, ℤ, is_negative, ◌==◌,
  Bool-cases, Option-cases,
}
use mathlib.Core.Path.{subst}
use iot_services_monitoring.Text.{Text, text_eq}
use iot_services_monitoring.Text.Laws.{text_eq_iff}
use iot_services_monitoring.State.{
  GlobalState, Sensor, SensorType, Metric, is_status_active, is_invalid_type, max_sensors,
}
use iot_services_monitoring.State.Ops.{new_sensor}
use iot_services_monitoring.State.Inv.{IsValid}
use iot_services_monitoring.State.Registry.{
  Table, put, register, change, leave, report, with_level, view,
}
use iot_services_monitoring.State.Recent.Tables.{stored_metric}
use iot_services_monitoring.Calls.{
  Call, register_sensor, find_sensor, add_metric, add_alert, deactivate_sensor, set_alert_level,
  get_sensor_count, get_active_sensor_count, get_alert_count, get_metric_count, read_state, exec,
}
use iot_services_monitoring.Calls.Service.{Service, service_of, specify, Fits, keep_metric}
use iot_services_monitoring.Calls.Service.Refines.{exec_refines}

module _ (id : Text) where
  abbrev pub HasActive : Table → Type 0
  HasActive t = (s : Sensor) × (t.lookup id ≡ some s) × (is_status_active s.status ≡ true)

  -- Every call but a deactivation of this sensor; identifiers that are registered fit.
  abbrev pub Spares : Call → Type 0
  Spares (register_sensor id' type) = length id' ≤ 63
  Spares (deactivate_sensor id') = text_eq id' id ≡ false
  Spares _ = Unit

  put-HasActive :
      (id' : Text) (s' : Sensor) (t : Table)
      → (text_eq id' id ≡ false) ⊎ (is_status_active s'.status ≡ true)
      → HasActive t
      → HasActive (put id' s' t)
  put-HasActive id' s' t h (s, e, a) = elim (Bool-cases (text_eq id' id)) [
    | inr f ↦ (s, rw f e, a)
    | inl same ↦ elim h [ inl other ↦ absurd (cc) | inr active ↦ (s', rw same refl, active) ]
  ]

  change-HasActive :
      (id' : Text) (f : Sensor → Sensor) (t : Table)
      → ((s : Sensor) → (f s).status ≡ s.status)
      → HasActive t
      → HasActive (change id' f t).0
  change-HasActive id' f t same (s, e, a) = elim (Option-cases (t.lookup id')) [
    | inl n ↦ rw (n, change) (s, e, a)
    | inr (s', found) ↦ elim (Bool-cases (text_eq id' id)) [
      | inr other ↦ rw (found, change) (put-HasActive id' (f s') t (inl other) (s, e, a))
      | inl equal ↦
          let here : t.lookup id ≡ some s' =
            ap t.lookup (sym ((text_eq_iff id' id).0 equal)) ∙ found in
          let one : s' ≡ s = cc in
          rw (found, change) (put-HasActive id' (f s') t (inr (rw (same s', one) a)) (s, e, a))
    ]
  ]

  register-HasActive :
      (id' : Text) (type : SensorType) (t : Table) → HasActive t → HasActive (register id' type t).0
  register-HasActive id' type t h = elim (Bool-cases (is_invalid_type type)) [
    | inl i ↦ rw (i, register) h
    | inr i ↦ elim (Option-cases (t.lookup id')) [
      | inl n ↦ elim (Bool-cases (t.used == max_sensors)) [
        | inl full ↦ rw (i, n, full, register) h
        | inr free ↦
            rw (i, n, free, register) (put-HasActive id' (new_sensor id' type) t (inr refl) h)
      ]
      | inr (s', found) ↦ elim (Bool-cases (is_status_active s'.status)) [
        | inl a ↦ rw (i, found, a, register) h
        | inr a ↦ rw (i, found, a, register) (put-HasActive id' _ t (inr refl) h)
      ]
    ]
  ]

  kept_table : (m : Metric) (s : Service) (code : ℤ) → (keep_metric m (s, code)).0.table ≡ s.table
  kept_table m s code = elim (Bool-cases (is_negative code)) [
    | inl t ↦ rw t refl
    | inr f ↦ rw f refl
  ]

  specify-HasActive :
      (c : Call) (s : Service) → Spares c → HasActive s.table → HasActive (specify c s).0.table
  specify-HasActive (register_sensor id' type) s p h = register-HasActive id' type s.table h
  specify-HasActive (find_sensor id') s p h = h
  specify-HasActive (add_metric id' value ts ty) s p h =
      let (t, code) = change id' (report value ts) s.table in
      subst HasActive
        (sym (kept_table (stored_metric id' value ts ty) (record s { table = t }) code))
        (change-HasActive id' (report value ts) s.table (λ s. refl) h)
  specify-HasActive (add_alert id' value thr ts ty msg) s p h = h
  specify-HasActive (deactivate_sensor id') s p h = elim (Option-cases (s.table.lookup id')) [
    | inl n ↦ rw (n, change) h
    | inr (s', found) ↦ rw (found, change) (put-HasActive id' (leave s') s.table (inl p) h)
  ]
  specify-HasActive (set_alert_level id' level) s p h =
      change-HasActive id' (with_level level) s.table (λ s. refl) h
  specify-HasActive get_sensor_count s p h = h
  specify-HasActive get_active_sensor_count s p h = h
  specify-HasActive get_alert_count s p h = h
  specify-HasActive get_metric_count s p h = h
  specify-HasActive read_state s p h = h

  Spares-Fits : (c : Call) → Spares c → Fits c
  Spares-Fits (register_sensor id' type) p = p
  Spares-Fits (find_sensor id') p = tt
  Spares-Fits (add_metric id' value ts ty) p = tt
  Spares-Fits (add_alert id' value thr ts ty msg) p = tt
  Spares-Fits (deactivate_sensor id') p = tt
  Spares-Fits (set_alert_level id' level) p = tt
  Spares-Fits get_sensor_count p = tt
  Spares-Fits get_active_sensor_count p = tt
  Spares-Fits get_alert_count p = tt
  Spares-Fits get_metric_count p = tt
  Spares-Fits read_state p = tt

  pub exec-HasActive :
      (c : Call) (g : GlobalState)
      → Spares c
      → IsValid g
      → HasActive (view g)
      → HasActive (view (exec c g).0)
  exec-HasActive c g p v h =
      subst HasActive (sym (ap (λ p. p.0.table) (exec_refines c g v (Spares-Fits c p))))
        (specify-HasActive c (service_of g) p h)
