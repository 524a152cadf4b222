-- ===== src/Calls/Service/Refines.antt =====
-- state.c implements the service.
use iot_services_monitoring.Common.{
  ℕ, zero, suc, ◌+◌, ◌≡◌, refl, sym, ap, ap₂, ◌∙◌, Bool, true, false, Bool-cases, Option-cases, inl,
  inr, take, List, [], ◌∷◌, ℤ, length, is_negative, All, if◌then◌else◌,
}
use iot_services_monitoring.Text.{Text}
use iot_services_monitoring.Double.{Double}
use iot_services_monitoring.State.{
  Metric, Alert, GlobalState, SensorType, state_init, max_metrics, max_alerts, zero_metric,
  zero_alert, is_invalid_type, is_status_active,
}
use iot_services_monitoring.State.Ops.{
  find_from, find_entry, find_slot, state_register_sensor, state_find_sensor, state_add_metric,
  state_add_alert, state_deactivate_sensor, state_set_alert_level,
}
use iot_services_monitoring.State.Inv.{IsValid}
use iot_services_monitoring.State.Inv.Keeps.{state_init-IsValid}
use iot_services_monitoring.State.Registry.{Table, view}
use iot_services_monitoring.State.Registry.Refine.{
  register_refines, add_metric_refines, deactivate_refines, set_alert_level_refines,
}
use iot_services_monitoring.State.Recent.{newest, recent_metrics, recent_alerts}
use iot_services_monitoring.State.Recent.Tables.{
  recent-state_add_metric, recent-state_add_alert, recent-state_set_alert_level, stored_metric,
}
use iot_services_monitoring.Calls.{
  Call, register_sensor, find_sensor, add_metric, add_alert, deactivate_sensor, set_alert_level,
  get_sensor_count, get_active_sensor_count, get_alert_count, get_metric_count, read_state, exec,
}
use iot_services_monitoring.Calls.Invariant.{exec-IsValid}
use iot_services_monitoring.Calls.Service.{
  Service, service_of, empty_service, Seen, seen, specify, Fits, with_table, keep_metric,
  Observation, observe, specified,
}

-- The count is the number of records that are listed.
length-newest {ℓ} :
    {A : Type ℓ} (cap : ℕ) (d : A) (cells : List A) (next j n : ℕ)
    → length (newest cap d cells next j n) ≡ n
unfolding newest
length-newest cap d cells next j zero = refl
length-newest cap d cells next j (suc n) = ap suc (length-newest cap d cells next (j + 1) n)

-- An operation on the table of sensors that leaves metrics and alerts.
of_table :
    (g g' : GlobalState) (code : ℤ) (r : Table × ℤ)
    → (let after : Table × ℤ = (view g', code) in after ≡ r)
    → recent_metrics g' ≡ recent_metrics g
    → recent_alerts g' ≡ recent_alerts g
    → let after : Service × ℤ = (service_of g', code) in after ≡ with_table (service_of g) r
of_table g g' code r e m a = λ i. (record { table = (e i).0; metrics = m i; alerts = a i }, (e i).1)

keep-if :
    (b : Bool) (t : Table) (m m' : List Metric) (a : List Alert)
    → let kept : List Metric → Service = λ m. record { table = t; metrics = m; alerts = a } in
      kept (if b then m else m') ≡ (if b then kept m else kept m')
keep-if true t m m' a = refl
keep-if false t m m' a = refl

-- An operation that also keeps a metric.
of_metric :
    (g g' : GlobalState) (code : ℤ) (r : Table × ℤ) (metric : Metric)
    → (let after : Table × ℤ = (view g', code) in after ≡ r)
    → recent_metrics g' ≡ (
        if is_negative code then recent_metrics g else take max_metrics (metric ∷ recent_metrics g))
    → recent_alerts g' ≡ recent_alerts g
    → let after : Service × ℤ = (service_of g', code) in
      after ≡ keep_metric metric (with_table (service_of g) r)
of_metric g g' code r metric e m a =
    (λ i. (record { table = view g'; metrics = m i; alerts = a i }, code))
    ∙ ap (λ (s : Service). (s, code))
        (keep-if (is_negative code) (view g') (recent_metrics g)
          (take max_metrics (metric ∷ recent_metrics g)) (recent_alerts g))
    ∙ ap (λ r. keep_metric metric (with_table (service_of g) r)) e

-- Registering and leaving do not touch the circular tables.
pub recent-state_register_sensor :
    (g : GlobalState) (id : Text) (type : SensorType)
    → let g' = (state_register_sensor id type g).0 in
      (recent_metrics g' ≡ recent_metrics g) × (recent_alerts g' ≡ recent_alerts g)
unfolding state_register_sensor
recent-state_register_sensor g id type = elim (Bool-cases (is_invalid_type type)) [
  | inl t ↦ rw (t, state_register_sensor) (refl, refl)
  | inr f ↦ elim (Option-cases (find_entry id g)) [
    | inl e ↦ elim (Option-cases (find_slot g)) [
      | inl full ↦ rw (f, e, full, state_register_sensor) (refl, refl)
      | inr ((k, s), free) ↦ rw (f, e, free, state_register_sensor) (refl, refl)
    ]
    | inr ((k, s), e) ↦ elim (Bool-cases (is_status_active s.status)) [
      | inl a ↦ rw (f, e, a, state_register_sensor) (refl, refl)
      | inr a ↦ rw (f, e, a, state_register_sensor) (refl, refl)
    ]
  ]
]

pub recent-state_deactivate_sensor :
    (g : GlobalState) (id : Text)
    → let g' = (state_deactivate_sensor id g).0 in
      (recent_metrics g' ≡ recent_metrics g) × (recent_alerts g' ≡ recent_alerts g)
unfolding state_deactivate_sensor
recent-state_deactivate_sensor g id = elim (Option-cases (find_entry id g)) [
  | inl e ↦ rw (e, state_deactivate_sensor) (refl, refl)
  | inr ((k, s), e) ↦ rw (e, state_deactivate_sensor) (refl, refl)
]

view-add_alert :
    (g : GlobalState) (id : Text) (value thr : Double) (ts ty msg : Text)
    → view (state_add_alert id value thr ts ty msg g) ≡ view g
unfolding state_add_alert
view-add_alert g id value thr ts ty msg = refl

-- Each call of state.c is a step of the service, and its reply is the service's.
pub exec_refines :
    (c : Call) (g : GlobalState)
    → IsValid g
    → Fits c
    → let after : Service × Seen c = (service_of (exec c g).0, seen c (exec c g).1) in
      after ≡ specify c (service_of g)
unfolding state_find_sensor
exec_refines (register_sensor id type) g v f =
    let (g', code) = state_register_sensor id type g in
    let (m, a) = recent-state_register_sensor g id type in
    of_table g g' code _ (register_refines g id type f v) m a
exec_refines (find_sensor id) g v f = refl
exec_refines (add_metric id value ts ty) g v f =
    let (g', code) = state_add_metric id value ts ty g in
    let (m, a) = recent-state_add_metric g id value ts ty v in
    of_metric g g' code _ (stored_metric id value ts ty) (add_metric_refines g id value ts ty) m a
exec_refines (add_alert id value thr ts ty msg) g v f =
    let (a, m) = recent-state_add_alert g id value thr ts ty msg v in
    λ i. (
      record { table = view-add_alert g id value thr ts ty msg i; metrics = m i; alerts = a i },
      tt,
    )
exec_refines (deactivate_sensor id) g v f =
    let (g', code) = state_deactivate_sensor id g in
    let (m, a) = recent-state_deactivate_sensor g id in
    of_table g g' code _ (deactivate_refines g id) m a
exec_refines (set_alert_level id level) g v f =
    let (g', code) = state_set_alert_level id level g in
    let (m, a) = recent-state_set_alert_level g id level in
    of_table g g' code _ (set_alert_level_refines g id level) m a
exec_refines get_sensor_count g v f = refl
exec_refines get_active_sensor_count g v f = refl
exec_refines get_alert_count g v f =
    ap (λ (n : ℕ). (service_of g, n))
      (sym (length-newest max_alerts zero_alert g.alerts g.alert_next 0 g.alert_count))
exec_refines get_metric_count g v f =
    ap (λ (n : ℕ). (service_of g, n))
      (sym (length-newest max_metrics zero_metric g.metrics g.metric_next 0 g.metric_count))
exec_refines read_state g v f = refl

observe_refines :
    (cs : List Call) (g : GlobalState)
    → IsValid g
    → All Fits cs
    → observe cs g ≡ specified cs (service_of g)
observe_refines [] g v f = refl
observe_refines (c ∷ cs) g v (f, fs) =
    let step = exec_refines c g v f in
    ap₂ (λ (r : Seen c) (os : List Observation). record { request = c; result = r } ∷ os)
      (ap (λ p. p.1) step)
      (observe_refines cs (exec c g).0 (exec-IsValid c v) fs ∙ ap (λ p. specified cs p.0) step)

empty-init : service_of state_init ≡ empty_service
unfolding state_init find_from newest
empty-init = refl

-- Whatever the threads call from state_init on, in any order, as long as the identifiers that they
-- register have at most 63 bytes, the replies are those of the abstract service: a map of sensors with
-- 64 places, the 512 newest metrics and the 256 newest alerts.
pub calls_refine :
    (cs : List Call) → All Fits cs → observe cs state_init ≡ specified cs empty_service
calls_refine cs f =
    observe_refines cs state_init state_init-IsValid f ∙ ap (specified cs) empty-init
