-- ===== src/Smp/Lifetime.antt =====
-- METRIC beside other connections: a sensor found by the first call is still there for the second.
use iot_services_monitoring.Common.{
  ℕ, ◌≡◌, refl, ◌⊎◌, inl, inr, List, [], ◌∷◌, Option, none, some, Bool-cases, Option-cases,
}
use iot_services_monitoring.Text.{Text, codes}
use iot_services_monitoring.Utils.{Strtod, parse_double, is_valid_timestamp}
use iot_services_monitoring.State.{GlobalState, Sensor, is_status_active, sensor_type_to_str}
use iot_services_monitoring.State.Ops.{state_find_sensor, state_add_metric}
use iot_services_monitoring.Calls.{Call, ret, exec_all, run_among, ◌>>◌}
use iot_services_monitoring.Calls.Always.{Always, Always-run_among, Always->>=, every-Always}
use iot_services_monitoring.Calls.Lifetime.{IsFound, exec_all-IsFound, add_metric-code}
use iot_services_monitoring.Alerts.{alerts_evaluate}
use iot_services_monitoring.Smp.{handle_metric, checked_metric, store_metric}

-- The responses that protocolo/SMP_1_0.md lists for METRIC, without 500.
abbrev pub IsMetricReply : Text → Type 0
IsMetricReply r =
    (r ≡ codes "200 OK")
    ⊎ (r ≡ codes "400 BAD_REQUEST")
    ⊎ (r ≡ codes "403 SENSOR_NOT_REGISTERED")
    ⊎ (r ≡ codes "404 SENSOR_NOT_FOUND")
    ⊎ (r ≡ codes "422 INVALID_VALUE")

-- Behind the anomaly rules the response is "200 OK".
evaluated-ok :
    (id : Text) (value : ℕ) (s : Sensor) (ts : Text)
    → Always IsMetricReply (alerts_evaluate id value s.type ts >> ret (codes "200 OK"))
evaluated-ok id value s ts =
    Always->>= (λ (n : ℕ). Unit {0}) IsMetricReply (alerts_evaluate id value s.type ts) _
      (every-Always (λ (n : ℕ). Unit {0}) (alerts_evaluate id value s.type ts) (λ n. tt))
      (λ n _. inl refl)

module _ (id : Text) (value : ℕ) (s : Sensor) (ts : Text) where
  store_metric-ok :
      (others : List (List Call)) (g : GlobalState)
      → ((cs : List Call) → IsFound (state_find_sensor id (exec_all cs g)))
      → IsMetricReply (run_among (store_metric id value s ts) others g).1
  unfolding run_among
  store_metric-ok [] g known =
      let ty = sensor_type_to_str s.type in
      rw (add_metric-code id value ts ty g (known []), run_among)
        (Always-run_among IsMetricReply _ [] (state_add_metric id value ts ty g).0
          (evaluated-ok id value s ts))
  store_metric-ok (cs ∷ others) g known =
      let ty = sensor_type_to_str s.type in
      rw (add_metric-code id value ts ty (exec_all cs g) (known cs), run_among)
        (Always-run_among IsMetricReply _ others (state_add_metric id value ts ty (exec_all cs g)).0
          (evaluated-ok id value s ts))

module _ (strtod : Text → Strtod) (id value_str ts : Text) where
  checked_metric-ok :
      (found : Option (ℕ × Sensor)) (others : List (List Call)) (g : GlobalState)
      → state_find_sensor id g ≡ found
      → IsMetricReply (run_among (checked_metric strtod id value_str ts found) others g).1
  unfolding run_among
  checked_metric-ok none others g e = inr (inr (inr (inl refl)))
  checked_metric-ok (some (idx, s)) others g e = elim (Bool-cases (is_status_active s.status)) [
    | inr f ↦ rw f (inr (inr (inl refl)))
    | inl a ↦ elim (Option-cases (parse_double strtod (some value_str))) [
      | inl p ↦ rw (a, p) (inr (inr (inr (inr refl))))
      | inr (value, p) ↦ elim (Bool-cases (is_valid_timestamp (some ts))) [
        | inr t ↦ rw (a, p, t) (inr (inl refl))
        | inl t ↦
            rw (a, p, t)
              (store_metric-ok id value s ts others g (λ cs. exec_all-IsFound id cs g (rw e tt)))
      ]
    ]
  ]

-- Whatever other connections do between its calls, METRIC is never answered "500 INTERNAL_ERROR",
-- but by one of the five other responses of the protocol's table.
pub handle_metric-IsMetricReply :
    (strtod : Text → Strtod) (tokens : List Text) (others : List (List Call)) (g : GlobalState)
    → IsMetricReply (run_among (handle_metric strtod tokens) others g).1
unfolding handle_metric run_among
handle_metric-IsMetricReply strtod (_ ∷ id ∷ value_str ∷ ts ∷ []) [] g =
    checked_metric-ok strtod id value_str ts (state_find_sensor id g) [] g refl
handle_metric-IsMetricReply strtod (_ ∷ id ∷ value_str ∷ ts ∷ []) (cs ∷ others) g =
    checked_metric-ok strtod id value_str ts (state_find_sensor id (exec_all cs g)) others
      (exec_all cs g) refl
handle_metric-IsMetricReply strtod _ others g = inr (inl refl)
